-- ===== src/Tar/Archive.antt =====
-- The bytes of an archive, as src/tar_write.c lays them out and src/tar.c walks over them.
use guppy.Prelude.{
  ℕ, suc, ◌+◌, ◌-◌, ◌*◌, ◌^◌, ◌<◌, ◌≡◌, ◌≢◌, ◌↔◌, refl, Bool, true, false, arith, List, [], ◌∷◌,
  length, if◌then◌else◌, ltb,
}
use guppy.Ascii.{Bytes, IsCString}
use guppy.Buffer.{Buf}
use guppy.Tar.Header.{TarEntry}
use guppy.Tar.HeaderFields.{HeaderOf}
use guppy.Tar.Write.{padding}
use guppy.Tar.Entry.{entry}
use guppy.Tar.Walk.{Walk, ok, fails, padded_size}

pub record Member : Type 0 where
  pub path : Bytes
  pub size : ℕ
  pub mode : ℕ
  pub kind : ℕ
  pub block : Buf
  pub content : Buf

-- Header, content, and zeros to the end of the last record.
abbrev pub member_bytes : Member → Buf
member_bytes m i =
    if ltb i 512 then m.block i else if ltb (i - 512) m.size then m.content (i - 512) else 0

abbrev pub member_length : Member → ℕ
member_length m = 512 + m.size + padding m.size

unfoldable pub archive_length : List Member → ℕ
archive_length [] = 1024
archive_length (m ∷ ms) = member_length m + archive_length ms

unfoldable pub archive_bytes : List Member → Buf
archive_bytes [] i = 0
archive_bytes (m ∷ ms) i =
    let rest = archive_bytes ms (i - member_length m) in
    if ltb i (member_length m) then member_bytes m i else rest

-- A member whose header is right, and whose size the walk can round up in 32 bits.
pub record Valid (m : Member) : Type 0 where
  pub header : HeaderOf m.block m.path m.size m.mode m.kind
  pub text : IsCString m.path
  pub small : m.size + 511 < 2 ^ 32
  pub mode_small : m.mode < 2 ^ 32
  pub kind_some : m.kind ≢ 0

abbrev pub AllValid : List Member → Type 0
AllValid [] = Unit {0}
AllValid (m ∷ ms) = Valid m × AllValid ms

abbrev pub member_entry : Member → ℕ → TarEntry
member_entry m data_offset = entry m.path m.size m.mode m.kind data_offset

abbrev pub if_ok : {S : Type 0} → S × Bool → (S → Walk S) → Walk S
if_ok (ctx, true) next = next ctx
if_ok (ctx, false) next = fails 4 ctx

-- The callback on one entry after the other; the archive starts at `start`.
unfoldable pub visits :
    {S : Type 0} → (TarEntry → S → S × Bool) → (start : ℕ) → List Member → S → Walk S
visits cb start [] ctx = ok ctx
visits cb start (m ∷ ms) ctx =
    if_ok (cb (member_entry m (start + 512)) ctx) (visits cb (start + member_length m) ms)

pub padded_size-padding : (size : ℕ) → size + 511 < 2 ^ 32 → padded_size size ≡ size + padding size
unfolding padded_size
padded_size-padding size h = omega arith

pub archive_length_nil : archive_length [] ≡ 1024
unfolding archive_length
archive_length_nil = refl

pub archive_length_cons :
    (m : Member) (ms : List Member) → archive_length (m ∷ ms) ≡ member_length m + archive_length ms
unfolding archive_length
archive_length_cons m ms = refl

pub length-archive_length : (ms : List Member) → suc (length ms) * 512 < archive_length ms + 1
unfolding archive_length
length-archive_length [] = omega arith
length-archive_length (m ∷ ms) = omega (arith, length-archive_length ms)

-- The size that gu_tar_walk skips for a member is the size that gu_tar_write_file writes for it (its
-- content and its padding) exactly if rounding it up stays below 2 ^ 32; a larger member, which the
-- header can hold, is skipped only in part.
pub padded_size_iff :
    (size : ℕ) → size < 8 ^ 11 → (padded_size size ≡ size + padding size) ↔ (size + 511 < 2 ^ 32)
unfolding padded_size
padded_size_iff size h = (wraps size, padded_size-padding size)
  where
    wraps : (size : ℕ) → padded_size size ≡ size + padding size → size + 511 < 2 ^ 32
    wraps size e = omega arith
