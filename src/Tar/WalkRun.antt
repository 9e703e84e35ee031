-- ===== src/Tar/WalkRun.antt =====
-- The walk (src/tar.c: gu_tar_walk) over the bytes of an archive.
use guppy.Prelude.{
  ℕ, zero, suc, ◌+◌, ◌-◌, ◌/◌, ◌^◌, ◌≤◌, ◌<◌, ◌≡◌, refl, sym, ap, ◌∙◌, Bool, true, false, some,
  arith, List, [], ◌∷◌, length, ltb, leb,
}
use guppy.Word.{add64, sub64}
use guppy.Buffer.{Buf, at}
use guppy.Host.{HostFile, host_seek}
use guppy.Host.Laws.{host_read-ok}
use guppy.Tar.Header.{TarEntry, is_zero}
use guppy.Tar.Entry.{SameBlock, read_entry-HeaderOf, is_zero-HeaderOf}
use guppy.Tar.Write.{padding}
use guppy.Tar.Walk.{Walk, ok, padded_size, advance, member, walk_loop, gu_tar_walk}
use guppy.Tar.Archive.{
  Member, member_length, archive_length, archive_bytes, Valid, AllValid, member_entry, if_ok,
  visits, padded_size-padding, archive_length_nil, archive_length_cons, length-archive_length,
}

-- The file holds the archive of `ms` from `start` on.
abbrev pub HoldsArchive : HostFile → ℕ → List Member → Type 0
HoldsArchive f start ms =
    (start + archive_length ms ≤ f.size)
    × ((i : ℕ) → i < archive_length ms → f.byte (start + i) ≡ archive_bytes ms i)

HoldsArchive-head :
    (f : HostFile) (start : ℕ) (m : Member) (ms : List Member)
    → HoldsArchive f start (m ∷ ms)
    → SameBlock m.block (at f.byte start)
unfolding archive_length archive_bytes
HoldsArchive-head f start m ms (l, h) j hj = h j (omega arith) ∙ ground arith

not_below : (n i : ℕ) → ltb (n + i) n ≡ false
not_below n i = ground arith

HoldsArchive-tail :
    (f : HostFile) (start : ℕ) (m : Member) (ms : List Member)
    → HoldsArchive f start (m ∷ ms)
    → HoldsArchive f (start + member_length m) ms
unfolding archive_length archive_bytes
HoldsArchive-tail f start m ms (l, h) = (
  omega (arith, l),
  λ i hi.
      let e : start + member_length m + i ≡ start + (member_length m + i) = omega arith in
      let back : member_length m + i - member_length m ≡ i = omega arith in
      let past : ltb (member_length m + i) (member_length m) ≡ false =
        not_below (member_length m) i in
      ap f.byte e ∙ h (member_length m + i) (omega arith) ∙ rw (past, back),
)

is_zero_all :
    (left : ℕ) (p : Buf) (i : ℕ)
    → ((j : ℕ) → i ≤ j → j < i + left → p j ≡ 0)
    → is_zero left p i ≡ true
unfolding is_zero
is_zero_all zero p i h = refl
is_zero_all (suc left) p i h =
    rw (h i (omega arith) (omega arith))
      (is_zero_all left p (i + 1) (λ j lo hi. h j (omega arith) (omega arith)))

module _ {S : Type 0} (cb : TarEntry → S → S × Bool) (fp : HostFile) (off len : ℕ) where
  seek_ok : (pos : ℕ) → pos < 2 ^ 63 → host_seek fp pos ≡ true
  unfolding host_seek
  seek_ok pos h = ground arith

  advance-if_ok :
      (again : ℕ → S → Walk S) (size pos padded : ℕ) (r : S × Bool)
      → padded_size size ≡ padded
      → pos + padded ≤ len
      → off + len < 2 ^ 63
      → advance cb fp off len again size pos r ≡ if_ok r (again (pos + padded))
  unfolding advance
  advance-if_ok again size pos padded (ctx, false) hs hp hl = refl
  advance-if_ok again size pos padded (ctx, true) hs hp hl =
      let left : sub64 len pos ≡ len - pos = omega arith in
      let fits : ltb (len - pos) padded ≡ false = ground arith in
      let next : add64 pos padded ≡ pos + padded = omega arith in
      let place : add64 off (pos + padded) ≡ off + (pos + padded) = omega arith in
      let found = seek_ok (off + (pos + padded)) (omega arith) in
      rw (hs, left, fits, next, place, found)

  -- A header with its member behind it.
  member-if_ok :
      (again : ℕ → S → Walk S) (pos : ℕ) (ctx : S) (m : Member) (h : Buf)
      → Valid m
      → SameBlock m.block h
      → pos + m.size + padding m.size ≤ len
      → off + len < 2 ^ 63
      → member cb fp off len again pos ctx (some h)
        ≡ if_ok (cb (member_entry m (off + pos)) ctx) (again (pos + (m.size + padding m.size)))
  member-if_ok again pos ctx m h v same hp hl =
      let place : add64 off pos ≡ off + pos = omega arith in
      let left : sub64 len pos ≡ len - pos = omega arith in
      let fits : ltb (len - pos) m.size ≡ false = ground arith in
      let not_zero = is_zero-HeaderOf m.block h m.path m.size m.mode m.kind v.header same in
      let e =
        read_entry-HeaderOf m.block h m.path m.size m.mode m.kind (off + pos) v.header same v.text
          (omega (arith, v.small)) v.mode_small v.kind_some in
      unfold member in
      rw (place, e, not_zero, left, fits)
        (advance-if_ok again m.size pos (m.size + padding m.size)
          (cb (member_entry m (off + pos)) ctx) (padded_size-padding m.size v.small) (omega arith)
          hl)

  walk_round :
      (k pos : ℕ) (ctx : S)
      → pos + 512 ≤ len
      → off + len < 2 ^ 63
      → off + pos + 512 ≤ fp.size
      → walk_loop cb fp off len (suc k) pos ctx
        ≡ member cb fp off len
            (walk_loop cb fp off len k)
            (pos + 512)
            ctx
            (some (at fp.byte (off + pos)))
  walk_round k pos ctx hp hl hs =
      let next : add64 pos 512 ≡ pos + 512 = omega arith in
      let place : add64 off pos ≡ off + pos = omega arith in
      let more : leb (pos + 512) len ≡ true = ground arith in
      let read = host_read-ok fp (off + pos) 512 (omega arith) hs in
      unfold walk_loop in rw (next, place, more, read)

  if_ok-agree :
      (r : S × Bool) (f g : S → Walk S) → ((ctx : S) → f ctx ≡ g ctx) → if_ok r f ≡ if_ok r g
  if_ok-agree (ctx, true) f g h = h ctx
  if_ok-agree (ctx, false) f g h = refl

  walk_end :
      (k pos : ℕ) (ctx : S)
      → HoldsArchive fp (off + pos) []
      → member cb fp off len
          (walk_loop cb fp off len k)
          (pos + 512)
          ctx
          (some (at fp.byte (off + pos)))
        ≡ ok ctx
  unfolding archive_length archive_bytes
  walk_end k pos ctx (l, h) =
      let zero_block = is_zero_all 512 (at fp.byte (off + pos)) 0 (λ j lo hi. h j (omega arith)) in
      unfold member in rw zero_block

  walk_loop-visits :
      (ms : List Member) (k pos : ℕ) (ctx : S)
      → AllValid ms
      → HoldsArchive fp (off + pos) ms
      → pos + archive_length ms ≤ len
      → off + len < 2 ^ 63
      → length ms < k
      → walk_loop cb fp off len k pos ctx ≡ visits cb (off + pos) ms ctx
  walk_loop-visits ms zero pos ctx v h hp hl hk = absurd (omega arith)
  walk_loop-visits [] (suc k) pos ctx v h hp hl hk =
      walk_round k pos ctx (omega (arith, hp, archive_length_nil)) hl
        (omega (arith, h.0, archive_length_nil))
      ∙ walk_end k pos ctx h
      ∙ (unfold visits in refl)
  walk_loop-visits (m ∷ ms) (suc k) pos ctx v h hp hl hk =
      let n = archive_length_cons m ms in
      let tail = HoldsArchive-tail fp (off + pos) m ms h in
      let p = pos + 512 + (m.size + padding m.size) in
      let e : off + pos + member_length m ≡ off + p = omega arith in
      let head : off + (pos + 512) ≡ off + pos + 512 = omega arith in
      walk_round k pos ctx (omega (arith, hp, n)) hl (omega (arith, h.0, n))
      ∙ member-if_ok (walk_loop cb fp off len k) (pos + 512) ctx m (at fp.byte (off + pos)) v.0
          (HoldsArchive-head fp (off + pos) m ms h) (omega (arith, hp, n)) hl
      ∙ if_ok-agree (cb (member_entry m (off + (pos + 512))) ctx) (walk_loop cb fp off len k p)
          (visits cb (off + p) ms)
          (λ ctx1.
            walk_loop-visits ms k p ctx1 v.1 (rw (sym e) tail) (omega (arith, hp, n)) hl
              (omega arith))
      ∙ (unfold visits in rw (head, e))

  -- Over a well-formed archive, gu_tar_walk visits every member in order, with its path, size, mode,
  -- type and data offset, and returns 0, or -4 where the callback stops it.
  pub gu_tar_walk-visits :
      (ms : List Member) (ctx : S)
      → AllValid ms
      → HoldsArchive fp off ms
      → archive_length ms ≤ len
      → off + len < 2 ^ 63
      → gu_tar_walk cb fp off len ctx ≡ visits cb off ms ctx
  gu_tar_walk-visits ms ctx v h hp hl =
      let e : off + 0 ≡ off = omega arith in
      unfold gu_tar_walk in
      rw (seek_ok off (omega arith)) (
        walk_loop-visits ms (len / 512 + 1) 0 ctx v (rw e h) (omega (arith, hp)) hl
          (omega (arith, length-archive_length ms))
        ∙ rw e)
