-- ===== src/Mbr.antt =====
-- Partition tables in the master boot record (src/mbr.c).
pub mod Chs
pub mod Entries
mod Tests
use guppy.Prelude.{
  ℕ, zero, suc, ◌+◌, ◌-◌, ◌*◌, ◌/◌, ◌%◌, ◌^◌, ◌≤◌, ◌<◌, ◌≡◌, ◌≢◌, ◌⊎◌, ◌↔◌, inl, inr, refl, sym, ap,
  ◌∙◌, Bool, true, false, not, Option, none, some, arith, ◌==◌, ◌&&◌, ◌||◌, List, [], ◌∷◌, ◌++◌,
  map, length, length-append, take, drop, replicate, min, max, if◌then◌else◌, Bool-cases, ==_iff,
  ==_refl, ltb, leb, ne→==-false, lt→ltb,
}
use guppy.Word.{sub64, u32}
use guppy.Buffer.{Buf, at, zeros, blit, bytes32, put32, le32}
use guppy.Host.{HostFile}
use guppy.Image.{read_at_path, write_at_path}

abbrev pub mbr_size : ℕ
mbr_size = 512

abbrev pub mbr_part_offset : ℕ
mbr_part_offset = 446

abbrev pub mbr_sig_offset : ℕ
mbr_sig_offset = 510

-- `p[k] = v`, for a byte `v`
abbrev pub store8 : Buf → (k v : ℕ) → Buf
store8 p k v i = if i == k then v else p i

-- The three bytes of `set_chs`. The masked words have no bit in common, so `|` is their sum.
unfoldable pub chs_bytes : (lba : ℕ) → Buf
chs_bytes lba i =
    let cyl = lba / (63 * 255) in
    let tmp = lba % (63 * 255) in
    let head = tmp / 63 in
    let sect = tmp % 63 + 1 in
    if i == 0 then head % 256 else if i == 1 then sect % 64 + cyl / 4 % 256 / 64 * 64 else cyl % 256

unfoldable pub set_chs : Buf → (k lba : ℕ) → Buf
set_chs p k lba = blit p k 3 (chs_bytes lba)

-- The signature of a boot record.
unfoldable pub sign : Buf → Buf
sign buf = store8 (store8 buf mbr_sig_offset 0x55) (mbr_sig_offset + 1) 0xaa

unfoldable pub mbr_init_empty : HostFile → HostFile × Bool
mbr_init_empty f = write_at_path f 0 (sign zeros) mbr_size

unfoldable pub mbr_read : HostFile → Option Buf
mbr_read f = read_at_path f 0 mbr_size

unfoldable pub mbr_write : Buf → HostFile → HostFile × Bool
mbr_write mbr f = write_at_path f 0 mbr mbr_size

-- The fields of the entry at `k`, in the order of the assignments.
unfoldable pub fill_entry : Buf → (k type lba_start sectors : ℕ) → Buf
fill_entry buf k type lba_start sectors =
    let started = store8 (set_chs (store8 buf k 0) (k + 1) lba_start) (k + 4) type in
    let ended = set_chs started (k + 5) (u32 (lba_start + sectors + 2 ^ 32 - 1)) in
    put32 (put32 ended (k + 8) lba_start) (k + 12) sectors

abbrev pub rewrite : Option Buf → (Buf → Buf) → HostFile → HostFile × Bool
rewrite none change f = (f, false)
rewrite (some buf) change f = mbr_write (change buf) f

-- `true` is 0. An index below 1 is no less an error than one above 4, so it is a natural number.
unfoldable pub mbr_add_partition :
    HostFile → (index type start_bytes size_bytes : ℕ) → HostFile × Bool
mbr_add_partition f index type start_bytes size_bytes =
    if ltb index 1 || ltb 4 index
    then (f, false)
    else rewrite (mbr_read f)
        (λ buf. sign (
          fill_entry buf (mbr_part_offset + (index - 1) * 16) type (u32 (start_bytes / 512))
            (u32 (size_bytes / 512))))
        f
