-- ===== src/Gpt.antt =====
-- GUID partition tables (src/gpt.c, src/gpt_get_partition.c, include/gpt.h).
--
-- A header or an array of entries is its memory: the structures are packed, and the host is
-- little-endian. Allocation succeeds. Memory behind an array is not read where entries take 128 bytes.
pub mod Init
pub mod Add
pub mod Names
pub mod Layout
pub mod Table
pub mod Headers
pub mod Clear
pub mod Refused
pub mod Added
pub mod Partition
pub mod Single
pub mod Ends
pub mod Sector4096
pub mod Tests
pub mod Fresh
use guppy.Prelude.{
  ℕ, zero, suc, ◌+◌, ◌-◌, ◌*◌, ◌/◌, ◌%◌, ◌^◌, ◌≤◌, ◌<◌, ◌≡◌, ◌≢◌, ◌⊎◌, ◌↔◌, inl, inr, refl, sym, ap,
  ◌∙◌, Bool, true, false, not, Option, none, some, arith, ◌==◌, ◌&&◌, ◌||◌, List, [], ◌∷◌, ◌++◌,
  map, length, length-append, take, drop, replicate, min, max, if◌then◌else◌, Bool-cases, ==_iff,
  ==_refl, ltb, leb, ne→==-false, lt→ltb,
}
use guppy.Ascii.{bytes_at, codes}
use guppy.Word.{add64, sub64, mul64}
use guppy.Buffer.{Buf, at, le32, le64}
use guppy.Host.{HostFile, host_get_size}
use guppy.Image.{read_at_path}

abbrev pub sector_bytes_default : ℕ
sector_bytes_default = 512

abbrev pub sizeof_header : ℕ
sizeof_header = 92

abbrev pub sizeof_entry : ℕ
sizeof_entry = 128

-- The fields of Gpt
abbrev pub header_size : Buf → ℕ
header_size h = le32 (at h 12)

abbrev pub current_lba : Buf → ℕ
current_lba h = le64 (at h 24)

abbrev pub backup_lba : Buf → ℕ
backup_lba h = le64 (at h 32)

abbrev pub part_entry_lba : Buf → ℕ
part_entry_lba h = le64 (at h 72)

abbrev pub num_part_entries : Buf → ℕ
num_part_entries h = le32 (at h 80)

abbrev pub part_entry_size : Buf → ℕ
part_entry_size h = le32 (at h 84)

-- `memcmp(p, q, n) == 0`
unfoldable pub same_bytes : (n : ℕ) → Buf → Buf → Bool
same_bytes zero p q = true
same_bytes (suc n) p q = p n == q n && same_bytes n p q

abbrev pub efi_part : Buf
efi_part = bytes_at (codes "EFI PART")

abbrev pub checked_header : Option Buf → Option Buf
checked_header none = none
checked_header (some h) =
    if not (same_bytes 8 h efi_part) then none else if ltb (header_size h) 92 then none else some h

-- `use_primary` is not 0 for the header at LBA 1, and 0 for the one at the end.
unfoldable pub gpt_read_header : HostFile → (use_primary : ℕ) → Option Buf
gpt_read_header f use_primary =
    let lba = if use_primary == 0 then host_get_size f / 512 - 1 else 1 in
    if ltb (host_get_size f) (2 * sector_bytes_default)
    then none
    else checked_header (read_at_path f (mul64 lba sector_bytes_default) sizeof_header)

abbrev pub entries_bytes : Buf → ℕ
entries_bytes h = mul64 (num_part_entries h) (part_entry_size h)

unfoldable pub gpt_read_entries : HostFile → Buf → Option Buf
gpt_read_entries f h =
    if entries_bytes h == 0
    then none
    else read_at_path f (mul64 (part_entry_lba h) sector_bytes_default) (entries_bytes h)

-- The fields of `entries[i]`, a GptEntry.
abbrev pub first_lba : Buf → ℕ → ℕ
first_lba entries i = le64 (at entries (i * sizeof_entry + 32))

abbrev pub last_lba : Buf → ℕ → ℕ
last_lba entries i = le64 (at entries (i * sizeof_entry + 40))

-- `(int)n`, of which a negative value is below every index.
abbrev pub int_at_least : (n i : ℕ) → Bool
int_at_least n i = ltb n (2 ^ 31) && leb i n

-- The range of an entry; both results are `start_lba` and `total_sectors`.
unfoldable pub partition_at : Buf → ℕ → Option (ℕ × ℕ)
partition_at entries i =
    let first = first_lba entries i in
    let last = last_lba entries i in
    if first == 0 || last == 0 || ltb last first then none else some (first, add64 (last - first) 1)

abbrev pub with_entries : Option Buf → (Buf → Option (ℕ × ℕ)) → Option (ℕ × ℕ)
with_entries none f = none
with_entries (some entries) f = f entries

abbrev pub with_header : Option Buf → (Buf → Option (ℕ × ℕ)) → Option (ℕ × ℕ)
with_header none f = none
with_header (some h) f = f h

-- A negative index fails as 0 does. `num_part_entries` is cast to `int`.
unfoldable pub gpt_get_partition : HostFile → (part_index : ℕ) → Option (ℕ × ℕ)
gpt_get_partition f part_index =
    if part_index == 0
    then none
    else with_header (gpt_read_header f 1) λ h. with_entries (gpt_read_entries f h) λ entries.
      if int_at_least (num_part_entries h) part_index
      then partition_at entries (part_index - 1)
      else none

abbrev pub is_used : (entries : Buf) → (i : ℕ) → Bool
is_used entries i =
    let first = first_lba entries i in
    let last = last_lba entries i in (not (first == 0) || not (last == 0)) && leb first last

-- The loop of gpt_find_single_partition: 0 for none so far, or the number of the one found, of which
-- an `int` takes the low 31 bits and the sign.
unfoldable pub find_single : (left : ℕ) → Buf → (i found : ℕ) → ℕ
find_single zero entries i found = found
find_single (suc left) entries i found =
    let used = is_used entries i in
    let next = find_single left entries (i + 1) (if used then i + 1 else found) in
    if used && not (found == 0) then 0 else next

abbrev pub single_of : Option Buf → (Buf → ℕ) → ℕ
single_of none f = 0
single_of (some p) f = f p

unfoldable pub gpt_find_single_partition : HostFile → ℕ
gpt_find_single_partition f =
    single_of (gpt_read_header f 1)
      λ h. single_of (gpt_read_entries f h) λ entries. find_single (num_part_entries h) entries 0 0
