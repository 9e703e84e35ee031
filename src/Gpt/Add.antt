-- ===== src/Gpt/Add.antt =====
-- One more partition (src/gpt.c: gpt_add_partition_lba).
pub mod Slots
pub mod Run
use guppy.Prelude.{
  ℕ, zero, suc, ◌+◌, ◌-◌, ◌*◌, ◌/◌, ◌%◌, ◌^◌, ◌≤◌, ◌<◌, ◌≡◌, ◌≢◌, ◌⊎◌, ◌↔◌, inl, inr, refl, sym, ap,
  ◌∙◌, Bool, true, false, not, Option, none, some, arith, ◌==◌, ◌&&◌, ◌||◌, List, [], ◌∷◌, ◌++◌,
  map, length, length-append, take, drop, replicate, min, max, if◌then◌else◌, Bool-cases, ==_iff,
  ==_refl, ltb, leb, ne→==-false, lt→ltb,
}
use guppy.Ascii.{Bytes, bytes_at}
use guppy.Word.{mul64}
use guppy.Buffer.{Buf, at, zeros, blit, put64}
use guppy.Host.{HostFile}
use guppy.Image.{read_at_path, write_at_path}
use guppy.Gpt.{
  gpt_read_header, same_bytes, sizeof_header, sizeof_entry, sector_bytes_default, part_entry_lba,
  num_part_entries, part_entry_size, backup_lba, current_lba, entries_bytes,
}
use guppy.Gpt.Init.{rand_guid, written}
use guppy.Gpt.Names.{utf8_to_utf16le}

-- The loop that looks for an entry without a type; behind the last entry when there is none.
unfoldable pub free_slot : (left i : ℕ) → (ents : Buf) → (entry_size : ℕ) → ℕ
free_slot zero i ents entry_size = i
free_slot (suc left) i ents entry_size =
    let rest = free_slot left (i + 1) ents entry_size in
    if same_bytes 16 (at ents (i * entry_size)) zeros then i else rest

-- The 36 units of a name, in the memory of a little-endian host.
unfoldable pub name_utf16 : Bytes → Buf
name_utf16 [] j = 0
name_utf16 (c ∷ cs) j =
    let unit = bytes_at (utf8_to_utf16le (c ∷ cs) 36 false) (j / 2) in
    if j % 2 == 0 then unit % 256 else unit / 256

-- The new entry. A `name_utf8` of NULL is an empty one here.
unfoldable pub filled_entry :
    (type_guid uniq_guid : Buf) → (name_utf8 : Bytes) → (first_lba last_lba : ℕ) → Buf
filled_entry type_guid uniq_guid name_utf8 first_lba last_lba =
    let typed = blit (blit zeros 0 16 type_guid) 16 16 uniq_guid in
    let ranged = put64 (put64 (put64 typed 32 first_lba) 40 last_lba) 48 0 in
    blit ranged 56 72 (name_utf16 name_utf8)

-- From the backup header on.
unfoldable pub write_backup : Option Buf → (h ents : Buf) → HostFile → HostFile × ℕ
write_backup none h ents f = (f, 6)
write_backup (some bh) h ents f =
    written
      (write_at_path f (mul64 (part_entry_lba bh) sector_bytes_default) ents (entries_bytes h)) 7
      λ f1.
        written (write_at_path f1 (mul64 (current_lba h) sector_bytes_default) h sizeof_header) 8
          λ f2.
            written
              (write_at_path f2 (mul64 (current_lba bh) sector_bytes_default) bh sizeof_header) 9
              λ f3. (f3, 0)

-- From the new array on, the headers being rewritten behind it.
unfoldable pub store_entries : (h ents : Buf) → HostFile → HostFile × ℕ
store_entries h ents f =
    written (write_at_path f (mul64 (part_entry_lba h) sector_bytes_default) ents (entries_bytes h))
      5
      λ f1.
        write_backup (read_at_path f1 (mul64 (backup_lba h) sector_bytes_default) sizeof_header) h
          ents f1

-- With the header and its array read; `entry` is the new entry.
unfoldable pub fill_slot : Option Buf → (h entry : Buf) → HostFile → HostFile × ℕ
fill_slot none h entry f = (f, 3)
fill_slot (some ents) h entry f =
    let slot = free_slot (num_part_entries h) 0 ents (part_entry_size h) in
    if slot == num_part_entries h
    then (f, 4)
    else store_entries h (blit ents (slot * part_entry_size h) sizeof_entry entry) f

unfoldable pub add_with : Option Buf → (entry : Buf) → HostFile → HostFile × ℕ
add_with none entry f = (f, 1)
add_with (some h) entry f =
    fill_slot (read_at_path f (mul64 (part_entry_lba h) sector_bytes_default) (entries_bytes h)) h
      entry f

-- The error `-k` is k. The calls of `rand` are the parameter `rand`.
unfoldable pub gpt_add_partition_lba :
    (rand : ℕ → ℕ)
    → (type_guid : Buf) → (name_utf8 : Bytes) → (first_lba last_lba : ℕ) → HostFile
    → HostFile × ℕ
gpt_add_partition_lba rand type_guid name_utf8 first_lba last_lba f =
    add_with (gpt_read_header f 1)
      (filled_entry type_guid (rand_guid rand) name_utf8 first_lba last_lba) f
