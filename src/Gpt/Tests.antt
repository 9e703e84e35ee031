-- ===== src/Gpt/Tests.antt =====
-- Small images with GUID partition tables (src/gpt.c).
use guppy.Prelude.{
  ℕ, zero, suc, ◌+◌, ◌-◌, ◌<◌, ◌≡◌, inl, refl, ◌∙◌, false, arith, [], ◌∷◌, ◌++◌, length, replicate,
}
use guppy.Ascii.{codes}
use guppy.Buffer.{Buf, at, zeros, blit}
use guppy.Buffer.Words.{blit-inside, blit-outside}
use guppy.Host.{HostFile}
use guppy.Gpt.{gpt_read_header, gpt_find_single_partition, same_bytes}
use guppy.Gpt.Init.{Fresh, fresh, gpt_init_fresh, primary_header, backup_header}
use guppy.Gpt.Layout.{IsLayout, fresh-IsLayout}
use guppy.Gpt.Refused.{Untouched, gpt_init_fresh-Untouched}
use guppy.Gpt.Sector4096.{SameHeader, gpt_init_fresh-unread}
use guppy.Gpt.Headers.{primary_header-HeaderAt, backup_header-HeaderAt, HeaderAt-at}
use guppy.Gpt.Table.{Table}
use guppy.Gpt.Names.{
  utf8_to_utf16le, gpt_utf16le_to_utf8, length-gpt_utf16le_to_utf8,
  gpt_utf16le_to_utf8-utf8_to_utf16le,
}
use guppy.Gpt.Add.{free_slot, gpt_add_partition_lba}
use guppy.Gpt.Add.Slots.{untyped}
use guppy.Gpt.Added.{IsAdded, gpt_add_partition_lba-IsAdded, gpt_add_partition_lba-full}
use guppy.Gpt.Single.{only, used_numbers, gpt_find_single_partition-only}

abbrev blank_image : HostFile
blank_image = record { size = 4194304; room = 4194304; byte = zeros }

abbrev four : ℕ → ℕ
four i = 4

fresh-IsLayout_example : IsLayout (fresh 4194304 512 128 128) 4194304 128
fresh-IsLayout_example =
    fresh-IsLayout 4194304 128 refl (omega arith) (omega arith) (omega arith) (omega arith)

gpt_init_fresh-Untouched_example : Untouched blank_image (gpt_init_fresh four 512 0 64 blank_image)
gpt_init_fresh-Untouched_example = gpt_init_fresh-Untouched four 512 0 64 blank_image

-- There is no header at either place before, and none after.
gpt_init_fresh-unread_example :
    SameHeader
      (gpt_read_header blank_image 0)
      (gpt_read_header (gpt_init_fresh four 4096 0 128 blank_image).0 0)
gpt_init_fresh-unread_example =
    gpt_init_fresh-unread four 0 blank_image 0 (omega arith) (omega arith) (omega arith)

-- Four entries in an array of one sector.
abbrev small : Fresh
small = record { total_lba = 5; last_lba = 4; ents_lba = 1; first_usable = 3; backup_ents_lba = 3 }

abbrev primary : Buf
primary = primary_header small 4 128 zeros

abbrev backup : Buf
backup = backup_header small primary

-- Every byte of the array is `b`.
abbrev disk : (b : ℕ) → HostFile
disk b = record {
  size = 2560;
  room = 2560;
  byte = blit (blit (blit zeros 1024 512 (λ i. b)) 512 92 primary) 2048 92 backup;
}

disk-Table : (b : ℕ) → Table (disk b) 4 4 3
disk-Table b = record {
  whole = refl;
  low = omega arith;
  room = omega arith;
  some_entries = omega arith;
  few_entries = omega arith;
  first_array = omega arith;
  second_array = omega arith;
  primary =
      HeaderAt-at primary (disk b).byte 512 1 4 2 4
        (λ i hi.
          blit-outside (blit (blit zeros 1024 512 (λ j. b)) 512 92 primary) backup 2048 92 (512 + i)
            (inl (omega arith))
          ∙ blit-inside (blit zeros 1024 512 (λ j. b)) primary 512 92 i hi)
        (primary_header-HeaderAt small 4 zeros);
  backup =
      HeaderAt-at backup (disk b).byte 2048 4 1 3 4
        (λ i hi.
          blit-inside (blit (blit zeros 1024 512 (λ j. b)) 512 92 primary) backup 2048 92 i hi)
        (backup_header-HeaderAt small 4 zeros);
}

gpt_add_partition_lba-IsAdded_example :
    (g : HostFile) × (gpt_add_partition_lba four (λ i. 7) (codes "root") 3 3 (disk 0) ≡ (g, 0))
    × IsAdded (disk 0) g 4 4 3 0 3 3
unfolding free_slot same_bytes
gpt_add_partition_lba-IsAdded_example =
    gpt_add_partition_lba-IsAdded four (λ i. 7) (codes "root") 3 3 (disk 0) 4 4 3 0 (disk-Table 0)
      refl (omega arith) (omega arith) (omega arith) (omega arith)

all_typed : (i : ℕ) → i < 4 → untyped (at (disk 1).byte 1024) 128 i ≡ false
unfolding same_bytes
all_typed zero h = refl
all_typed (suc zero) h = refl
all_typed (suc (suc zero)) h = refl
all_typed (suc (suc (suc zero))) h = refl
all_typed (suc (suc (suc (suc n)))) h = absurd (omega arith)

gpt_add_partition_lba-full_example :
    gpt_add_partition_lba four (λ i. 7) [] 3 3 (disk 1) ≡ (disk 1, 4)
gpt_add_partition_lba-full_example =
    gpt_add_partition_lba-full four (λ i. 7) [] 3 3 (disk 1) 4 4 3 (disk-Table 1) all_typed

gpt_find_single_partition-only_example :
    gpt_find_single_partition (disk 1) ≡ only (used_numbers 4 0 (at (disk 1).byte 1024))
gpt_find_single_partition-only_example =
    gpt_find_single_partition-only (disk 1) 4 4 3 (disk-Table 1)

length-gpt_utf16le_to_utf8_example :
    0 + length (gpt_utf16le_to_utf8 (b'a' ∷ 0x20ac ∷ b'b' ∷ []) 0 5) < 5
length-gpt_utf16le_to_utf8_example =
    length-gpt_utf16le_to_utf8 (b'a' ∷ 0x20ac ∷ b'b' ∷ []) 0 5 (omega arith)

gpt_utf16le_to_utf8-utf8_to_utf16le_example :
    gpt_utf16le_to_utf8 (utf8_to_utf16le (codes "root") 36 false ++ replicate (36 - 4) 0) 0 8
    ≡ codes "root"
gpt_utf16le_to_utf8-utf8_to_utf16le_example =
    gpt_utf16le_to_utf8-utf8_to_utf16le (codes "root") 8 (ground arith) (omega arith) (omega arith)
