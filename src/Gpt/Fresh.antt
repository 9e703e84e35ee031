-- ===== src/Gpt/Fresh.antt =====
-- What gpt_init_fresh (src/gpt.c) leaves in an image with sectors of 512 bytes.
use guppy.Prelude.{ℕ, ◌+◌, ◌*◌, ◌≤◌, ◌<◌, ◌≡◌, some}
use guppy.Buffer.{Buf, at}
use guppy.Host.{HostFile}
use guppy.Gpt.Init.{Fresh}
use guppy.Gpt.{gpt_read_header, gpt_read_entries}
use guppy.Gpt.Table.{Table, Read}

record Headers (f g : HostFile) (last : ℕ) (primary backup : Buf) : Type 0 where
  same_size : g.size ≡ f.size
  same_room : g.room ≡ f.room
  first : (i : ℕ) → i < 92 → g.byte (512 + i) ≡ primary i
  second : (i : ℕ) → i < 92 → g.byte (last * 512 + i) ≡ backup i
  kept : (j : ℕ) → 1024 ≤ j → j < last * 512 → g.byte j ≡ f.byte j

-- What the readers find in a table without entries.
pub record ReadBack (g : HostFile) (num last array : ℕ) : Type 0 where
  pub primary : gpt_read_header g 1 ≡ some (at g.byte 512)
  pub backup : gpt_read_header g 0 ≡ some (at g.byte (last * 512))
  pub primary_fields : Read (at g.byte 512) 1 last 2 num
  pub backup_fields : Read (at g.byte (last * 512)) last 1 array num
  pub primary_entries : gpt_read_entries g (at g.byte 512) ≡ some (at g.byte 1024)
  pub backup_entries : gpt_read_entries g (at g.byte (last * 512)) ≡ some (at g.byte (array * 512))

-- What a fresh table is: both headers and both arrays are read, no entry is used, and the usable part
-- is as it was.
pub record IsFresh (f g : HostFile) (l : Fresh) (num : ℕ) : Type 0 where
  pub table : Table g num l.last_lba l.backup_ents_lba
  pub read_back : ReadBack g num l.last_lba l.backup_ents_lba
  pub no_entry : (j : ℕ) → j < num * 128 → g.byte (1024 + j) ≡ 0
  pub no_backup : (j : ℕ) → j < num * 128 → g.byte (l.backup_ents_lba * 512 + j) ≡ 0
  pub usable :
      (j : ℕ) → l.first_usable * 512 ≤ j → j < l.backup_ents_lba * 512 → g.byte j ≡ f.byte j
