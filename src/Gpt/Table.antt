-- ===== src/Gpt/Table.antt =====
-- Images with a partition table, as gpt_read_header and gpt_read_entries (src/gpt.c) see them.
use guppy.Prelude.{
  ℕ, zero, suc, ◌+◌, ◌-◌, ◌*◌, ◌/◌, ◌^◌, ◌≤◌, ◌<◌, ◌≡◌, refl, ap, ◌∙◌, true, false, some, arith,
  ◌==◌, ==_iff, ltb, ne→==-false,
}
use guppy.Word.{mul64}
use guppy.Buffer.{Buf, at}
use guppy.Buffer.Words.{le32-at, le64-at, Word32, Word64, Same, Word32-Same, Word64-Same}
use guppy.Host.{HostFile, host_get_size}
use guppy.Host.Laws.{host_read-ok}
use guppy.Image.{read_at_path}
use guppy.Gpt.{
  efi_part, same_bytes, header_size, current_lba, backup_lba, part_entry_lba, num_part_entries,
  part_entry_size, entries_bytes, checked_header, gpt_read_header, gpt_read_entries,
}

-- A header at the offset `k`.
pub record HeaderAt (p : Buf) (k current backup array num : ℕ) : Type 0 where
  pub signature : (i : ℕ) → i < 8 → p (k + i) ≡ efi_part i
  pub size : Word32 p (k + 12) 92
  pub current_word : Word64 p (k + 24) current
  pub backup_word : Word64 p (k + 32) backup
  pub array_word : Word64 p (k + 72) array
  pub num_word : Word32 p (k + 80) num
  pub entry_size : Word32 p (k + 84) 128

pub HeaderAt-Same :
    (p q : Buf) (k current backup array num : ℕ)
    → Same p q k 92
    → HeaderAt p k current backup array num
    → HeaderAt q k current backup array num
HeaderAt-Same p q k current backup array num e h = record {
  signature = λ i hi. e (k + i) (omega arith) (omega arith) ∙ h.signature i hi;
  size = Word32-Same p q (k + 12) 92 (λ j lo hi. e j (omega arith) (omega arith)) h.size;
  current_word =
      Word64-Same p q (k + 24) current (λ j lo hi. e j (omega arith) (omega arith)) h.current_word;
  backup_word =
      Word64-Same p q (k + 32) backup (λ j lo hi. e j (omega arith) (omega arith)) h.backup_word;
  array_word =
      Word64-Same p q (k + 72) array (λ j lo hi. e j (omega arith) (omega arith)) h.array_word;
  num_word = Word32-Same p q (k + 80) num (λ j lo hi. e j (omega arith) (omega arith)) h.num_word;
  entry_size =
      Word32-Same p q (k + 84) 128 (λ j lo hi. e j (omega arith) (omega arith)) h.entry_size;
}

same_bytes-agree : (n : ℕ) (p q : Buf) → ((i : ℕ) → i < n → p i ≡ q i) → same_bytes n p q ≡ true
unfolding same_bytes
same_bytes-agree zero p q h = refl
same_bytes-agree (suc n) p q h =
    let e : (p n == q n) ≡ true = (==_iff (p n) (q n)).1 (h n (omega arith)) in
    rw e (same_bytes-agree n p q (λ i hi. h i (omega arith)))

-- A table: both headers and both arrays, none of which meets another.
pub record Table (f : HostFile) (num last array : ℕ) : Type 0 where
  pub whole : f.size ≡ (last + 1) * 512
  pub low : f.size < 2 ^ 63
  pub room : f.size ≤ f.room
  pub some_entries : 0 < num
  pub few_entries : num < 2 ^ 31
  pub first_array : 1024 + num * 128 ≤ array * 512
  pub second_array : array * 512 + num * 128 ≤ last * 512
  pub primary : HeaderAt f.byte 512 1 last 2 num
  pub backup : HeaderAt f.byte (last * 512) last 1 array num

-- The fields of a header that has been read.
pub record Read (h : Buf) (current backup array num : ℕ) : Type 0 where
  pub header_size_is : header_size h ≡ 92
  pub current_is : current_lba h ≡ current
  pub backup_is : backup_lba h ≡ backup
  pub array_is : part_entry_lba h ≡ array
  pub num_is : num_part_entries h ≡ num
  pub entry_size_is : part_entry_size h ≡ 128

pub HeaderAt-Read :
    (p : Buf) (k current backup array num : ℕ)
    → HeaderAt p k current backup array num
    → current < 2 ^ 64
    → backup < 2 ^ 64
    → array < 2 ^ 64
    → num < 2 ^ 32
    → Read (at p k) current backup array num
HeaderAt-Read p k current backup array num h hc hb ha hn = record {
  header_size_is = le32-at p k 12 92 h.size (omega arith);
  current_is = le64-at p k 24 current h.current_word hc;
  backup_is = le64-at p k 32 backup h.backup_word hb;
  array_is = le64-at p k 72 array h.array_word ha;
  num_is = le32-at p k 80 num h.num_word hn;
  entry_size_is = le32-at p k 84 128 h.entry_size (omega arith);
}

-- A valid header that is read.
pub checked-HeaderAt :
    (p : Buf) (k current backup array num : ℕ)
    → HeaderAt p k current backup array num
    → checked_header (some (at p k)) ≡ some (at p k)
checked-HeaderAt p k current backup array num h =
    let s = same_bytes-agree 8 (at p k) efi_part h.signature in
    let z = le32-at p k 12 92 h.size (omega arith) in rw (s, z)

-- Both headers of a table are read, and say what the table has.
pub gpt_read_header-Table :
    (f : HostFile) (num last array : ℕ)
    → Table f num last array
    → (gpt_read_header f 1 ≡ some (at f.byte 512))
      × (gpt_read_header f 0 ≡ some (at f.byte (last * 512)))
      × Read (at f.byte 512) 1 last 2 num
      × Read (at f.byte (last * 512)) last 1 array num
unfolding gpt_read_header host_get_size read_at_path
gpt_read_header-Table f num last array t =
    let big : ltb f.size 1024 ≡ false =
      not_below 1024 f.size (omega (arith, t.whole, t.first_array, t.second_array)) in
    let end : f.size / 512 - 1 ≡ last = omega (arith, t.whole) in
    let place : mul64 last 512 ≡ last * 512 = omega (arith, t.whole, t.low) in
    let read1 =
      host_read-ok f 512 92 (omega arith) (omega (arith, t.whole, t.first_array, t.second_array)) in
    let read2 =
      host_read-ok f (last * 512) 92 (omega (arith, t.whole, t.low)) (omega (arith, t.whole)) in
    (
      rw (big, read1) (checked-HeaderAt f.byte 512 1 last 2 num t.primary),
      rw (big, end, place, read2) (checked-HeaderAt f.byte (last * 512) last 1 array num t.backup),
      HeaderAt-Read f.byte 512 1 last 2 num t.primary (omega arith) (omega (arith, t.whole, t.low))
          (omega arith) (omega (arith, t.whole, t.low, t.first_array, t.second_array)),
      HeaderAt-Read f.byte (last * 512) last 1 array num t.backup (omega (arith, t.whole, t.low))
          (omega arith) (omega (arith, t.whole, t.low, t.second_array))
          (omega (arith, t.whole, t.low, t.first_array, t.second_array)),
    )
  where
    not_below : (n m : ℕ) → n ≤ m → ltb m n ≡ false
    not_below n m h = ground arith

-- An array that a header speaks of is read.
pub gpt_read_entries-Read :
    (f : HostFile) (h : Buf) (current backup array num : ℕ)
    → Read h current backup array num
    → 0 < num
    → array * 512 + num * 128 ≤ f.size
    → f.size < 2 ^ 63
    → gpt_read_entries f h ≡ some (at f.byte (array * 512))
unfolding gpt_read_entries read_at_path
gpt_read_entries-Read f h current backup array num r hn hr hs =
    let e : mul64 num 128 ≡ num * 128 = omega arith in
    let total : entries_bytes h ≡ num * 128 =
      ap (λ x. mul64 x (part_entry_size h)) r.num_is ∙ ap (mul64 num) r.entry_size_is ∙ e in
    let place : mul64 (part_entry_lba h) 512 ≡ array * 512 =
      ap (λ x. mul64 x 512) r.array_is ∙ omega arith in
    let some_bytes : (num * 128 == 0) ≡ false = ne→==-false (num * 128) 0 (λ z. omega arith) in
    let read1 = host_read-ok f (array * 512) (num * 128) (omega arith) hr in
    rw (total, some_bytes, place) read1
