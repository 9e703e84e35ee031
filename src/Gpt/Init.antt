-- ===== src/Gpt/Init.antt =====
-- A fresh table (src/gpt.c: rand_guid, align_up, gpt_init_fresh).
use guppy.Prelude.{
  ℕ, zero, suc, ◌+◌, ◌-◌, ◌*◌, ◌/◌, ◌%◌, Bool, true, false, not, ◌==◌, ◌&&◌, if◌then◌else◌, ltb,
  leb,
}
use guppy.Word.{add64, sub64, mul64, u32, u32_max}
use guppy.Buffer.{Buf, zeros, blit, put32, put64}
use guppy.Host.{HostFile, host_get_size}
use guppy.Image.{write_at_path}
use guppy.Gpt.{efi_part, sizeof_header}

-- `rand i` is the call of `rand` for byte `i`. The masks leave no common bits, so `|` is a sum.
unfoldable pub rand_guid : (rand : ℕ → ℕ) → Buf
rand_guid rand i =
    if i == 6
    then rand i % 256 % 16 + 0x40
    else if i == 8
    then rand i % 256 % 64 + 0x80
    else rand i % 256

unfoldable pub align_up : ℕ → ℕ → ℕ
align_up v a = mul64 (sub64 (add64 v a) 1 / a) a

-- The local variables of gpt_init_fresh.
pub record Fresh : Type 0 where
  pub total_lba : ℕ
  pub last_lba : ℕ
  pub ents_lba : ℕ
  pub first_usable : ℕ
  pub backup_ents_lba : ℕ

abbrev pub mebibyte : ℕ
mebibyte = 1048576

unfoldable pub fresh : (bytes sector entries entry_size : ℕ) → Fresh
fresh bytes sector entries entry_size =
    let ents_lba = sub64 (add64 (mul64 entries entry_size) sector) 1 / sector in
    record {
      total_lba = bytes / sector;
      last_lba = sub64 (bytes / sector) 1;
      ents_lba = ents_lba;
      first_usable = align_up (add64 2 ents_lba) (mebibyte / sector);
      backup_ents_lba = sub64 (sub64 (bytes / sector) 1) ents_lba;
    }

-- A write that may return the error `-code`, and the statements behind it. A result of 0 is success.
abbrev pub written : HostFile × Bool → (code : ℕ) → (HostFile → HostFile × ℕ) → HostFile × ℕ
written (f, false) code next = (f, code)
written (f, true) code next = next f

-- `for (i = 0; i < ents_lba; i++)`
unfoldable pub clear_loop :
    (left i backup_ents_lba sector : ℕ) → (HostFile → HostFile × ℕ) → HostFile → HostFile × ℕ
clear_loop zero i backup_ents_lba sector next f = next f
clear_loop (suc left) i backup_ents_lba sector next f =
    written (write_at_path f (mul64 (add64 2 i) sector) zeros sector) 9 λ f1.
      written (write_at_path f1 (mul64 (add64 backup_ents_lba i) sector) zeros sector) 10
        (clear_loop left (i + 1) backup_ents_lba sector next)

unfoldable pub primary_header : Fresh → (entries entry_size : ℕ) → (guid : Buf) → Buf
primary_header l entries entry_size guid =
    let named = put32 (put32 (blit zeros 0 8 efi_part) 8 0x00010000) 12 92 in
    let placed = put64 (put64 (put32 named 16 0) 24 1) 32 l.last_lba in
    let ranged = put64 (put64 placed 40 l.first_usable) 48 (sub64 l.backup_ents_lba 1) in
    let owned = put64 (blit ranged 56 16 guid) 72 2 in
    put32 (put32 (put32 owned 80 entries) 84 entry_size) 88 0

unfoldable pub backup_header : Fresh → (primary : Buf) → Buf
backup_header l primary = put64 (put64 (put64 primary 24 l.last_lba) 32 1) 72 l.backup_ents_lba

-- The protective boot record.
unfoldable pub protective_mbr : (total_lba : ℕ) → Buf
protective_mbr total_lba =
    let count = if ltb u32_max total_lba then u32_max else u32 (total_lba - 1) in
    let signed = blit zeros 510 2 (λ i. if i == 0 then 0x55 else 0xaa) in
    put32 (put32 (blit signed (446 + 4) 1 (λ i. 0xee)) (446 + 8) 1) (446 + 12) count

unfoldable pub write_headers : Fresh → (sector : ℕ) → (primary : Buf) → HostFile → HostFile × ℕ
write_headers l sector primary f =
    written (write_at_path f (mul64 1 sector) primary sizeof_header) 11 λ f1.
      written (write_at_path f1 (mul64 l.last_lba sector) (backup_header l primary) sizeof_header)
        12
        λ f2.
          if sector == 512
          then written (write_at_path f2 0 (protective_mbr l.total_lba) 512) 13 (λ f3. (f3, 0))
          else (f2, 0)

-- From the layout on.
unfoldable pub write_fresh :
    Fresh → (sector entries entry_size : ℕ) → (guid : Buf) → HostFile → HostFile × ℕ
write_fresh l sector entries entry_size guid f =
    if leb l.backup_ents_lba l.first_usable
    then (f, 7)
    else clear_loop l.ents_lba 0 l.backup_ents_lba sector
        (write_headers l sector (primary_header l entries entry_size guid)) f

abbrev pub or_128 : ℕ → ℕ
or_128 entries = if entries == 0 then 128 else entries

-- The error `-k` is k. The calls of `rand` are the parameter `rand`.
unfoldable pub gpt_init_fresh :
    (rand : ℕ → ℕ) → (sector entries entry_size : ℕ) → HostFile → HostFile × ℕ
gpt_init_fresh rand sector entries entry_size f =
    let bytes = host_get_size f in
    if not (sector == 512) && not (sector == 4096)
    then (f, 2)
    else if not (entry_size == 128)
    then (f, 3)
    else if ltb bytes (sector * 128)
    then (f, 5)
    else if not (bytes % sector == 0)
    then (f, 6)
    else write_fresh (fresh bytes sector (or_128 entries) entry_size) sector (or_128 entries)
        entry_size (rand_guid rand) f
