-- ===== src/Gpt/Layout.antt =====
-- Where the parts of a fresh table lie (src/gpt.c: gpt_init_fresh).
use guppy.Prelude.{ℕ, ◌+◌, ◌*◌, ◌/◌, ◌%◌, ◌^◌, ◌≤◌, ◌<◌, ◌≡◌, arith}
use guppy.Gpt.Init.{Fresh, fresh, align_up}

-- The parts of a table of `entries` entries on a disk of `bytes` bytes, without the wrap-around.
pub record IsExact (l : Fresh) (bytes entries : ℕ) : Type 0 where
  pub whole : (l.last_lba + 1) * 512 ≡ bytes
  pub counted : l.total_lba ≡ l.last_lba + 1
  pub array_holds : entries * 128 ≤ l.ents_lba * 512
  pub array_least : l.ents_lba * 512 < entries * 128 + 512
  pub aligned : l.first_usable % 2048 ≡ 0
  pub usable_behind : 2 + l.ents_lba ≤ l.first_usable
  pub usable_least : l.first_usable < 2 + l.ents_lba + 2048
  pub backup : l.backup_ents_lba + l.ents_lba ≡ l.last_lba

-- The arithmetic of a fresh table is exact where one array fits.
pub fresh-IsExact :
    (bytes entries : ℕ)
    → bytes % 512 ≡ 0
    → 65536 ≤ bytes
    → bytes < 2 ^ 63
    → entries < 2 ^ 32
    → entries * 128 + 1024 ≤ bytes
    → IsExact (fresh bytes 512 entries 128) bytes entries
unfolding fresh align_up
fresh-IsExact bytes entries hm hb hs he hr = record {
  whole = omega arith;
  counted = omega arith;
  array_holds = omega arith;
  array_least = omega arith;
  aligned = omega arith;
  usable_behind = omega arith;
  usable_least = omega arith;
  backup = omega arith;
}

-- The sectors 0 and 1, the first array, the backup array and the backup header, in this order, are
-- apart.
pub record IsLayout (l : Fresh) (bytes entries : ℕ) : Type 0 where
  pub exact : IsExact l bytes entries
  pub arrays_apart : 2 + l.ents_lba ≤ l.backup_ents_lba
  pub header_apart : l.backup_ents_lba + l.ents_lba ≤ l.last_lba
  pub within_disk : l.last_lba * 512 + 512 ≤ bytes

-- With sectors of 512 bytes, on a disk with room for the protective boot record, both headers and both
-- arrays, the layout is exact: the array holds the entries and is no sector longer than needed, the
-- usable part starts behind it at the next mebibyte, the backup array ends at the last sector, which
-- is that of the backup header, and the two arrays and the headers do not overlap.
pub fresh-IsLayout :
    (bytes entries : ℕ)
    → bytes % 512 ≡ 0
    → 65536 ≤ bytes
    → bytes < 2 ^ 63
    → entries < 2 ^ 32
    → 2 * ((entries * 128 + 511) / 512) + 3 ≤ bytes / 512
    → IsLayout (fresh bytes 512 entries 128) bytes entries
fresh-IsLayout bytes entries hm hb hs he hr =
    let e = fresh-IsExact bytes entries hm hb hs he (omega arith) in
    record {
      exact = e;
      arrays_apart = omega (arith, e.whole, e.array_holds, e.array_least, e.backup);
      header_apart = omega (arith, e.backup);
      within_disk = omega (arith, e.whole);
    }
