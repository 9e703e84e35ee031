-- ===== src/Diskio/Vdi.antt =====
-- A dynamic VDI image under a key (src/diskio.c, lib/vdisk/src/backend_vdi.c).
use guppy.Prelude.{ℕ, ◌≡◌, refl, true, some}
use guppy.Ascii.{Bytes, same_refl}
use guppy.Buffer.{Buf}
use guppy.Vdisk.{Vdisk, done}
use guppy.Vdisk.Vdi.Io.{vdi_read, vdi_write}
use guppy.Diskio.{
  World, MapEntry, vdisk_vdi_driver, disk_of, map_find, put_back, diskio_pread, diskio_pwrite,
}
use guppy.Diskio.Frame.{map_find-put_disk}

-- The key is that of an entry with the VDI driver, whose disk is now `d`.
pub record OnVdi (w : World) (key : Bytes) (d : Vdisk) : Type 0 where
  pub entry : MapEntry
  pub found : map_find w.g_map key ≡ some entry
  pub with_vdi : entry.driver ≡ vdisk_vdi_driver
  pub is_disk : disk_of w entry ≡ d

-- A write is one of the backend, and the disk under the key is then what the backend leaves.
pub diskio_pwrite-OnVdi :
    (w : World) (key : Bytes) (off : ℕ) (src : Buf) (len : ℕ) (d d' : Vdisk)
    → OnVdi w key d
    → vdi_write off src len d ≡ (d', done)
    → (w' : World) × (diskio_pwrite w key off src len ≡ (w', true)) × OnVdi w' key d'
unfolding diskio_pwrite
diskio_pwrite-OnVdi w key off src len d d' v h =
    let e = v.entry in
    (
      (put_back w key e.file (d', done)).0,
      rw (v.found, v.with_vdi, v.is_disk, h) refl,
      record {
        entry = record e { disk = d' };
        found = rw (map_find-put_disk w.g_map key d', v.found) refl;
        with_vdi = v.with_vdi;
        is_disk = rw (same_refl e.file) refl;
      },
    )

-- A read is one of the backend.
pub diskio_pread-OnVdi :
    (w : World) (key : Bytes) (off : ℕ) (dst : Buf) (len : ℕ) (d : Vdisk)
    → OnVdi w key d
    → diskio_pread w key off dst len ≡ vdi_read d off dst len
unfolding diskio_pread
diskio_pread-OnVdi w key off dst len d v = rw (v.found, v.with_vdi, v.is_disk) refl
