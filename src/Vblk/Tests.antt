-- ===== src/Vblk/Tests.antt =====
-- A small table of devices (src/vblk.c).
use mathlib.Core.Option
use guppy.Prelude.{
  ℕ, ◌+◌, ◌<◌, ◌≡◌, ◌≢◌, inl, refl, true, false, none, some, arith, List, [], ◌∷◌, if◌then◌else◌,
}
use guppy.Ascii.{Bytes, codes, same, is_digit}
use guppy.Vblk.{
  Vblk, cleared, has_name, vblk_by_name, put_named, put_free, vblk_register, suffix_of, only_digits,
  is_child, remove_loop, vblk_remove_children,
}
use guppy.Buffer.{Buf, zeros, le32}
use guppy.Host.{host_read, host_seek}
use guppy.Vdisk.{Vdisk}
use guppy.Vdisk.Vdi.{dynamic}
use guppy.Vdisk.Vdi.Invariant.{IsDynamic}
use guppy.Vdisk.Vdi.WriteRun.{Written}
use guppy.Diskio.{
  World, MapEntry, vdisk_vdi_driver, map_find, diskio_resolve, file_pread, diskio_pread,
  diskio_pwrite, diskio_detach,
}
use guppy.Vblk.Io.{vblk_backing_key, vblk_write_bytes, vblk_read_blocks, vblk_write_blocks}
use guppy.Vblk.Reads.{vblk_read_blocks-Fills, vblk_read_blocks-vblk_write_blocks}
use guppy.Vdisk.Vdi.ReadRun.{Fills}
use guppy.Vblk.Slice.{Partition, Confined, vblk_write_blocks-Confined}
use guppy.Vblk.Open.{first_match, vblk_open, IsKey, vblk_open-IsKey}
use guppy.Vblk.Stores.{Holds, vblk_write_blocks-Stores}
use guppy.Vblk.Table.{Registered, vblk_register-Registered}
use guppy.Vblk.Children.{used, vblk_remove_children-lookup}

abbrev device : Bytes → ℕ → Vblk
device name start = record cleared { name = name; lba_start = start; lba_size = 8 }

abbrev table : List Vblk
table = device (codes "a") 0 ∷ device (codes "a1") 2048 ∷ device (codes "b1") 4096 ∷ []

-- The slot of "a1" is free after the children of "a" are removed, and is taken again.
remove_then_register :
    vblk_register (some (device (codes "c") 0)) (vblk_remove_children (some (codes "a")) table).0
    ≡ (device (codes "a") 0 ∷ device (codes "c") 0 ∷ device (codes "b1") 4096 ∷ [], some 1)
unfolding vblk_register vblk_remove_children remove_loop is_child suffix_of only_digits is_digit
    put_named put_free has_name same
remove_then_register = refl

register_example :
    Registered table (device (codes "b1") 9) (vblk_register (some (device (codes "b1") 9)) table)
register_example = vblk_register-Registered table (device (codes "b1") 9) refl

remove_example :
    ((name : Bytes)
      → vblk_by_name (vblk_remove_children (some (codes "a")) table).0 name
        ≡ (if is_child (codes "a") name then none else vblk_by_name table name))
    × (used (vblk_remove_children (some (codes "a")) table).0
          + (vblk_remove_children (some (codes "a")) table).1
        ≡ used table)
remove_example = vblk_remove_children-lookup (codes "a") table refl

-- An image of two blocks of 1024 bytes, none of them allocated; every byte of its file is 0xFF.
abbrev image : Vdisk
image = record {
  fp = record { size = 1024; room = 4096; byte = λ i. 255 };
  size_bytes = 2048;
  data_offset = 1024;
  host_size_bytes = 1024;
  block_size = 1024;
  block_extra = 0;
  blocks_offset = 512;
  blocks_count = 2;
  blocks_allocated = 0;
  image_type = dynamic;
  writable = true;
  create_uuid = none;
}

abbrev image_entry : MapEntry
image_entry = record {
  key = codes "/dev/a";
  path = codes "a.vdi";
  file = codes "a.vdi";
  driver = vdisk_vdi_driver;
  disk = image;
}

-- The image is attached as "/dev/a", and "b.img" is a file that is not.
abbrev world : World
world = record {
  g_map = image_entry ∷ [];
  files = λ p.
      if same p (codes "a.vdi")
      then some image.fp
      else if same p (codes "b.img")
      then some (record { size = 4; room = 8; byte = λ i. i })
      else none;
}

image-IsDynamic : IsDynamic image
unfolding le32
image-IsDynamic = (
  omega arith,
  record {
    entries = λ g h. inl refl;
    distinct = λ g h hg hh e full. absurd (full refl);
    used = refl;
  },
)

-- A name that is not attached is a path, unless it begins with "/dev/".
read_file : Option.map (λ (b : Buf). b 1) (diskio_pread world (codes "b.img") 2 zeros 2) ≡ some 3
unfolding diskio_pread map_find same diskio_resolve file_pread host_read host_seek suffix_of
read_file = refl

write_unmapped : diskio_pwrite world (codes "/dev/b") 0 zeros 2 ≡ (world, false)
unfolding diskio_pwrite map_find same diskio_resolve suffix_of
write_unmapped = refl

detached : (diskio_detach world (codes "/dev/a")).0.g_map ≡ []
unfolding diskio_detach map_find same
detached = refl

-- The partition "a1", with two sectors at 1.
abbrev partition : Vblk
partition = record (device (codes "a1") 1) { dev = codes "/dev/a"; lba_size = 2 }

partition-Partition : Partition partition
partition-Partition = record { sized = omega arith; low = omega arith }

partition-Holds : Holds partition world image
unfolding map_find same vblk_backing_key
partition-Holds = record {
  under_key = record { entry = image_entry; found = refl; with_vdi = refl; is_disk = refl };
  dynamic = image-IsDynamic;
  room = omega arith;
  writable = refl;
  inside = omega arith;
}

vblk_write_blocks-Confined_example :
    Confined partition world (vblk_write_blocks partition 1 2 (λ i. 7) world).0
    × Confined partition world (vblk_write_bytes partition 1000 24 (λ i. 7) world).0
vblk_write_blocks-Confined_example =
    vblk_write_blocks-Confined partition 1 2 1000 24 (λ i. 7) world partition-Partition

-- The two blocks meet both blocks of the image.
vblk_write_blocks-Stores_example :
    (w' : World) × (d' : Vdisk) × (vblk_write_blocks partition 0 2 (λ i. 7) world ≡ (w', true))
    × Holds partition w' d'
    × Written image d' 512 1024 (λ i. 7)
    × Confined partition world w'
vblk_write_blocks-Stores_example =
    vblk_write_blocks-Stores partition 0 2 (λ i. 7) world image partition-Partition refl
      partition-Holds (ground arith) (omega arith) (omega arith)

vblk_read_blocks-Fills_example :
    Fills image 512 zeros 0 1024 (vblk_read_blocks partition 0 2 zeros world)
vblk_read_blocks-Fills_example =
    vblk_read_blocks-Fills partition 0 2 zeros world image partition-Partition partition-Holds
      (ground arith) (omega arith) (omega arith)

vblk_read_blocks-vblk_write_blocks_example :
    (w' : World) × (dst' : Buf) × (vblk_write_blocks partition 0 2 (λ i. i) world ≡ (w', true))
    × (vblk_read_blocks partition 0 2 zeros w' ≡ some dst')
    × ((i : ℕ) → i < 1024 → dst' i ≡ i)
vblk_read_blocks-vblk_write_blocks_example =
    vblk_read_blocks-vblk_write_blocks partition 0 2 (λ i. i) zeros world image partition-Partition
      refl partition-Holds (ground arith) (omega arith) (omega arith)

open_a1 : vblk_open (some (codes "/dev/a1")) table ≡ some (device (codes "a1") 2048)
unfolding vblk_open first_match suffix_of same
open_a1 = refl

vblk_open_example :
    IsKey (codes "/dev/a1") (device (codes "a1") 2048) × ((device (codes "a1") 2048).lba_size ≢ 0)
vblk_open_example = vblk_open-IsKey (codes "/dev/a1") table (device (codes "a1") 2048) open_a1
