-- ===== src/Vdisk/Vdi/Tests.antt =====
-- Runs of the VDI backend on a small dynamic image, and the theorems at it.
use guppy.Prelude.{ℕ, ◌+◌, ◌≤◌, ◌<◌, ◌≡◌, inl, refl, true, none, some, arith}
use mathlib.Core.Option
use guppy.Buffer.{Buf, le32, bytes32}
use guppy.Host.{host_get_size, host_read, host_write}
use guppy.Vdisk.{Vdisk, done, fp_read, fp_write}
use guppy.Vdisk.Vdi.{dynamic}
use guppy.Vdisk.Vdi.Invariant.{IsDynamic, guest}
use guppy.Vdisk.Vdi.Io.{vdi_read, vdi_write}
use guppy.Vdisk.Vdi.Map.{
  allocate_steps, allocate_block, map_get, map_set, write_zeros, update_allocated,
}
use guppy.Vdisk.Vdi.Layout.{Layout, layout_for}
use guppy.Vdisk.Vdi.LayoutFits.{Fits, layout_for-Fits}
use guppy.Vdisk.Vdi.WriteRun.{Writes}
use guppy.Vdisk.Vdi.WriteLoop.{vdi_write-Writes}
use guppy.Vdisk.Vdi.ReadRun.{Fills, vdi_read-Fills, vdi_read-vdi_write}
use guppy.Vdisk.Vdi.Create.{vdi_create_sparse}
use guppy.Vdisk.Vdi.CreateRun.{vdi_create_sparse-vdi_open}
use guppy.Vdisk.Vdi.Header.{vdi_open}

-- Three blocks of four bytes, none of them allocated; every byte of the file is 0xFF.
abbrev small_disk : Vdisk
small_disk = record {
  fp = record { size = 404; room = 500; byte = λ _. 255 };
  size_bytes = 11;
  data_offset = 404;
  host_size_bytes = 404;
  block_size = 4;
  block_extra = 0;
  blocks_offset = 392;
  blocks_count = 3;
  blocks_allocated = 0;
  image_type = dynamic;
  writable = true;
  create_uuid = none;
}

small_disk-IsDynamic : IsDynamic small_disk
unfolding le32
small_disk-IsDynamic = (
  omega arith,
  record {
    entries = λ g h. inl refl;
    distinct = λ g h hg hh e full. absurd (full refl);
    used = refl;
  },
)

abbrev counting : Buf
counting i = i + 1

-- Six bytes from offset 3 touch all three blocks.
write_small : (vdi_write 3 counting 6 small_disk).0.blocks_allocated ≡ 3
unfolding vdi_write allocate_block map_get map_set write_zeros update_allocated fp_write host_write
    le32 host_read allocate_steps
write_small = refl

read_small :
    Option.map (λ (b : Buf). b 2) (vdi_read (vdi_write 3 counting 6 small_disk).0 6 counting 3)
    ≡ some 6
unfolding vdi_write allocate_block map_get map_set write_zeros update_allocated fp_write host_write
    le32 vdi_read fp_read host_read allocate_steps bytes32
read_small = refl

write_past_end : vdi_write 3 counting 9 small_disk ≡ (small_disk, none)
unfolding vdi_write
write_past_end = refl

vdi_write-Writes_example : Writes small_disk 3 6 counting (vdi_write 3 counting 6 small_disk)
vdi_write-Writes_example =
    vdi_write-Writes small_disk 3 counting 6 small_disk-IsDynamic (omega arith) refl (omega arith)

vdi_read-Fills_example : Fills small_disk 3 counting 0 6 (vdi_read small_disk 3 counting 6)
vdi_read-Fills_example = vdi_read-Fills small_disk 3 counting 6 small_disk-IsDynamic (omega arith)

vdi_read-vdi_write_example :
    (d' : Vdisk) × (out' : Buf) × (vdi_write 3 counting 6 small_disk ≡ (d', done))
    × (vdi_read d' 3 counting 6 ≡ some out')
    × ((i : ℕ) → i < 6 → out' i ≡ counting i)
vdi_read-vdi_write_example =
    vdi_read-vdi_write small_disk 3 counting counting 6 small_disk-IsDynamic (omega arith) refl
      (omega arith)

abbrev small_layout : Layout
small_layout = record { size_bytes = 1536; blocks = 1; off_blocks = 512; off_data = 1024 }

layout_for_small : layout_for 1025 ≡ some small_layout
unfolding layout_for
layout_for_small = refl

layout_for-Fits_example : Fits 1025 small_layout
layout_for-Fits_example = layout_for-Fits 1025 layout_for_small

abbrev fresh_disk : Vdisk
fresh_disk = record small_disk { fp = record { size = 0; room = 5000; byte = λ _. 0 } }

vdi_create_sparse-vdi_open_example :
    (d' : Vdisk) × (vdi_create_sparse 1025 (1, 2) fresh_disk ≡ (d', done))
    × IsDynamic d'
    × (1025 ≤ d'.size_bytes)
    × ((o : ℕ) → o < d'.size_bytes → guest d' o ≡ 0)
    × (vdi_open (record fresh_disk { fp = d'.fp })
        ≡ (record d' { host_size_bytes = host_get_size d'.fp }, done))
vdi_create_sparse-vdi_open_example =
    vdi_create_sparse-vdi_open 1025 (1, 2) fresh_disk small_layout layout_for_small (omega arith)
