-- ===== src/Vdisk/Vdi/Create.antt =====
-- New images (backend_vdi.c: vdi_create_fixed, vdi_create_sparse).
use guppy.Prelude.{ℕ, ◌-◌, Bool, true, false, none, some, ltb, if◌then◌else◌}
use guppy.Word.{u64_max, add64}
use guppy.Buffer.{zeros}
use guppy.Host.{host_seek}
use guppy.Vdisk.{Vdisk, done, M, and_then, fp_write}
use guppy.Vdisk.Vdi.{dynamic, fixed, vdi_block_size, header_bytes}
use guppy.Vdisk.Vdi.Layout.{Layout, layout_for}
use guppy.Vdisk.Vdi.Header.{init_header}
use guppy.Vdisk.Vdi.Map.{write_map}

-- The fields that both functions set at their end.
abbrev pub created : Layout → (image_type host_size allocated : ℕ) → Vdisk → Vdisk
created l image_type host_size allocated d = record d {
  size_bytes = l.size_bytes;
  host_size_bytes = host_size;
  data_offset = l.off_data;
  block_size = vdi_block_size;
  block_extra = 0;
  blocks_offset = l.off_blocks;
  blocks_count = l.blocks;
  blocks_allocated = allocated;
  image_type = image_type;
}

-- The header and the map, which both functions write first.
unfoldable pub write_metadata : Layout → ℕ → Bool → ℕ × ℕ → M (Unit {0})
write_metadata l image_type is_fixed seeds d =
    let h =
      init_header l.size_bytes image_type l.blocks l.off_blocks l.off_data d.create_uuid seeds in
    and_then (fp_write 0 h header_bytes d) λ _. write_map l.blocks l.off_blocks l.off_data is_fixed

-- `vdisk_host_seek(d->fp, last)` and `fputc(0, d->fp)`
unfoldable pub extend_to : ℕ → M (Unit {0})
extend_to last d = if host_seek d.fp last then fp_write last zeros 1 d else (d, none)

unfoldable pub vdi_create_fixed : ℕ → ℕ × ℕ → M (Unit {0})
unfolding layout_for write_metadata extend_to
vdi_create_fixed n seeds d = elim (layout_for n) [
  | none ↦ (d, none)
  | some l ↦
      let host_size = add64 l.off_data l.size_bytes in
      let written = and_then (write_metadata l fixed true seeds d) λ _ d1.
        and_then (extend_to (host_size - 1) d1)
          λ _ d2. (created l fixed host_size l.blocks d2, done) in
      if ltb (u64_max - l.off_data) l.size_bytes then (d, none) else written
]

unfoldable pub vdi_create_sparse : ℕ → ℕ × ℕ → M (Unit {0})
unfolding layout_for write_metadata
vdi_create_sparse n seeds d = elim (layout_for n) [
  | none ↦ (d, none)
  | some l ↦
      and_then (write_metadata l dynamic false seeds d)
        λ _ d1. (created l dynamic l.off_data 0 d1, done)
]
