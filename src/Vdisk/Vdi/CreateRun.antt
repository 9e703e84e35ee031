-- ===== src/Vdisk/Vdi/CreateRun.antt =====
-- Runs of vdi_create_sparse, and of vdi_open on the file behind it (backend_vdi.c).
use guppy.Prelude.{
  ℕ, zero, suc, ◌+◌, ◌*◌, ◌/◌, ◌^◌, ◌≤◌, ◌<◌, ◌≡◌, inl, refl, ◌∙◌, Bool, true, false, some, arith,
  ltb,
}
use guppy.Word.{mul64}
use guppy.Buffer.{Buf, at}
use guppy.Host.{HostFile, host_get_size}
use guppy.Host.Laws.{Wrote, host_read-ok}
use guppy.Vdisk.{Vdisk, done, and_then}
use guppy.Vdisk.Vdi.{dynamic, unallocated, vdi_block_size, header_bytes}
use guppy.Vdisk.Vdi.Layout.{Layout, layout_for}
use guppy.Vdisk.Vdi.LayoutFits.{Fits, layout_for-Fits}
use guppy.Vdisk.Vdi.Header.{
  parse_header, init_header, read_header, header_ok, required, open_header, vdi_open,
}
use guppy.Vdisk.Vdi.HeaderParse.{new_header, parse_header-cong, parse_header-init_header}
use guppy.Vdisk.Vdi.Invariant.{IsDynamic, entry_at, used_below, guest}
use guppy.Vdisk.Vdi.Blocks.{div-lt}
use guppy.Vdisk.Vdi.NewMap.{new_entry, HasNewMap, write_map-ok}
use guppy.Vdisk.Vdi.Writes.{fp_write-ok}
use guppy.Vdisk.Vdi.Create.{created, write_metadata, vdi_create_sparse}

-- A file with the metadata of a new image.
pub record HasMetadata (f : HostFile) (image_type : ℕ) (is_fixed : Bool) (l : Layout) : Type 0 where
  pub covers : l.off_data ≤ f.size
  pub entries : (g : ℕ) → g < l.blocks → entry_at f l.off_blocks g ≡ new_entry is_fixed g
  pub header : parse_header (at f.byte 0) ≡ new_header image_type l

module _ (n image_type : ℕ) (is_fixed : Bool) (l : Layout) (seeds : ℕ × ℕ) (d : Vdisk)
    (f : Fits n l) (ht : image_type < 2 ^ 32) (room : l.off_data ≤ d.fp.room) where
  abbrev head : Buf
  head = init_header l.size_bytes image_type l.blocks l.off_blocks l.off_data d.create_uuid seeds

  size_small : l.size_bytes < 2 ^ 64
  size_small = omega (arith, f.blocks_hold, f.blocks_small)

  metadata-HasMetadata :
      (f1 f2 : HostFile)
      → Wrote d.fp f1 0 header_bytes head
      → HasNewMap f1 f2 is_fixed l.off_blocks l.blocks l.off_data
      → HasMetadata f2 image_type is_fixed l
  metadata-HasMetadata f1 f2 w m = record {
    covers = m.covers;
    entries = m.entries;
    header =
        parse_header-cong (at f2.byte 0) head (λ j hj.
          m.before (0 + j) (ground (arith, w.covers)) (omega (arith, f.map_start)) ∙ w.inside j hj)
        ∙ parse_header-init_header n image_type l d.create_uuid seeds ht f size_small;
  }

  -- The metadata is written where the host has room for it.
  pub write_metadata-ok :
      (f2 : HostFile) × (write_metadata l image_type is_fixed seeds d
        ≡ (record d { fp = f2 }, done))
      × HasMetadata f2 image_type is_fixed l
      × (f2.room ≡ d.fp.room)
  unfolding write_metadata
  write_metadata-ok =
      let (f1, e1, w1) =
        fp_write-ok 0 head header_bytes d (omega arith)
          (omega (arith, f.map_start, f.map_fits, f.blocks_pos)) in
      let (f2, e2, m) =
        write_map-ok is_fixed l.blocks l.off_blocks l.off_data (record d { fp = f1 }) f.blocks_pos
          f.blocks_small f.map_fits f.data_small (omega (arith, w1.same_room)) in
      (f2, rw e1 e2, metadata-HasMetadata f1 f2 w1 m, m.room ∙ w1.same_room)

open_at :
    (d : Vdisk) (h : Buf) → read_header d.fp ≡ some h → vdi_open d ≡ open_header d (parse_header h)
open_at d h e = unfold vdi_open in rw (e, vdi_open)

create_sparse_at :
    (n : ℕ) (seeds : ℕ × ℕ) (d : Vdisk) (l : Layout)
    → layout_for n ≡ some l
    → vdi_create_sparse n seeds d
      ≡ and_then
          (write_metadata l dynamic false seeds d)
          (λ _ d1. (created l dynamic l.off_data 0 d1, done))
create_sparse_at n seeds d l e = unfold vdi_create_sparse in rw (e, vdi_create_sparse)

-- The disk that a new sparse image is opened as.
abbrev pub new_sparse : Layout → HostFile → Vdisk → Vdisk
new_sparse l f d = created l dynamic l.off_data 0 (record d { fp = f })

none_used :
    (f : HostFile) (off n : ℕ)
    → ((g : ℕ) → g < n → entry_at f off g ≡ unallocated)
    → used_below f off n ≡ 0
none_used f off zero h = refl
none_used f off (suc n) h = rw (h n (omega arith), none_used f off n (λ g hg. h g (omega arith)))

module _ (n : ℕ) (l : Layout) (d : Vdisk) (f : HostFile) (fit : Fits n l)
    (m : HasMetadata f dynamic false l) where
  pub new_sparse-IsDynamic : IsDynamic (new_sparse l f d)
  new_sparse-IsDynamic = (
    record {
      type_is = refl;
      block_pos = omega arith;
      block_small = omega arith;
      count_small = fit.blocks_small;
      header_below = omega (arith, fit.map_start);
      map_below = fit.map_fits;
      data_end = omega (arith, fit.blocks_small, fit.data_small);
      size_fits = fit.blocks_hold;
      allocated_le = omega arith;
      filled = omega (arith, m.covers);
    },
    record {
      entries = λ g hg. inl (m.entries g hg);
      distinct = λ g h hg hh e full. absurd (full (m.entries g hg));
      used = none_used f l.off_blocks l.blocks m.entries;
    },
  )

  pub guest-new_sparse : (o : ℕ) → o < l.blocks * vdi_block_size → guest (new_sparse l f d) o ≡ 0
  unfolding guest
  guest-new_sparse o h = rw (m.entries (o / vdi_block_size) (div-lt o l.blocks vdi_block_size h))

  header_passes : header_ok (new_header dynamic l) ≡ true
  unfolding header_ok
  header_passes =
      let a : 0 < l.size_bytes = omega (arith, fit.blocks_least, fit.blocks_pos) in
      let b : l.off_blocks < l.off_data =
        omega (arith, fit.map_start, fit.map_fits, fit.blocks_pos) in
      let c : l.size_bytes ≤ mul64 l.blocks vdi_block_size =
        omega (arith, fit.blocks_hold, fit.blocks_small) in
      ground (arith, fit.blocks_pos, fit.map_start)

  required_passes : required (new_header dynamic l) ≡ some l.off_data
  unfolding required
  required_passes = ground (arith, fit.data_small)

  open_new_header :
      open_header (record d { fp = f }) (new_header dynamic l)
      ≡ (record (new_sparse l f d) { host_size_bytes = host_get_size f }, done)
  unfolding open_header host_get_size
  open_new_header =
      let c : ltb f.size l.off_data ≡ false = ground (arith, m.covers) in
      rw (header_passes, required_passes, c)

  pub open_new_sparse :
      vdi_open (record d { fp = f })
      ≡ (record (new_sparse l f d) { host_size_bytes = host_get_size f }, done)
  open_new_sparse =
      let h : header_bytes ≤ f.size = omega (arith, m.covers, fit.map_start, fit.map_fits) in
      open_at (record d { fp = f }) (at f.byte 0)
        (unfold read_header in host_read-ok f 0 header_bytes (omega arith) (omega arith))
      ∙ rw m.header open_new_header

-- `vdi_create_sparse` for `n` bytes, where `layout_for` gives a layout and the host has room for the
-- metadata, succeeds. The disk that it leaves keeps the invariant of a dynamic image, has at least
-- `n` bytes, and the guest reads zero everywhere. Opening the file afresh succeeds with the same
-- disk, up to the recorded size of the host file.
pub vdi_create_sparse-vdi_open :
    (n : ℕ) (seeds : ℕ × ℕ) (d : Vdisk) (l : Layout)
    → layout_for n ≡ some l
    → l.off_data ≤ d.fp.room
    → (d' : Vdisk) × (vdi_create_sparse n seeds d ≡ (d', done))
      × IsDynamic d'
      × (n ≤ d'.size_bytes)
      × ((o : ℕ) → o < d'.size_bytes → guest d' o ≡ 0)
      × (vdi_open (record d { fp = d'.fp })
          ≡ (record d' { host_size_bytes = host_get_size d'.fp }, done))
vdi_create_sparse-vdi_open n seeds d l e room =
    let fit = layout_for-Fits n e in
    let (f, eq, m, r) = write_metadata-ok n dynamic false l seeds d fit (omega arith) room in
    (
      new_sparse l f d,
      create_sparse_at n seeds d l e ∙ rw eq,
      new_sparse-IsDynamic n l d f fit m,
      fit.holds,
      λ o h. guest-new_sparse n l d f fit m o (omega (arith, fit.blocks_hold)),
      open_new_sparse n l d f fit m,
    )
