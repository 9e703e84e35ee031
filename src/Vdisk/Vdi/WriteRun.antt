-- ===== src/Vdisk/Vdi/WriteRun.antt =====
-- One round of vdi_write (backend_vdi.c) over a dynamic image.
use guppy.Prelude.{
  ℕ, ◌+◌, ◌-◌, ◌*◌, ◌≤◌, ◌<◌, ◌≡◌, inl, inr, refl, ◌∙◌, false, some, arith, ◌==◌, if◌then◌else◌,
  leb, ne→==-false,
}
use guppy.Word.{add64}
use guppy.Buffer.{Buf, within}
use guppy.Host.{HostFile}
use guppy.Host.Laws.{Wrote, host_read-ok}
use guppy.Vdisk.{Vdisk, Status, done, fp_write, fp_read, and_then}
use guppy.Vdisk.Vdi.Blocks.{block_end}
use guppy.Vdisk.Vdi.Map.{map_get, host_offset}
use guppy.Vdisk.Vdi.{unallocated}
use guppy.Vdisk.Vdi.Io.{writable_entry, write_round}
use guppy.Vdisk.Vdi.Allocate.{
  allocated, Steps, no_wrap, same_room, entry_new, IsLaidOut-allocated, IsMapped-allocated,
  guest-allocated,
}
use guppy.Vdisk.Vdi.AllocateRun.{allocate_block-ok}
use guppy.Vdisk.Vdi.Invariant.{IsLaidOut, IsDynamic, entry_of, place, guest}
use guppy.Vdisk.Vdi.DataWrite.{map_in_file, data_write-IsDynamic, guest_data_write}
use guppy.Vdisk.Vdi.AllocateRun.{HasRoom, host_offset_lem}
use guppy.Vdisk.Vdi.Writes.{fp_write64-ok}

-- What an operation on the guest's bytes leaves alone.
pub record SameShape (d d' : Vdisk) : Type 0 where
  pub size_bytes : d'.size_bytes ≡ d.size_bytes
  pub data_offset : d'.data_offset ≡ d.data_offset
  pub block_size : d'.block_size ≡ d.block_size
  pub blocks_count : d'.blocks_count ≡ d.blocks_count
  pub room : d'.fp.room ≡ d.fp.room
  pub writable : d'.writable ≡ d.writable
  pub image_type : d'.image_type ≡ d.image_type

-- `d'` is `d` after the guest's `n` bytes from `off` on became those of `src`.
pub record Written (d d' : Vdisk) (off n : ℕ) (src : Buf) : Type 0 where
  pub valid : IsDynamic d'
  pub shape : SameShape d d'
  pub bytes :
      (o : ℕ)
      → o < d.blocks_count * d.block_size
      → guest d' o ≡ (if within off n o then src (o - off) else guest d o)

pub map_get_lem :
    (d : Vdisk) (l : IsLaidOut d) (g : ℕ) → g < d.blocks_count → map_get d g ≡ some (entry_of d g)
unfolding map_get fp_read
map_get_lem d l g hg =
    let c : leb d.blocks_count g ≡ false = ground arith in
    let e : add64 d.blocks_offset (g * 4) ≡ d.blocks_offset + g * 4 =
      omega (arith, map_in_file d l g hg, l.data_end) in
    rw (
      c,
      e,
      host_read-ok d.fp (d.blocks_offset + g * 4) 4
          (omega (arith, map_in_file d l g hg, l.data_end))
          (omega (arith, map_in_file d l g hg, l.filled)),
    )

-- The data write of a round, once the entry is allocated.
module _ (d : Vdisk) (v : IsDynamic d) (g e ib n : ℕ) (src : Buf) (hg : g < d.blocks_count)
    (he : entry_of d g ≡ e) (ha : e < d.blocks_allocated) (hn : ib + n ≤ d.block_size)
    (r : HasRoom d) where
  round_data :
      (f : HostFile) × (fp_write (add64 (host_offset d e) ib) src n d ≡ (record d { fp = f }, done))
      × Wrote d.fp f (place d e ib) n src
  round_data =
      let h : e < d.blocks_count = omega (arith, v.0.allocated_le) in
      rw (host_offset_lem d v.0 e h) (
        fp_write64-ok (d.data_offset + e * d.block_size) ib src n d
          (omega (arith, block_end d.block_size h, v.0.data_end))
          (omega (arith, block_end d.block_size h)))

  round_data-Written :
      (d' : Vdisk) × (fp_write (add64 (host_offset d e) ib) src n d ≡ (d', done))
      × Written d d' (g * d.block_size + ib) n src
  round_data-Written =
      let (f, eq, w) = round_data in
      (
        record d { fp = f },
        eq,
        record {
          valid = data_write-IsDynamic d v.0 v.1 g e ib n src f hg he ha hn w;
          shape = record {
            size_bytes = refl;
            data_offset = refl;
            block_size = refl;
            blocks_count = refl;
            room = w.same_room;
            writable = refl;
            image_type = refl;
          };
          bytes = guest_data_write d v.0 v.1 g e ib n src f hg he ha hn w;
        },
      )

-- A run of a command that writes the guest's bytes and succeeds.
abbrev pub Writes : Vdisk → ℕ → ℕ → Buf → Vdisk × Status → Type 0
Writes d off n src r = (d' : Vdisk) × (r ≡ (d', done)) × Written d d' off n src

Written-allocated :
    (d : Vdisk) (v : IsDynamic d) (g : ℕ) (hg : g < d.blocks_count)
    (free : entry_of d g ≡ unallocated) (f : HostFile) (s : Steps d g f) {d' : Vdisk} (off n : ℕ)
    (src : Buf)
    → Written (allocated d f) d' off n src
    → Written d d' off n src
Written-allocated d v g hg free f s off n src w = record {
  valid = w.valid;
  shape = record {
    size_bytes = w.shape.size_bytes;
    data_offset = w.shape.data_offset;
    block_size = w.shape.block_size;
    blocks_count = w.shape.blocks_count;
    room = w.shape.room ∙ same_room d v.0 v.1 g hg free f s;
    writable = w.shape.writable;
    image_type = w.shape.image_type;
  };
  bytes = λ o ho. rw (← guest-allocated d v.0 v.1 g hg free f s o ho) (w.bytes o ho);
}

write_round-entry :
    (d : Vdisk) (g ib n : ℕ) (src : Buf) (e : ℕ)
    → map_get d g ≡ some e
    → write_round g ib n src d
      ≡ and_then
          (writable_entry g e d)
          (λ entry d1. fp_write (add64 (host_offset d1 entry) ib) src n d1)
unfolding write_round
write_round-entry d g ib n src e h = rw (h, write_round)

module _ (d : Vdisk) (v : IsDynamic d) (g ib n : ℕ) (src : Buf) (hg : g < d.blocks_count)
    (hn : ib + n ≤ d.block_size) (r : HasRoom d) where
  -- A round of the loop over a free entry.
  round_free :
      entry_of d g ≡ unallocated → Writes d (g * d.block_size + ib) n src (write_round g ib n src d)
  unfolding writable_entry
  round_free free =
      let (f, e, s) = allocate_block-ok d v.0 v.1 g hg free r in
      let v1 : IsDynamic (allocated d f) =
        (IsLaidOut-allocated d v.0 v.1 g hg free f s, IsMapped-allocated d v.0 v.1 g hg free f s) in
      let (d', e', w) =
        round_data-Written (allocated d f) v1 g d.blocks_allocated ib n src hg
          (entry_new d v.0 v.1 g hg free f s) (omega (arith, no_wrap d v.0 v.1 g hg free)) hn
          (omega (arith, same_room d v.0 v.1 g hg free f s)) in
      (
        d',
        rw (write_round-entry d g ib n src _ (map_get_lem d v.0 g hg), free, e) e',
        Written-allocated d v g hg free f s (g * d.block_size + ib) n src w,
      )

  -- A round of the loop over an allocated entry.
  round_full :
      entry_of d g < d.blocks_allocated
      → Writes d (g * d.block_size + ib) n src (write_round g ib n src d)
  unfolding writable_entry
  round_full low =
      let (d', e', w) = round_data-Written d v g (entry_of d g) ib n src hg refl low hn r in
      let full : (entry_of d g == unallocated) ≡ false =
        ne→==-false _ _ (omega (arith, v.0.allocated_le, v.0.count_small)) in
      let c : leb d.blocks_allocated (entry_of d g) ≡ false = ground arith in
      (d', rw (write_round-entry d g ib n src _ (map_get_lem d v.0 g hg), full, c) e', w)

  pub write_round-Writes : Writes d (g * d.block_size + ib) n src (write_round g ib n src d)
  write_round-Writes = elim (v.1.entries g hg) [
    | inl free ↦ round_free free
    | inr low ↦ round_full low
  ]
