-- ===== src/Vdisk/Vdi/AllocateRun.antt =====
-- Runs of allocate_block (backend_vdi.c).
use guppy.Prelude.{
  ℕ, ◌+◌, ◌-◌, ◌*◌, ◌/◌, ◌^◌, ◌≤◌, ◌<◌, ◌≡◌, sym, ◌∙◌, false, some, arith, ltb, leb,
}
use mathlib.Core.Path.{subst₂}
use native.Mathlib.Nat.{le-div_iff_mul-le}
use guppy.Word.{u32, u64_max}
use guppy.Buffer.{zeros, bytes32}
use guppy.Host.{HostFile}
use guppy.Host.Laws.{Wrote}
use guppy.Vdisk.{Vdisk, done}
use guppy.Vdisk.Vdi.{unallocated}
use guppy.Vdisk.Vdi.Blocks.{block_end}
use guppy.Vdisk.Vdi.Map.{
  host_offset, map_set, update_allocated, write_zeros, allocate_steps, allocate_block,
}
use guppy.Vdisk.Vdi.Invariant.{IsLaidOut, IsMapped, entry_of}
use guppy.Vdisk.Vdi.Allocate.{allocated, Steps, allocated-lt}
use guppy.Vdisk.Vdi.Writes.{fp_write-ok, fp_write64-ok, write_zeros-ok}

-- The host can let the file grow to all blocks.
abbrev pub HasRoom : Vdisk → Type 0
HasRoom d = d.data_offset + d.blocks_count * d.block_size ≤ d.fp.room

module _ (d : Vdisk) (l : IsLaidOut d) (e : ℕ) (he : e < d.blocks_count) where
  block_in_range : d.data_offset + (e * d.block_size + d.block_size) < 2 ^ 63
  block_in_range = omega (arith, block_end d.block_size he, l.data_end)

  pub host_offset_lem : host_offset d e ≡ d.data_offset + e * d.block_size
  unfolding host_offset
  host_offset_lem = omega (arith, block_in_range)

module _ (d : Vdisk) (l : IsLaidOut d)
    (m : IsMapped d.fp d.blocks_offset d.blocks_count d.blocks_allocated) (g : ℕ)
    (hg : g < d.blocks_count) (free : entry_of d g ≡ unallocated) (r : HasRoom d) where
  below : d.blocks_allocated < d.blocks_count
  below = allocated-lt d l m g hg free

  guard_passes : ltb ((u64_max - d.data_offset) / d.block_size) d.blocks_allocated ≡ false
  guard_passes =
      let h : d.blocks_allocated ≤ (u64_max - d.data_offset) / d.block_size =
        (le-div_iff_mul-le l.block_pos).1
          (omega (arith, block_in_range d l d.blocks_allocated below)) in
      ground arith

  guard_count : leb d.blocks_count d.blocks_allocated ≡ false
  guard_count = let h = below in ground arith

  map_set-ok :
      (f1 : HostFile)
      → d.fp.room ≡ f1.room
      → (f : HostFile) × (map_set g d.blocks_allocated (record d { fp = f1 })
          ≡ (record d { fp = f }, done))
        × Wrote f1 f (d.blocks_offset + g * 4) 4 (bytes32 d.blocks_allocated)
  unfolding map_set
  map_set-ok f1 room =
      let (f, e, w) =
        fp_write64-ok d.blocks_offset (g * 4) (bytes32 d.blocks_allocated) 4 (record d { fp = f1 })
          (omega (arith, l.map_below, l.data_end)) (omega (arith, l.map_below, l.data_end)) in
      let c : leb d.blocks_count g ≡ false = ground arith in (f, rw c e, w)

  zeros-ok :
      (f : HostFile) × (write_zeros 65536
          (host_offset d d.blocks_allocated)
          d.block_size
          (d.block_size + 1)
          0
          d
        ≡ (record d { fp = f }, done))
      × Wrote d.fp f (d.data_offset + d.blocks_allocated * d.block_size) d.block_size zeros
  zeros-ok =
      let base = d.data_offset + d.blocks_allocated * d.block_size in
      let range = block_in_range d l d.blocks_allocated below in
      let (f, e, w) =
        write_zeros-ok 65536 base d.block_size (d.block_size + 1) 0 d (omega arith)
          (omega (arith, range)) (omega (arith, block_end d.block_size below)) (omega arith)
          (omega arith) in
      let e' : base + 0 ≡ base = omega arith in
      let e'' : d.block_size - 0 ≡ d.block_size = omega arith in
      (
        f,
        rw (host_offset_lem d l d.blocks_allocated below) e,
        subst₂ (λ a b. Wrote d.fp f a b zeros) e' e'' w,
      )

  count-ok :
      (f2 : HostFile)
      → d.fp.room ≡ f2.room
      → (f : HostFile) × (update_allocated
            (record d { fp = f2; blocks_allocated = u32 (d.blocks_allocated + 1) })
          ≡ (record d { fp = f; blocks_allocated = u32 (d.blocks_allocated + 1) }, done))
        × Wrote f2 f 0x184 4 (bytes32 (u32 (d.blocks_allocated + 1)))
  unfolding update_allocated
  count-ok f2 room =
      fp_write-ok 0x184 (bytes32 (u32 (d.blocks_allocated + 1))) 4
        (record d { fp = f2; blocks_allocated = u32 (d.blocks_allocated + 1) }) (omega arith)
        (omega (arith, l.header_below, l.map_below))

  -- The allocation of a free entry's block succeeds, by the three writes.
  pub allocate_block-ok :
      (f : HostFile) × (allocate_block g d ≡ (allocated d f, some d.blocks_allocated)) × Steps d g f
  unfolding allocate_block allocate_steps
  allocate_block-ok =
      let (f1, e1, w1) = zeros-ok in
      let (f2, e2, w2) = map_set-ok f1 (sym w1.same_room) in
      let (f, e3, w3) = count-ok f2 (sym (w2.same_room ∙ w1.same_room)) in
      (
        f,
        rw (guard_count, guard_passes, e1, e2, e3),
        record { f1 = f1; f2 = f2; w1 = w1; w2 = w2; w3 = w3 },
      )
