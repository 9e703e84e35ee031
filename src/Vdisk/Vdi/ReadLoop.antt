-- ===== src/Vdisk/Vdi/ReadLoop.antt =====
-- One round of vdi_read (backend_vdi.c) over a dynamic image.
use guppy.Prelude.{
  ℕ, ◌+◌, ◌*◌, ◌^◌, ◌≤◌, ◌<◌, ◌≡◌, inl, inr, refl, false, Option, some, arith, ◌==◌, if◌then◌else◌,
  leb, ne→==-false,
}
use native.Mathlib.Nat.{add_assoc}
use guppy.Word.{add64}
use guppy.Buffer.{Buf, at, zeros}
use guppy.Host.Laws.{host_read-ok}
use guppy.Vdisk.{Vdisk, fp_read}
use guppy.Vdisk.Vdi.{unallocated}
use guppy.Vdisk.Vdi.Blocks.{block_end, div_unique}
use guppy.Vdisk.Vdi.Invariant.{IsDynamic, guest, entry_of, place}
use guppy.Vdisk.Vdi.AllocateRun.{host_offset_lem}
use guppy.Vdisk.Vdi.Map.{host_offset}
use guppy.Vdisk.Vdi.Io.{read_step}

-- A read that gives the guest's `n` bytes from `off` on.
pub record Reads (d : Vdisk) (off n : ℕ) (r : Option Buf) : Type 0 where
  pub src : Buf
  pub ok : r ≡ some src
  pub bytes : (i : ℕ) → i < n → src i ≡ guest d (off + i)

-- The guest's byte behind a position in a block.
guest_in_block :
    (d : Vdisk) (g r : ℕ)
    → r < d.block_size
    → guest d (g * d.block_size + r)
      ≡ (if entry_of d g == unallocated then 0 else d.fp.byte (place d (entry_of d g) r))
unfolding guest
guest_in_block d g r h =
    let u = div_unique g r d.block_size (g * d.block_size + r) refl h in rw (u.0, u.1)

module _ (d : Vdisk) (v : IsDynamic d) (g ib n : ℕ) (hg : g < d.blocks_count)
    (hn : ib + n ≤ d.block_size) (p : 0 < n) where
  step_free :
      entry_of d g ≡ unallocated
      → Reads d (g * d.block_size + ib) n (read_step d (entry_of d g) ib n)
  unfolding read_step
  step_free free = record {
    src = zeros;
    ok = rw free;
    bytes = λ i h.
        rw (add_assoc (g * d.block_size) ib i, guest_in_block d g (ib + i) (omega arith), free);
  }

  read_in_file :
      (e : ℕ)
      → e < d.blocks_allocated
      → fp_read (add64 (host_offset d e) ib) n d ≡ some (at d.fp.byte (place d e ib))
  unfolding fp_read
  read_in_file e h =
      let c : e < d.blocks_count = omega (arith, v.0.allocated_le) in
      let b : d.data_offset + e * d.block_size + ib + n < 2 ^ 63 =
        omega (arith, block_end d.block_size c, v.0.data_end) in
      let a : add64 (d.data_offset + e * d.block_size) ib ≡ place d e ib = omega arith in
      rw (
        host_offset_lem d v.0 e c,
        a,
        host_read-ok d.fp (place d e ib) n (omega arith)
            (omega (arith, block_end d.block_size h, v.0.filled)),
      )

  step_full :
      entry_of d g < d.blocks_allocated
      → Reads d (g * d.block_size + ib) n (read_step d (entry_of d g) ib n)
  unfolding read_step
  step_full low = record {
    src = at d.fp.byte (place d (entry_of d g) ib);
    ok = rw (full, c, read_in_file (entry_of d g) low);
    bytes = λ i h. rw (
      add_assoc (g * d.block_size) ib i,
      guest_in_block d g (ib + i) (omega arith),
      full,
      add_assoc (d.data_offset + entry_of d g * d.block_size) ib i,
    );
  }
    where
      full : (entry_of d g == unallocated) ≡ false
      full = ne→==-false _ _ (omega (arith, v.0.allocated_le, v.0.count_small))

      c : leb d.blocks_allocated (entry_of d g) ≡ false
      c = ground arith

  pub read_step-Reads : Reads d (g * d.block_size + ib) n (read_step d (entry_of d g) ib n)
  read_step-Reads = elim (v.1.entries g hg) [ inl free ↦ step_free free | inr low ↦ step_full low ]
