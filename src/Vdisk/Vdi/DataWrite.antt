-- ===== src/Vdisk/Vdi/DataWrite.antt =====
-- The write into an allocated block that ends a round of vdi_write (backend_vdi.c), and the guest's
-- bytes around it.
use guppy.Prelude.{
  ℕ, ◌+◌, ◌-◌, ◌*◌, ◌/◌, ◌%◌, ◌≤◌, ◌<◌, ◌≡◌, ◌≢◌, ◌⊎◌, inl, inr, sym, ap, ◌∙◌, false, arith, ◌==◌,
  if◌then◌else◌, Bool-cases, ne→==-false,
}
use native.Mathlib.Decide.{ℕ_discrete}
use guppy.Buffer.{Buf, within}
use guppy.Host.{HostFile}
use guppy.Host.Laws.{Wrote}
use guppy.Vdisk.{Vdisk}
use guppy.Vdisk.Vdi.{unallocated}
use guppy.Vdisk.Vdi.Blocks.{block_end, blocks_apart, div_mod, div_unique, div-lt}
use guppy.Vdisk.Vdi.Invariant.{
  IsLaidOut, IsMapped, IsDynamic, entry_of, place, guest, entry_at-beside, IsMapped-cong,
}

module _ (d : Vdisk) (l : IsLaidOut d) where
  -- The bytes of the map lie in the file, below the data.
  pub map_in_file : (g : ℕ) → g < d.blocks_count → d.blocks_offset + g * 4 + 4 ≤ d.data_offset
  map_in_file g h = omega (arith, l.map_below)

  -- A byte of an allocated block lies in the file.
  pub place-lt :
      (e r : ℕ)
      → e < d.blocks_allocated
      → r < d.block_size
      → place d e r < d.data_offset + d.blocks_allocated * d.block_size
  place-lt e r he hr = omega (arith, block_end d.block_size he)

  pub place_in_file :
      (e r : ℕ) → e < d.blocks_allocated → r < d.block_size → place d e r < d.fp.size
  place_in_file e r he hr = omega (arith, place-lt e r he hr, l.filled)

  -- Different blocks lie apart.
  pub place_apart :
      (e e' r ib n : ℕ)
      → e ≢ e'
      → r < d.block_size
      → ib + n ≤ d.block_size
      → (place d e' r < place d e ib) ⊎ (place d e ib + n ≤ place d e' r)
  place_apart e e' r ib n ne hr hn = elim (blocks_apart d.block_size e e' ne) [
    | inl h ↦ inr (omega arith)
    | inr h ↦ inl (omega arith)
  ]

module _ (d : Vdisk) (l : IsLaidOut d)
    (m : IsMapped d.fp d.blocks_offset d.blocks_count d.blocks_allocated) (g e ib n : ℕ) (src : Buf)
    (f' : HostFile) (hg : g < d.blocks_count) (he : entry_of d g ≡ e) (ha : e < d.blocks_allocated)
    (hn : ib + n ≤ d.block_size) (w : Wrote d.fp f' (place d e ib) n src) where
  abbrev after : Vdisk
  after = record d { fp = f' }

  same_entry : (h : ℕ) → h < d.blocks_count → entry_of after h ≡ entry_of d h
  same_entry h hh =
      entry_at-beside w d.blocks_offset h (omega (arith, map_in_file d l h hh, l.filled))
        (inl (omega (arith, map_in_file d l h hh)))

  pub data_write-IsDynamic : IsDynamic after
  data_write-IsDynamic = (
    record {
      type_is = l.type_is;
      block_pos = l.block_pos;
      block_small = l.block_small;
      count_small = l.count_small;
      header_below = l.header_below;
      map_below = l.map_below;
      data_end = l.data_end;
      size_fits = l.size_fits;
      allocated_le = l.allocated_le;
      filled = omega (arith, l.filled, w.grows);
    },
    IsMapped-cong d.fp f' d.blocks_offset d.blocks_count d.blocks_allocated same_entry m,
  )

  -- Within the block that is written.
  guest_same_block :
      (r : ℕ)
      → r < d.block_size
      → f'.byte (place d e r) ≡ (if within ib n r then src (r - ib) else d.fp.byte (place d e r))
  guest_same_block r hr = elim (Bool-cases (within ib n r)) [
    | inl i ↦
        let b : (ib ≤ r) × (r < ib + n) = ground arith in
        let p : place d e r ≡ place d e ib + (r - ib) = omega arith in
        rw i (ap f'.byte p ∙ w.inside (r - ib) (omega arith))
    | inr o ↦ rw o (w.outside (place d e r) (place_in_file d l e r ha hr) (ground arith))
  ]

  -- Positions in the block and positions of the guest.
  within_same_block :
      (o : ℕ)
      → o / d.block_size ≡ g
      → (within (g * d.block_size + ib) n o ≡ within ib n (o % d.block_size))
        × (o - (g * d.block_size + ib) ≡ o % d.block_size - ib)
  within_same_block o q =
      let p : o ≡ g * d.block_size + o % d.block_size =
        rw (← q) ((div_mod o d.block_size l.block_pos).0) in
      (ground arith, omega arith)

  within_other_block : (o : ℕ) → o / d.block_size ≢ g → within (g * d.block_size + ib) n o ≡ false
  within_other_block o ne = elim (Bool-cases (within (g * d.block_size + ib) n o)) [
    | inl i ↦
        let b : (g * d.block_size + ib ≤ o) × (o < g * d.block_size + ib + n) = ground arith in
        absurd
          (ne (div_unique g (o - g * d.block_size) d.block_size o (omega arith) (omega arith)).0)
    | inr f ↦ f
  ]

  -- The block of another entry.
  guest_other_block :
      (h r : ℕ)
      → h < d.blocks_count
      → h ≢ g
      → r < d.block_size
      → entry_of d h ≢ unallocated
      → f'.byte (place d (entry_of d h) r) ≡ d.fp.byte (place d (entry_of d h) r)
  guest_other_block h r hh ne hr full = elim (m.entries h hh) [
    | inl free ↦ absurd (full free)
    | inr low ↦ w.outside (place d (entry_of d h) r) (place_in_file d l (entry_of d h) r low hr) (
        place_apart d l e (entry_of d h) r ib n
          (λ q. ne (m.distinct h g hh hg (sym q ∙ sym he) full)) hr hn)
  ]

  -- The guest sees the bytes written, and elsewhere what it saw before.
  pub guest_data_write :
      (o : ℕ)
      → o < d.blocks_count * d.block_size
      → guest after o ≡ (
          if within (g * d.block_size + ib) n o
          then src (o - (g * d.block_size + ib))
          else guest d o)
  unfolding guest
  guest_data_write o ho = elim (ℕ_discrete (o / d.block_size) g) [
    | yes q ↦
        let full : (e == unallocated) ≡ false =
          ne→==-false e unallocated (omega (arith, l.allocated_le, l.count_small)) in
        rw (q, same_entry g hg, he, full, (within_same_block o q).0, (within_same_block o q).1)
          (guest_same_block (o % d.block_size) (div_mod o d.block_size l.block_pos).1)
    | no ne ↦
        rw
          (
            within_other_block o ne,
            same_entry (o / d.block_size) (div-lt o d.blocks_count d.block_size ho),
          )
          (ground (
            arith,
            guest_other_block (o / d.block_size) (o % d.block_size)
                (div-lt o d.blocks_count d.block_size ho) ne (div_mod o d.block_size l.block_pos).1,
          ))
  ]
