-- ===== src/Vdisk/Vdi/Allocate.antt =====
-- The three writes of allocate_block (backend_vdi.c): the map and the guest's bytes behind them.
use guppy.Prelude.{
  ℕ, ◌+◌, ◌*◌, ◌/◌, ◌%◌, ◌≤◌, ◌<◌, ◌≡◌, ◌≢◌, ◌⊎◌, inl, inr, sym, ap, ◌∙◌, false, arith, ◌==◌,
  if◌then◌else◌, ne→==-false,
}
use native.Mathlib.Decide.{ℕ_discrete}
use guppy.Word.{add64, mul64, u32}
use guppy.Buffer.{zeros, bytes32}
use guppy.Host.{HostFile}
use guppy.Host.Laws.{Wrote}
use guppy.Vdisk.{Vdisk}
use guppy.Vdisk.Vdi.{unallocated}
use guppy.Vdisk.Vdi.Blocks.{div_mod, div-lt}
use guppy.Vdisk.Vdi.Invariant.{
  IsLaidOut, IsMapped, entry_at, entry_of, place, guest, entry_at-beside, entry_at-set,
  used_below-lt, used_below-set,
}
use guppy.Vdisk.Vdi.DataWrite.{map_in_file, place-lt, place_in_file}

-- The disk after an allocation, over the file that it leaves.
abbrev pub allocated : Vdisk → HostFile → Vdisk
allocated d f = record d {
  fp = f;
  blocks_allocated = u32 (d.blocks_allocated + 1);
  host_size_bytes = add64 d.data_offset (mul64 (u32 (d.blocks_allocated + 1)) d.block_size);
}

-- The three writes: zeros in the new block, its map entry, the count in the header.
pub record Steps (d : Vdisk) (g : ℕ) (f : HostFile) : Type 0 where
  pub f1 : HostFile
  pub f2 : HostFile
  pub w1 : Wrote d.fp f1 (d.data_offset + d.blocks_allocated * d.block_size) d.block_size zeros
  pub w2 : Wrote f1 f2 (d.blocks_offset + g * 4) 4 (bytes32 d.blocks_allocated)
  pub w3 : Wrote f2 f 0x184 4 (bytes32 (u32 (d.blocks_allocated + 1)))

module _ (d : Vdisk) (l : IsLaidOut d)
    (m : IsMapped d.fp d.blocks_offset d.blocks_count d.blocks_allocated) (g : ℕ)
    (hg : g < d.blocks_count) (free : entry_of d g ≡ unallocated) where
  pub allocated-lt : d.blocks_allocated < d.blocks_count
  allocated-lt = omega (arith, m.used, used_below-lt d.fp d.blocks_offset d.blocks_count g hg free)

  pub no_wrap : u32 (d.blocks_allocated + 1) ≡ d.blocks_allocated + 1
  no_wrap = omega (arith, allocated-lt, l.count_small)

  module _ (f : HostFile) (s : Steps d g f) where
    pub same_room : f.room ≡ d.fp.room
    same_room = s.w3.same_room ∙ s.w2.same_room ∙ s.w1.same_room

    sizes : (d.fp.size ≤ s.f1.size) × (s.f1.size ≤ s.f2.size) × (s.f2.size ≤ f.size)
    sizes = (s.w1.grows, s.w2.grows, s.w3.grows)

    -- The other entries stay.
    entry_other : (h : ℕ) → h < d.blocks_count → h ≢ g → entry_at f d.blocks_offset h ≡ entry_of d h
    entry_other h hh ne =
        entry_at-beside s.w3 d.blocks_offset h
          (omega (arith, map_in_file d l h hh, l.filled, sizes))
          (inr (omega (arith, l.header_below)))
        ∙ entry_at-beside s.w2 d.blocks_offset h
            (omega (arith, map_in_file d l h hh, l.filled, sizes)) (ground arith)
        ∙ entry_at-beside s.w1 d.blocks_offset h (omega (arith, map_in_file d l h hh, l.filled))
            (inl (omega (arith, map_in_file d l h hh)))

    pub entry_new : entry_at f d.blocks_offset g ≡ d.blocks_allocated
    entry_new =
        entry_at-beside s.w3 d.blocks_offset g
          (omega (arith, map_in_file d l g hg, l.filled, sizes))
          (inr (omega (arith, l.header_below)))
        ∙ entry_at-set d.blocks_offset g d.blocks_allocated
            (omega (arith, allocated-lt, l.count_small)) s.w2

    -- A byte of the data that was in the file, or is in the new block.
    byte_above : (j : ℕ) → d.data_offset ≤ j → j < s.f1.size → f.byte j ≡ s.f1.byte j
    byte_above j hj hs =
        s.w3.outside j (omega (arith, sizes))
          (inr (omega (arith, map_in_file d l g hg, l.header_below)))
        ∙ s.w2.outside j hs (inr (omega (arith, map_in_file d l g hg)))

    byte_old :
        (e r : ℕ)
        → e < d.blocks_allocated
        → r < d.block_size
        → f.byte (place d e r) ≡ d.fp.byte (place d e r)
    byte_old e r he hr =
        byte_above (place d e r) (omega arith) (omega (arith, place_in_file d l e r he hr, sizes))
        ∙ s.w1.outside (place d e r) (place_in_file d l e r he hr)
            (inl (omega (arith, place-lt d l e r he hr)))

    byte_new : (r : ℕ) → r < d.block_size → f.byte (place d d.blocks_allocated r) ≡ 0
    byte_new r hr =
        byte_above (place d d.blocks_allocated r) (omega arith) (ground (arith, s.w1.covers))
        ∙ s.w1.inside r hr

    new_block_in_file : d.data_offset + (d.blocks_allocated + 1) * d.block_size ≤ f.size
    new_block_in_file = elim s.w1.covers [
      | inl c ↦ omega (arith, c, sizes)
      | inr z ↦ absurd (omega (arith, z, l.block_pos))
    ]

    pub IsLaidOut-allocated : IsLaidOut (allocated d f)
    IsLaidOut-allocated = record {
      type_is = l.type_is;
      block_pos = l.block_pos;
      block_small = l.block_small;
      count_small = l.count_small;
      header_below = l.header_below;
      map_below = l.map_below;
      data_end = l.data_end;
      size_fits = l.size_fits;
      allocated_le = rw no_wrap (omega (arith, allocated-lt));
      filled = rw no_wrap new_block_in_file;
    }

    new_full : entry_at f d.blocks_offset g ≢ unallocated
    new_full = omega (arith, entry_new, allocated-lt, l.count_small)

    entries_allocated :
        (h : ℕ)
        → h < d.blocks_count
        → (entry_at f d.blocks_offset h ≡ unallocated)
          ⊎ (entry_at f d.blocks_offset h < d.blocks_allocated + 1)
    entries_allocated h hh = elim (ℕ_discrete h g) [
      | yes p ↦ inr (rw p (omega (arith, entry_new)))
      | no ne ↦ rw (entry_other h hh ne) (ground (arith, m.entries h hh))
    ]

    -- No other entry names the new block.
    entry_fresh :
        (h : ℕ) → h < d.blocks_count → h ≢ g → entry_at f d.blocks_offset h ≢ d.blocks_allocated
    entry_fresh h hh ne = rw (entry_other h hh ne) (elim (m.entries h hh) [
      | inl e ↦ omega (arith, e, allocated-lt, l.count_small)
      | inr lt ↦ omega (arith, lt)
    ])

    distinct_allocated :
        (h k : ℕ)
        → h < d.blocks_count
        → k < d.blocks_count
        → entry_at f d.blocks_offset h ≡ entry_at f d.blocks_offset k
        → entry_at f d.blocks_offset h ≢ unallocated
        → h ≡ k
    distinct_allocated h k hh hk e full = elim (ℕ_discrete h g) [
      | yes p ↦ elim (ℕ_discrete k g) [
        | yes q ↦ p ∙ sym q
        | no ne ↦
            absurd (entry_fresh k hk ne (sym e ∙ ap (entry_at f d.blocks_offset) p ∙ entry_new))
      ]
      | no ne ↦ elim (ℕ_discrete k g) [
        | yes q ↦ absurd (entry_fresh h hh ne (e ∙ ap (entry_at f d.blocks_offset) q ∙ entry_new))
        | no ne' ↦
            m.distinct h k hh hk (sym (entry_other h hh ne) ∙ e ∙ entry_other k hk ne')
              (λ z. full (entry_other h hh ne ∙ z))
      ]
    ]

    pub IsMapped-allocated :
        IsMapped f d.blocks_offset d.blocks_count (u32 (d.blocks_allocated + 1))
    IsMapped-allocated = rw no_wrap (record {
      entries = entries_allocated;
      distinct = distinct_allocated;
      used =
          used_below-set d.fp f d.blocks_offset d.blocks_count g hg free new_full entry_other
          ∙ ap (λ (t : ℕ). t + 1) m.used;
    })

    -- The guest sees what it saw.
    pub guest-allocated :
        (o : ℕ) → o < d.blocks_count * d.block_size → guest (allocated d f) o ≡ guest d o
    unfolding guest
    guest-allocated o ho = elim (ℕ_discrete (o / d.block_size) g) [
      | yes q ↦
          let full : (d.blocks_allocated == unallocated) ≡ false =
            ne→==-false _ _ (omega (arith, allocated-lt, l.count_small)) in
          rw (q, entry_new, free, full)
            (byte_new (o % d.block_size) (div_mod o d.block_size l.block_pos).1)
      | no ne ↦ rw (entry_other (o / d.block_size) (div-lt o d.blocks_count d.block_size ho) ne) (
          other (o / d.block_size) (div-lt o d.blocks_count d.block_size ho)
            (div_mod o d.block_size l.block_pos).1)
    ]
      where
        other :
            (h : ℕ)
            → h < d.blocks_count
            → o % d.block_size < d.block_size
            → (if entry_of d h == unallocated
                then 0
                else f.byte (place d (entry_of d h) (o % d.block_size)))
              ≡ (if entry_of d h == unallocated
                  then 0
                  else d.fp.byte (place d (entry_of d h) (o % d.block_size)))
        other h hh hr = elim (m.entries h hh) [
          | inl e ↦ rw e
          | inr low ↦ rw (byte_old (entry_of d h) (o % d.block_size) low hr)
        ]
