-- ===== src/Vdisk/Vdi/Invariant.antt =====
-- What holds of an open dynamic image between operations (backend_vdi.c), and the disk that the
-- guest sees through it.
use guppy.Prelude.{
  ℕ, zero, suc, ◌+◌, ◌*◌, ◌/◌, ◌%◌, ◌^◌, ◌≤◌, ◌<◌, ◌≡◌, ◌≢◌, ◌⊎◌, inl, inr, refl, sym, ap, ◌∙◌,
  arith, ◌==◌, map, if◌then◌else◌,
}
use native.Mathlib.Decide.{ℕ_discrete}
use guppy.Buffer.Words.{le32-cong}
use guppy.Buffer.{Buf, at, le32, bytes32, le32-bytes32}
use guppy.Host.{HostFile}
use guppy.Host.Laws.{Wrote}
use guppy.Vdisk.{Vdisk}
use guppy.Vdisk.Vdi.{dynamic, unallocated}

-- Entry `g` of a block map that stands at `off` in a file.
abbrev pub entry_at : HostFile → ℕ → ℕ → ℕ
entry_at f off g = le32 (at f.byte (off + g * 4))

-- How many of the first `n` entries are allocated.
abbrev pub used_below : HostFile → ℕ → ℕ → ℕ
used_below f off zero = 0
used_below f off (suc n) = (if entry_at f off n == unallocated then 0 else 1) + used_below f off n

-- Sizes and places: nothing wraps, and header, map and data do not overlap.
pub record IsLaidOut (d : Vdisk) : Type 0 where
  pub type_is : d.image_type ≡ dynamic
  pub block_pos : 0 < d.block_size
  pub block_small : d.block_size < 2 ^ 32
  pub count_small : d.blocks_count < 2 ^ 32
  pub header_below : 0x188 ≤ d.blocks_offset
  pub map_below : d.blocks_offset + d.blocks_count * 4 ≤ d.data_offset
  pub data_end : d.data_offset + d.blocks_count * d.block_size < 2 ^ 63
  pub size_fits : d.size_bytes ≤ d.blocks_count * d.block_size
  pub allocated_le : d.blocks_allocated ≤ d.blocks_count
  pub filled : d.data_offset + d.blocks_allocated * d.block_size ≤ d.fp.size

-- The map: every entry is free or names an allocated block, no block is named twice, and the
-- allocated blocks are counted.
pub record IsMapped (f : HostFile) (off count allocated : ℕ) : Type 0 where
  pub entries :
      (g : ℕ) → g < count → (entry_at f off g ≡ unallocated) ⊎ (entry_at f off g < allocated)
  pub distinct :
      (g h : ℕ)
      → g < count
      → h < count
      → entry_at f off g ≡ entry_at f off h
      → entry_at f off g ≢ unallocated
      → g ≡ h
  pub used : used_below f off count ≡ allocated

abbrev pub IsDynamic : Vdisk → Type 0
IsDynamic d = IsLaidOut d × IsMapped d.fp d.blocks_offset d.blocks_count d.blocks_allocated

abbrev pub entry_of : Vdisk → ℕ → ℕ
entry_of d = entry_at d.fp d.blocks_offset

-- Where the byte `r` of the block that entry `e` names stands in the file.
abbrev pub place : Vdisk → ℕ → ℕ → ℕ
place d e r = d.data_offset + e * d.block_size + r

-- Byte `o` of the disk that the guest sees.
unfoldable pub guest : Vdisk → ℕ → ℕ
guest d o =
    if entry_of d (o / d.block_size) == unallocated
    then 0
    else d.fp.byte (place d (entry_of d (o / d.block_size)) (o % d.block_size))

module _ {f f' : HostFile} {off n : ℕ} {buf : Buf} (w : Wrote f f' off n buf) where
  -- A write beside an entry leaves it.
  pub entry_at-beside :
      (map g : ℕ)
      → map + g * 4 + 4 ≤ f.size
      → (map + g * 4 + 4 ≤ off) ⊎ (off + n ≤ map + g * 4)
      → entry_at f' map g ≡ entry_at f map g
  entry_at-beside map g h (inl b) =
      le32-cong _ _ (λ i hi. w.outside (map + g * 4 + i) (omega arith) (inl (omega arith)))
  entry_at-beside map g h (inr b) =
      le32-cong _ _ (λ i hi. w.outside (map + g * 4 + i) (omega arith) (inr (omega arith)))

-- A write of an entry sets it.
pub entry_at-set :
    {f f' : HostFile} (map g v : ℕ)
    → v < 2 ^ 32
    → Wrote f f' (map + g * 4) 4 (bytes32 v)
    → entry_at f' map g ≡ v
entry_at-set map g v h w = le32-cong _ (bytes32 v) w.inside ∙ le32-bytes32 v h

-- The count depends on the entries alone.
pub used_below-cong :
    (f f' : HostFile) (off n : ℕ)
    → ((g : ℕ) → g < n → entry_at f' off g ≡ entry_at f off g)
    → used_below f' off n ≡ used_below f off n
used_below-cong f f' off zero h = refl
used_below-cong f f' off (suc n) h =
    rw (h n (omega arith), used_below-cong f f' off n (λ g hg. h g (omega arith)))

pub used_below-le : (f : HostFile) (off n : ℕ) → used_below f off n ≤ n
used_below-le f off zero = omega arith
used_below-le f off (suc n) = ground (arith, used_below-le f off n)

-- Where an entry is free, fewer blocks are used than there are.
pub used_below-lt :
    (f : HostFile) (off n g : ℕ) → g < n → entry_at f off g ≡ unallocated → used_below f off n < n
used_below-lt f off zero g h e = absurd (omega arith)
used_below-lt f off (suc n) g h e = elim (ℕ_discrete g n) [
  | yes p ↦
      let e' : entry_at f off n ≡ unallocated = ap (entry_at f off) (sym p) ∙ e in
      ground (arith, used_below-le f off n)
  | no q ↦ ground (arith, used_below-lt f off n g (omega arith) e)
]

-- Setting a free entry counts one more.
pub used_below-set :
    (f f' : HostFile) (off n g : ℕ)
    → g < n
    → entry_at f off g ≡ unallocated
    → entry_at f' off g ≢ unallocated
    → ((h : ℕ) → h < n → h ≢ g → entry_at f' off h ≡ entry_at f off h)
    → used_below f' off n ≡ used_below f off n + 1
used_below-set f f' off zero g l e e' same = absurd (omega arith)
used_below-set f f' off (suc n) g l e e' same = elim (ℕ_discrete g n) [
  | yes p ↦
      let a : entry_at f off n ≡ unallocated = ap (entry_at f off) (sym p) ∙ e in
      let b : entry_at f' off n ≢ unallocated = λ q. e' (ap (entry_at f' off) p ∙ q) in
      let c : used_below f' off n ≡ used_below f off n =
        used_below-cong f f' off n (λ h hh. same h (omega arith) (omega arith)) in
      ground arith
  | no q ↦
      let c : entry_at f' off n ≡ entry_at f off n = same n (omega arith) (λ r. q (sym r)) in
      let ih : used_below f' off n ≡ used_below f off n + 1 =
        used_below-set f f' off n g (omega arith) e e' (λ h hh. same h (omega arith)) in
      rw c (omega arith)
]

-- Entries that agree give the map its properties.
pub IsMapped-cong :
    (f f' : HostFile) (off count allocated : ℕ)
    → ((g : ℕ) → g < count → entry_at f' off g ≡ entry_at f off g)
    → IsMapped f off count allocated
    → IsMapped f' off count allocated
IsMapped-cong f f' off count allocated same m = record {
  entries = λ g hg. rw (same g hg) (m.entries g hg);
  distinct = λ g h hg hh. rw (same g hg, same h hh) (m.distinct g h hg hh);
  used = used_below-cong f f' off count same ∙ m.used;
}
