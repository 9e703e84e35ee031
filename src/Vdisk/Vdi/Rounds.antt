-- ===== src/Vdisk/Vdi/Rounds.antt =====
-- The place and the length of one round of vdi_read and vdi_write (backend_vdi.c).
use guppy.Prelude.{ℕ, ◌+◌, ◌*◌, ◌/◌, ◌%◌, ◌≤◌, ◌<◌, ◌≡◌, ◌∙◌, sym, ap, arith}
use guppy.Word.{add64, u32}
use guppy.Vdisk.{Vdisk}
use guppy.Vdisk.Vdi.Blocks.{div_mod, div-lt}
use guppy.Vdisk.Vdi.Invariant.{IsLaidOut}
use guppy.Vdisk.Vdi.Io.{step_length}

abbrev pub round_block : Vdisk → ℕ → ℕ
round_block d off = u32 (off / d.block_size)

abbrev pub round_start : Vdisk → ℕ → ℕ
round_start d off = u32 (off % d.block_size)

abbrev pub round_length : Vdisk → ℕ → ℕ → ℕ
round_length d off len = step_length d (round_start d off) len

-- A round stays in one block of the disk, and is not empty.
pub record IsRound (d : Vdisk) (off len : ℕ) : Type 0 where
  pub block : round_block d off ≡ off / d.block_size
  pub start : round_start d off ≡ off % d.block_size
  pub block-lt : round_block d off < d.blocks_count
  pub place : round_block d off * d.block_size + round_start d off ≡ off
  pub in_block : round_start d off + round_length d off len ≤ d.block_size
  pub positive : 0 < round_length d off len
  pub within_len : round_length d off len ≤ len
  pub next : add64 off (round_length d off len) ≡ off + round_length d off len

module _ (d : Vdisk) (l : IsLaidOut d) (off len : ℕ) (h : off + len ≤ d.size_bytes)
    (p : 0 < len) where
  quotient-lt : off / d.block_size < d.blocks_count
  quotient-lt = div-lt off d.blocks_count d.block_size (omega (arith, l.size_fits))

  block_eq : round_block d off ≡ off / d.block_size
  block_eq = omega (arith, quotient-lt, l.count_small)

  start_eq : round_start d off ≡ off % d.block_size
  start_eq = omega (arith, (div_mod off d.block_size l.block_pos).1, l.block_small)

  length_bounds :
      (round_start d off + round_length d off len ≤ d.block_size)
      × (0 < round_length d off len)
      × (round_length d off len ≤ len)
  length_bounds =
      let s : round_start d off < d.block_size =
        omega (arith, start_eq, (div_mod off d.block_size l.block_pos).1) in
      bounds (round_start d off) s
    where
      bounds :
          (ib : ℕ)
          → ib < d.block_size
          → (ib + step_length d ib len ≤ d.block_size)
            × (0 < step_length d ib len)
            × (step_length d ib len ≤ len)
      bounds ib s = ground arith

  pub step_length-IsRound : IsRound d off len
  step_length-IsRound = record {
    block = block_eq;
    start = start_eq;
    block-lt = omega (arith, block_eq, quotient-lt);
    place =
        ap (λ (t : ℕ). t * d.block_size + round_start d off) block_eq
        ∙ ap (λ (t : ℕ). off / d.block_size * d.block_size + t) start_eq
        ∙ sym (div_mod off d.block_size l.block_pos).0;
    in_block = length_bounds.0;
    positive = length_bounds.1;
    within_len = length_bounds.2;
    next = omega (arith, length_bounds.2, l.size_fits, l.data_end);
  }
