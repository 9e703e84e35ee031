-- ===== src/Vdisk/Vdi/Blocks.antt =====
-- Arithmetic of positions in blocks of `b` bytes.
use guppy.Prelude.{ℕ, ◌+◌, ◌*◌, ◌/◌, ◌%◌, ◌≤◌, ◌<◌, ◌≡◌, ◌≢◌, ◌⊎◌, ap, arith}
use native.Mathlib.Nat.{div-eq_of_lt-le}

pub block_end : (b : ℕ) {e a : ℕ} → e < a → e * b + b ≤ a * b
block_end b h = grind arith

pub blocks_apart : (b e f : ℕ) → e ≢ f → (e * b + b ≤ f * b) ⊎ (f * b + b ≤ e * b)
blocks_apart b e f h = grind (arith, block_end)

pub div_mod : (o b : ℕ) → 0 < b → (o ≡ o / b * b + o % b) × (o % b < b)
div_mod o b h = (omega arith, omega arith)

pub div_unique : (g r b o : ℕ) → o ≡ g * b + r → r < b → (o / b ≡ g) × (o % b ≡ r)
div_unique g r b o e h = (q, omega (arith, m.0, ap (λ (t : ℕ). t * b) q))
  where
    q : o / b ≡ g
    q = div-eq_of_lt-le b (omega arith) (omega arith)

    m : (o ≡ o / b * b + o % b) × (o % b < b)
    m = div_mod o b (omega arith)

pub div-lt : (o c b : ℕ) → o < c * b → o / b < c
div-lt o c b h = grind (arith, div_mod o b, block_end)
