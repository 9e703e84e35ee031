-- ===== src/Buffer/Words.antt =====
-- Little-endian words in a buffer, as what stands at an offset.
use native.Mathlib.Decide.{dec_lt}
use guppy.Prelude.{
  ℕ, zero, suc, ◌+◌, ◌-◌, ◌/◌, ◌%◌, ◌^◌, ◌≤◌, ◌<◌, ◌≡◌, ◌⊎◌, inl, sym, ap, ◌∙◌, arith,
}
use guppy.Buffer.{Buf, at, blit, le32, le64, bytes32, put32, put64, le32-bytes32}

pub le32-cong : (p q : Buf) → ((i : ℕ) → i < 4 → p i ≡ q i) → le32 p ≡ le32 q
unfolding le32
le32-cong p q h =
    omega (arith, h 0 (omega arith), h 1 (omega arith), h 2 (omega arith), h 3 (omega arith))

-- The four bytes at `k` are `v`.
abbrev pub Word32 : Buf → (k v : ℕ) → Type 0
Word32 p k v = (i : ℕ) → i < 4 → p (k + i) ≡ bytes32 v i

-- The eight bytes at `k` are `v`.
abbrev pub Word64 : Buf → (k v : ℕ) → Type 0
Word64 p k v = Word32 p k (v % 2 ^ 32) × Word32 p (k + 4) (v / 2 ^ 32 % 2 ^ 32)

-- The same `n` bytes at `k`.
abbrev pub Same : Buf → Buf → (k n : ℕ) → Type 0
Same p q k n = (j : ℕ) → k ≤ j → j < k + n → q j ≡ p j

pub le32-Word32 : (p : Buf) (k v : ℕ) → Word32 p k v → v < 2 ^ 32 → le32 (at p k) ≡ v
le32-Word32 p k v h hv = le32-cong (at p k) (bytes32 v) h ∙ le32-bytes32 v hv

pub le64-Word64 : (p : Buf) (k v : ℕ) → Word64 p k v → v < 2 ^ 64 → le64 (at p k) ≡ v
unfolding le64
le64-Word64 p k v h hv =
    let lo = le32-Word32 p k (v % 2 ^ 32) h.0 (omega arith) in
    let hi =
      le32-cong (at (at p k) 4) (bytes32 (v / 2 ^ 32 % 2 ^ 32))
        (λ i hi. ap p (omega arith) ∙ h.1 i hi)
      ∙ le32-bytes32 (v / 2 ^ 32 % 2 ^ 32) (omega arith) in
    omega (arith, lo, hi)

pub Word32-Same : (p q : Buf) (k v : ℕ) → Same p q k 4 → Word32 p k v → Word32 q k v
Word32-Same p q k v e h i hi = e (k + i) (omega arith) (omega arith) ∙ h i hi

pub Word64-Same : (p q : Buf) (k v : ℕ) → Same p q k 8 → Word64 p k v → Word64 q k v
Word64-Same p q k v e h = (
  Word32-Same p q k (v % 2 ^ 32) (λ j lo hi. e j lo (omega arith)) h.0,
  Word32-Same p q (k + 4) (v / 2 ^ 32 % 2 ^ 32) (λ j lo hi. e j (omega arith) (omega arith)) h.1,
)

pub blit-inside : (p q : Buf) (k n i : ℕ) → i < n → blit p k n q (k + i) ≡ q i
blit-inside p q k n i h = let e : k + i - k ≡ i = omega arith in rw e (ground arith)

pub blit-outside : (p q : Buf) (k n j : ℕ) → (j < k) ⊎ (k + n ≤ j) → blit p k n q j ≡ p j
blit-outside p q k n j h = ground arith

pub put32-Word32 : (p : Buf) (k v : ℕ) → Word32 (put32 p k v) k v
unfolding put32
put32-Word32 p k v i hi = blit-inside p (bytes32 v) k 4 i hi

pub put32-outside : (p : Buf) (k v j : ℕ) → (j < k) ⊎ (k + 4 ≤ j) → put32 p k v j ≡ p j
unfolding put32
put32-outside p k v j h = blit-outside p (bytes32 v) k 4 j h

pub put64-outside : (p : Buf) (k v j : ℕ) → (j < k) ⊎ (k + 8 ≤ j) → put64 p k v j ≡ p j
unfolding put64
put64-outside p k v j h =
    put32-outside (put32 p k (v % 2 ^ 32)) (k + 4) (v / 2 ^ 32 % 2 ^ 32) j (ground arith)
    ∙ put32-outside p k (v % 2 ^ 32) j (ground arith)

pub put64-Word64 : (p : Buf) (k v : ℕ) → Word64 (put64 p k v) k v
unfolding put64
put64-Word64 p k v = (
  Word32-Same (put32 p k (v % 2 ^ 32)) _ k (v % 2 ^ 32)
      (λ j lo hi.
        put32-outside (put32 p k (v % 2 ^ 32)) (k + 4) (v / 2 ^ 32 % 2 ^ 32) j (inl (omega arith)))
      (put32-Word32 p k (v % 2 ^ 32)),
  put32-Word32 (put32 p k (v % 2 ^ 32)) (k + 4) (v / 2 ^ 32 % 2 ^ 32),
)

pub le64-cong : (p q : Buf) → ((i : ℕ) → i < 8 → p i ≡ q i) → le64 p ≡ le64 q
unfolding le64
le64-cong p q h = omega (
  arith,
  le32-cong p q (λ i hi. h i (omega arith)),
  le32-cong (at p 4) (at q 4) (λ i hi. h (4 + i) (omega arith)),
)

-- A word at `m` of what stands at `k`.
pub le32-at : (p : Buf) (k m v : ℕ) → Word32 p (k + m) v → v < 2 ^ 32 → le32 (at (at p k) m) ≡ v
le32-at p k m v h hv =
    le32-cong (at (at p k) m) (at p (k + m)) (λ i hi. ap p (omega arith))
    ∙ le32-Word32 p (k + m) v h hv

pub le64-at : (p : Buf) (k m v : ℕ) → Word64 p (k + m) v → v < 2 ^ 64 → le64 (at (at p k) m) ≡ v
le64-at p k m v h hv =
    le64-cong (at (at p k) m) (at p (k + m)) (λ i hi. ap p (omega arith))
    ∙ le64-Word64 p (k + m) v h hv

-- Bytes one by one.
pub by_four :
    (p q : Buf) → p 0 ≡ q 0 → p 1 ≡ q 1 → p 2 ≡ q 2 → p 3 ≡ q 3 → (i : ℕ) → i < 4 → p i ≡ q i
by_four p q e0 e1 e2 e3 zero h = e0
by_four p q e0 e1 e2 e3 (suc zero) h = e1
by_four p q e0 e1 e2 e3 (suc (suc zero)) h = e2
by_four p q e0 e1 e2 e3 (suc (suc (suc zero))) h = e3
by_four p q e0 e1 e2 e3 (suc (suc (suc (suc n)))) h = absurd (omega arith)

pub by_eight :
    (p q : Buf)
    → ((i : ℕ) → i < 4 → p i ≡ q i)
    → ((i : ℕ) → i < 4 → p (4 + i) ≡ q (4 + i))
    → (i : ℕ) → i < 8
    → p i ≡ q i
by_eight p q lo hi i h = elim (dec_lt i 4) [
  | yes a ↦ lo i a
  | no a ↦ let e : 4 + (i - 4) ≡ i = omega arith in ap p (sym e) ∙ hi (i - 4) (omega arith) ∙ ap q e
]
