-- ===== src/Gpt/Clear.antt =====
-- The loop of gpt_init_fresh (src/gpt.c) that clears both arrays, with sectors of 512 bytes.
use native.Mathlib.Decide.{dec_lt}
use guppy.Prelude.{
  ℕ, zero, suc, ◌+◌, ◌-◌, ◌*◌, ◌^◌, ◌≤◌, ◌<◌, ◌≡◌, ◌⊎◌, inl, inr, refl, sym, ap, ◌∙◌, true, arith,
}
use guppy.Word.{add64, mul64}
use guppy.Buffer.{zeros}
use guppy.Host.{HostFile}
use guppy.Image.InPlace.{InPlace, write_at_path-InPlace}
use guppy.Image.{write_at_path}
use guppy.Gpt.Init.{clear_loop}

-- `g` is `f` with zeros in the two runs of `left` sectors at `p` and at `b`.
pub record Cleared (f g : HostFile) (p b left : ℕ) : Type 0 where
  pub same_size : g.size ≡ f.size
  pub same_room : g.room ≡ f.room
  pub first : (j : ℕ) → p * 512 ≤ j → j < (p + left) * 512 → g.byte j ≡ 0
  pub second : (j : ℕ) → b * 512 ≤ j → j < (b + left) * 512 → g.byte j ≡ 0
  pub kept :
      (j : ℕ)
      → j < f.size
      → (j < p * 512) ⊎ ((p + left) * 512 ≤ j)
      → (j < b * 512) ⊎ ((b + left) * 512 ≤ j)
      → g.byte j ≡ f.byte j
  pub stays_zero : (j : ℕ) → j < f.size → f.byte j ≡ 0 → g.byte j ≡ 0

Cleared-suc :
    (f f1 f2 g : HostFile) (p b p' b' left : ℕ)
    → p' ≡ p + 1
    → b' ≡ b + 1
    → p + suc left ≤ b
    → (b + suc left) * 512 ≤ f.size
    → InPlace f f1 (p * 512) 512 zeros
    → InPlace f1 f2 (b * 512) 512 zeros
    → Cleared f2 g p' b' left
    → Cleared f g p b (suc left)
Cleared-suc f f1 f2 g p b p' b' left ep eb hp hb w1 w2 c = record {
  same_size = c.same_size ∙ size2;
  same_room = c.same_room ∙ w2.same_room ∙ w1.same_room;
  first = λ j lo hi. elim (dec_lt j (p * 512 + 512)) [
    | yes q ↦
        c.stays_zero j (omega (arith, size2))
          (w2.outside j (omega (arith, w1.same_size)) (inl (omega arith)) ∙ at_block p w1 j lo q)
    | no q ↦ c.first j (omega arith) (omega arith)
  ];
  second = λ j lo hi. elim (dec_lt j (b * 512 + 512)) [
    | yes q ↦ c.stays_zero j (omega (arith, size2)) (at_block b w2 j lo q)
    | no q ↦ c.second j (omega arith) (omega arith)
  ];
  kept = λ j hj o1 o2.
      c.kept j (omega (arith, size2)) (ground arith) (ground arith)
      ∙ w2.outside j (omega (arith, w1.same_size)) (ground arith)
      ∙ w1.outside j hj (ground arith);
  stays_zero = λ j hj z.
      c.stays_zero j (omega (arith, size2))
        (zero_kept b w2 j (omega (arith, w1.same_size)) (zero_kept p w1 j hj z));
}
  where
    size2 : f2.size ≡ f.size
    size2 = w2.same_size ∙ w1.same_size

    at_block :
        {x y : HostFile} (k : ℕ)
        → InPlace x y (k * 512) 512 zeros
        → (j : ℕ) → k * 512 ≤ j
        → j < k * 512 + 512
        → y.byte j ≡ 0
    at_block {x} {y} k w j lo hi = ap y.byte (omega arith) ∙ w.inside (j - k * 512) (omega arith)

    zero_kept :
        {x y : HostFile} (k : ℕ)
        → InPlace x y (k * 512) 512 zeros
        → (j : ℕ) → j < x.size
        → x.byte j ≡ 0
        → y.byte j ≡ 0
    zero_kept {x} {y} k w j hj z = elim (dec_lt j (k * 512)) [
      | yes q ↦ w.outside j hj (inl q) ∙ z
      | no q ↦ elim (dec_lt j (k * 512 + 512)) [
        | yes q' ↦ at_block k w j (omega arith) q'
        | no q' ↦ w.outside j hj (inr (omega arith)) ∙ z
      ]
    ]

clear_loop-step :
    (left i b : ℕ) (next : HostFile → HostFile × ℕ) (f f1 f2 : HostFile)
    → write_at_path f ((2 + i) * 512) zeros 512 ≡ (f1, true)
    → write_at_path f1 ((b + i) * 512) zeros 512 ≡ (f2, true)
    → b + i < 2 ^ 54
    → i < 2 ^ 54
    → clear_loop (suc left) i b 512 next f ≡ clear_loop left (i + 1) b 512 next f2
unfolding clear_loop
clear_loop-step left i b next f f1 f2 e1 e2 hb hi =
    let p1 : mul64 (add64 2 i) 512 ≡ (2 + i) * 512 = omega arith in
    let p2 : mul64 (add64 b i) 512 ≡ (b + i) * 512 = omega arith in rw (p1, e1, p2, e2) refl

pub clear_loop-Cleared :
    (left i b : ℕ) (next : HostFile → HostFile × ℕ) (f : HostFile)
    → 2 + i + left ≤ b + i
    → (b + i + left) * 512 ≤ f.size
    → f.size < 2 ^ 63
    → f.size ≤ f.room
    → (g : HostFile) × (clear_loop left i b 512 next f ≡ next g) × Cleared f g (2 + i) (b + i) left
unfolding clear_loop
clear_loop-Cleared zero i b next f h1 h2 hs hr = (
  f,
  refl,
  record {
    same_size = refl;
    same_room = refl;
    first = λ j lo hi. absurd (omega arith);
    second = λ j lo hi. absurd (omega arith);
    kept = λ j hj o1 o2. refl;
    stays_zero = λ j hj z. z;
  },
)
clear_loop-Cleared (suc left) i b next f h1 h2 hs hr =
    let (f1, e1, w1) = write_at_path-InPlace f ((2 + i) * 512) zeros 512 (omega arith) hs hr in
    let (f2, e2, w2) =
      write_at_path-InPlace f1 ((b + i) * 512) zeros 512 (omega (arith, w1.same_size))
        (omega (arith, w1.same_size)) (omega (arith, w1.same_size, w1.same_room)) in
    let (g, e, c) =
      clear_loop-Cleared left (i + 1) b next f2 (omega arith)
        (omega (arith, w1.same_size, w2.same_size)) (omega (arith, w1.same_size, w2.same_size))
        (omega (arith, w1.same_size, w2.same_size, w1.same_room, w2.same_room)) in
    (
      g,
      clear_loop-step left i b next f f1 f2 e1 e2 (omega arith) (omega arith) ∙ e,
      Cleared-suc f f1 f2 g (2 + i) (b + i) (2 + (i + 1)) (b + (i + 1)) left (omega arith)
          (omega arith) (omega arith) (omega arith) w1 w2 c,
    )

pub Cleared-at :
    (f g : HostFile) (p b b' left : ℕ) → b' ≡ b → Cleared f g p b' left → Cleared f g p b left
Cleared-at f g p b b' left e c = rw (sym e) c
