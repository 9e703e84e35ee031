-- ===== src/Deb/Version/Loop.antt =====
-- The loops of verrevcmp (deb_version.c), all together.
use Prim.Native.Nat.{Ordering, lt, eq, gt}
use guppy.Prelude.{
  ℕ, zero, suc, ◌+◌, ◌≤◌, ◌<◌, ◌≡◌, inl, inr, refl, ◌∙◌, true, not, some, arith, ◌==◌, ◌||◌, [],
  ◌∷◌, length, Bool-cases,
}
use guppy.Ascii.{Bytes, IsCString, is_digit}
use guppy.Deb.Version.{
  Scan, decided, stop, scan, skip_zeros, digits, after_digits, then_cmp, compare_numbers, go_on,
  verrevcmp_loop, after_scan, strncmp, verrevcmp,
}
use guppy.Deb.Version.Spec.{lex, token_order}
use guppy.Deb.Version.Sound.{
  length-after_number, length-after_number_lt, compare_numbers-lex, AtStop, token-AtStop,
  after_token-AtStop, token_order-nil, Found, step-Found, first_tokens_end, first_tokens,
}

-- The loop over non-digits, with enough tokens to go.
scan-Found :
    (a b : Bytes) (n : ℕ)
    → IsCString a
    → IsCString b
    → length a + length b ≤ n
    → Found n a b (scan a b)
unfolding scan
scan-Found [] [] n ca cb h = (tt, tt, tt, tt, omega arith, (n, omega arith, refl))
scan-Found [] (y ∷ ys) zero ca cb h = absurd (omega arith)
scan-Found [] (y ∷ ys) (suc n) ca cb h =
    let again = scan-Found [] ys n tt cb.1 (omega arith) in
    elim (Bool-cases (is_digit y)) [
      | inl d ↦ rw d (tt, d, tt, cb, omega arith, (suc n, h, refl))
      | inr d ↦ rw d (
          step-Found n 0 y [] (y ∷ ys) [] ys (scan [] ys) (first_tokens_end n y ys cb.0 d).0
            (omega arith) again)
    ]
scan-Found (x ∷ xs) [] zero ca cb h = absurd (omega arith)
scan-Found (x ∷ xs) [] (suc n) ca cb h =
    let again = scan-Found xs [] n ca.1 tt (omega arith) in
    elim (Bool-cases (is_digit x)) [
      | inl d ↦ rw d (d, tt, ca, tt, omega arith, (suc n, h, refl))
      | inr d ↦ rw d (
          step-Found n x 0 (x ∷ xs) [] xs [] (scan xs []) (first_tokens_end n x xs ca.0 d).1
            (omega arith) again)
    ]
scan-Found (x ∷ xs) (y ∷ ys) zero ca cb h = absurd (omega arith)
scan-Found (x ∷ xs) (y ∷ ys) (suc n) ca cb h =
    let again = scan-Found xs ys n ca.1 cb.1 (omega arith) in
    elim (Bool-cases (not (is_digit x) || not (is_digit y))) [
      | inl d ↦ rw d (
          step-Found n x y (x ∷ xs) (y ∷ ys) xs ys (scan xs ys)
            (first_tokens n x y xs ys ca.0 cb.0 d) (omega arith) again)
      | inr d ↦
          let e : (is_digit x ≡ true) × (is_digit y ≡ true) = ground arith in
          rw d (e.0, e.1, ca, cb, omega arith, (suc n, h, refl))
    ]

IsCString-after_digits : (a : Bytes) → IsCString a → IsCString (after_digits a)
unfolding after_digits
IsCString-after_digits [] c = tt
IsCString-after_digits (x ∷ xs) c = elim (Bool-cases (is_digit x)) [
  | inl d ↦ rw d (IsCString-after_digits xs c.1)
  | inr d ↦ rw d c
]

IsCString-skip_zeros : (a : Bytes) → IsCString a → IsCString (skip_zeros a)
unfolding skip_zeros
IsCString-skip_zeros [] c = tt
IsCString-skip_zeros (x ∷ xs) c = elim (Bool-cases (x == b'0')) [
  | inl d ↦ rw d (IsCString-skip_zeros xs c.1)
  | inr d ↦ rw d c
]

go_on-then_cmp : (o p : Ordering) → go_on o (some p) ≡ some (then_cmp o p)
go_on-then_cmp lt p = refl
go_on-then_cmp gt p = refl
go_on-then_cmp eq p = refl

numbers_order :
    (m : ℕ) (a b : Bytes)
    → AtStop a
    → AtStop b
    → token_order (suc m) a b
      ≡ then_cmp
          (compare_numbers (skip_zeros a) (skip_zeros b))
          (token_order m (after_digits (skip_zeros a)) (after_digits (skip_zeros b)))
unfolding token_order
numbers_order m a b sa sb =
    rw
      (
        token-AtStop a sa,
        token-AtStop b sb,
        after_token-AtStop a sa,
        after_token-AtStop b sb,
        compare_numbers-lex (skip_zeros a) (skip_zeros b),
      )
      (unfold lex in refl)

-- The strings have not both ended.
abbrev HasMore : Bytes → Bytes → Type 0
HasMore a b = 0 < length a + length b

loop_round :
    (k : ℕ) (a b : Bytes)
    → HasMore a b
    → verrevcmp_loop (suc k) a b ≡ after_scan (verrevcmp_loop k) (scan a b)
unfolding verrevcmp_loop
loop_round k [] [] h = absurd (omega arith)
loop_round k [] (y ∷ ys) h = refl
loop_round k (x ∷ xs) b h = refl

-- The rests behind the numbers are shorter, unless both strings have ended.
rests_shrink :
    (a b : Bytes)
    → AtStop a
    → AtStop b
    → HasMore a b
    → length (after_digits (skip_zeros a)) + length (after_digits (skip_zeros b))
      < length a + length b
rests_shrink [] [] sa sb h = absurd (omega arith)
rests_shrink [] (y ∷ ys) sa sb h =
    omega (arith, length-after_number [], length-after_number_lt y ys sb)
rests_shrink (x ∷ xs) b sa sb h =
    omega (arith, length-after_number_lt x xs sa, length-after_number b)

-- The loop with `k` rounds keeps the order by tokens.
abbrev Orders : ℕ → Type 0
Orders k =
    (n : ℕ) (a b : Bytes)
    → IsCString a
    → IsCString b
    → length a + length b < k
    → length a + length b ≤ n
    → verrevcmp_loop k a b ≡ some (token_order n a b)

after_numbers :
    (k m : ℕ) (a b : Bytes)
    → Orders k
    → AtStop a
    → AtStop b
    → IsCString a
    → IsCString b
    → length a + length b < suc k
    → HasMore a b
    → length a + length b ≤ suc m
    → after_scan (verrevcmp_loop k) (stop a b) ≡ some (token_order (suc m) a b)
unfolding after_scan
after_numbers k m a b orders sa sb ca cb h more hm =
    let shrink = rests_shrink a b sa sb more in
    let again =
      orders m (after_digits (skip_zeros a)) (after_digits (skip_zeros b))
        (IsCString-after_digits _ (IsCString-skip_zeros a ca))
        (IsCString-after_digits _ (IsCString-skip_zeros b cb)) (omega (arith, shrink, h))
        (omega (arith, shrink, hm)) in
    rw (again, numbers_order m a b sa sb)
      (go_on-then_cmp (compare_numbers (skip_zeros a) (skip_zeros b)) _)

-- The same when both strings may have ended.
after_numbers' :
    (k m : ℕ) (a b : Bytes)
    → Orders k
    → AtStop a
    → AtStop b
    → IsCString a
    → IsCString b
    → 0 < k
    → length a + length b < suc k
    → length a + length b ≤ m
    → after_scan (verrevcmp_loop k) (stop a b) ≡ some (token_order m a b)
after_numbers' k m [] [] orders sa sb ca cb hk h hm =
    unfold after_scan compare_numbers skip_zeros after_digits digits strncmp in
    orders m [] [] tt tt hk (omega arith)
after_numbers' k zero [] (y ∷ ys) orders sa sb ca cb hk h hm = absurd (omega arith)
after_numbers' k zero (x ∷ xs) b orders sa sb ca cb hk h hm = absurd (omega arith)
after_numbers' k (suc m) [] (y ∷ ys) orders sa sb ca cb hk h hm =
    after_numbers k m [] (y ∷ ys) orders sa sb ca cb h (omega arith) hm
after_numbers' k (suc m) (x ∷ xs) b orders sa sb ca cb hk h hm =
    after_numbers k m (x ∷ xs) b orders sa sb ca cb h (omega arith) hm

after_scan-Found :
    (k n : ℕ) (a b : Bytes)
    → Orders k
    → length a + length b < suc k
    → HasMore a b
    → (s : Scan) → Found n a b s
    → after_scan (verrevcmp_loop k) s ≡ some (token_order n a b)
after_scan-Found k n a b orders h more (decided o) f = unfold after_scan in rw f
after_scan-Found k n a b orders h more (stop a' b') (sa, sb, ca, cb, le, (m, hm, em)) =
    rw em (
      after_numbers' k m a' b' orders sa sb ca cb (omega (arith, h, more)) (omega (arith, le, h))
        hm)

-- The outer loop, with enough rounds and enough tokens to go.
pub verrevcmp_loop-token_order : (k : ℕ) → Orders k
verrevcmp_loop-token_order zero n a b ca cb hk hn = absurd (omega arith)
verrevcmp_loop-token_order (suc k) n [] [] ca cb hk hn =
    unfold verrevcmp_loop in rw (token_order-nil n)
verrevcmp_loop-token_order (suc k) n [] (y ∷ ys) ca cb hk hn =
    loop_round k [] (y ∷ ys) (omega arith)
    ∙ after_scan-Found k n [] (y ∷ ys) (verrevcmp_loop-token_order k) hk (omega arith) _
        (scan-Found [] (y ∷ ys) n ca cb hn)
verrevcmp_loop-token_order (suc k) n (x ∷ xs) b ca cb hk hn =
    loop_round k (x ∷ xs) b (omega arith)
    ∙ after_scan-Found k n (x ∷ xs) b (verrevcmp_loop-token_order k) hk (omega arith) _
        (scan-Found (x ∷ xs) b n ca cb hn)

-- The order by tokens, of as many tokens as there may be.
pub verrevcmp-token_order :
    (n : ℕ) (a b : Bytes)
    → IsCString a
    → IsCString b
    → length a + length b ≤ n
    → verrevcmp a b ≡ some (token_order n a b)
unfolding verrevcmp
verrevcmp-token_order n a b ca cb h =
    verrevcmp_loop-token_order (length a + length b + 1) n a b ca cb (omega arith) h
