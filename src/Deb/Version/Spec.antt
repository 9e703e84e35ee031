-- ===== src/Deb/Version/Spec.antt =====
-- The order that deb_version.c means to compute: a version is a sequence of tokens, a character or a
-- number each, and sequences compare token by token, where a version that has ended goes on with the
-- number zero.
use Prim.Native.Nat.{Ordering, lt, eq, gt, compare}
use guppy.Prelude.{
  ℕ, zero, suc, ◌≡◌, refl, Bool, true, false, arith, List, [], ◌∷◌, length, if◌then◌else◌,
}
use guppy.Ascii.{Bytes, is_digit}
use guppy.Deb.Version.{order_char, skip_zeros, digits, after_digits, then_cmp}

-- Lexicographic order on lists of numbers.
unfoldable pub lex : List ℕ → List ℕ → Ordering
lex [] [] = eq
lex [] (y ∷ ys) = lt
lex (x ∷ xs) [] = gt
lex (x ∷ xs) (y ∷ ys) = then_cmp (compare x y) (lex xs ys)

abbrev pub swap : Ordering → Ordering
swap lt = gt
swap gt = lt
swap eq = eq

-- "At most", for the result of a comparison.
abbrev pub not_gt : Ordering → Bool
not_gt gt = false
not_gt lt = true
not_gt eq = true

-- The digits of a number without leading zeros.
abbrev pub number : Bytes → Bytes
number a = digits (skip_zeros a)

-- The first token. Numbers rank 1, between `~` and all other characters, and compare by their
-- length, then digit by digit.
unfoldable pub token : Bytes → List ℕ
token [] = 1 ∷ 0 ∷ []
token (c ∷ cs) =
    if is_digit c then 1 ∷ length (number (c ∷ cs)) ∷ number (c ∷ cs) else order_char c ∷ []

unfoldable pub after_token : Bytes → Bytes
after_token [] = []
after_token (c ∷ cs) = if is_digit c then after_digits (skip_zeros (c ∷ cs)) else cs

-- The comparison of the first `n` tokens.
unfoldable pub token_order : ℕ → Bytes → Bytes → Ordering
token_order zero a b = eq
token_order (suc n) a b =
    then_cmp (lex (token a) (token b)) (token_order n (after_token a) (after_token b))

pub lex_refl : (xs : List ℕ) → lex xs xs ≡ eq
unfolding lex
lex_refl [] = refl
lex_refl (x ∷ xs) = ground (arith, lex_refl xs)

pub lex-swap : (xs ys : List ℕ) → lex ys xs ≡ swap (lex xs ys)
unfolding lex
lex-swap [] [] = refl
lex-swap [] (y ∷ ys) = refl
lex-swap (x ∷ xs) [] = refl
lex-swap (x ∷ xs) (y ∷ ys) = ground (arith, lex-swap xs ys)

-- `r`, the comparison of the ends, fits `p` and `q`, those of the two steps between them.
abbrev pub Chain : Ordering → Ordering → Ordering → Type 0
Chain gt q r = Unit {0}
Chain lt gt r = Unit {0}
Chain lt lt r = r ≡ lt
Chain lt eq r = r ≡ lt
Chain eq gt r = Unit {0}
Chain eq lt r = r ≡ lt
Chain eq eq r = r ≡ eq

pub compare-Chain : (x y z : ℕ) → Chain (compare x y) (compare y z) (compare x z)
compare-Chain x y z = go (compare x y) (compare y z) refl refl
  where
    go : (p q : Ordering) → compare x y ≡ p → compare y z ≡ q → Chain p q (compare x z)
    go gt q h k = tt
    go lt gt h k = tt
    go lt lt h k = ground arith
    go lt eq h k = ground arith
    go eq gt h k = tt
    go eq lt h k = ground arith
    go eq eq h k = ground arith

pub then_cmp-Chain :
    (p q r p' q' r' : Ordering)
    → Chain p q r
    → Chain p' q' r'
    → Chain (then_cmp p p') (then_cmp q q') (then_cmp r r')
then_cmp-Chain gt q r p' q' r' h k = tt
then_cmp-Chain lt gt r p' q' r' h k = tt
then_cmp-Chain lt lt r p' q' r' h k = rw h
then_cmp-Chain lt eq r p' gt r' h k = tt
then_cmp-Chain lt eq r p' lt r' h k = rw h
then_cmp-Chain lt eq r p' eq r' h k = rw h
then_cmp-Chain eq gt r gt q' r' h k = tt
then_cmp-Chain eq gt r lt q' r' h k = tt
then_cmp-Chain eq gt r eq q' r' h k = tt
then_cmp-Chain eq lt r gt q' r' h k = tt
then_cmp-Chain eq lt r lt q' r' h k = rw h
then_cmp-Chain eq lt r eq q' r' h k = rw h
then_cmp-Chain eq eq r p' q' r' h k = rw h k

pub lex-Chain : (xs ys zs : List ℕ) → Chain (lex xs ys) (lex ys zs) (lex xs zs)
unfolding lex
lex-Chain [] [] [] = refl
lex-Chain [] [] (z ∷ zs) = refl
lex-Chain [] (y ∷ ys) [] = tt
lex-Chain [] (y ∷ ys) (z ∷ zs) = go (then_cmp (compare y z) (lex ys zs))
  where
    go : (q : Ordering) → Chain lt q lt
    go lt = refl
    go eq = refl
    go gt = tt
lex-Chain (x ∷ xs) [] zs = tt
lex-Chain (x ∷ xs) (y ∷ ys) [] = go (then_cmp (compare x y) (lex xs ys))
  where
    go : (p : Ordering) → Chain p gt gt
    go lt = tt
    go eq = tt
    go gt = tt
lex-Chain (x ∷ xs) (y ∷ ys) (z ∷ zs) =
    then_cmp-Chain (compare x y) (compare y z) (compare x z) _ _ _ (compare-Chain x y z)
      (lex-Chain xs ys zs)

pub swap-then_cmp : (p q : Ordering) → swap (then_cmp p q) ≡ then_cmp (swap p) (swap q)
swap-then_cmp lt q = refl
swap-then_cmp eq q = refl
swap-then_cmp gt q = refl

pub token_order_refl : (n : ℕ) (a : Bytes) → token_order n a a ≡ eq
unfolding token_order
token_order_refl zero a = refl
token_order_refl (suc n) a = rw (lex_refl (token a)) (token_order_refl n (after_token a))

pub token_order-swap : (n : ℕ) (a b : Bytes) → token_order n b a ≡ swap (token_order n a b)
unfolding token_order
token_order-swap zero a b = refl
token_order-swap (suc n) a b = rw (
  lex-swap (token a) (token b),
  token_order-swap n (after_token a) (after_token b),
  swap-then_cmp,
)

pub token_order-Chain :
    (n : ℕ) (a b c : Bytes) → Chain (token_order n a b) (token_order n b c) (token_order n a c)
unfolding token_order
token_order-Chain zero a b c = refl
token_order-Chain (suc n) a b c =
    then_cmp-Chain (lex (token a) (token b)) (lex (token b) (token c)) (lex (token a) (token c)) _ _
      _ (lex-Chain (token a) (token b) (token c))
      (token_order-Chain n (after_token a) (after_token b) (after_token c))
