-- ===== src/Deb/Version/Sound.antt =====
-- The loops of verrevcmp (deb_version.c) against the order by tokens.
use Prim.Native.Nat.{Ordering, lt, eq, gt, compare}
use guppy.Prelude.{
  ℕ, zero, suc, ◌+◌, ◌≤◌, ◌<◌, ◌≡◌, ◌≢◌, ◌⊎◌, inl, inr, refl, sym, ◌∙◌, true, false, not, arith,
  ◌==◌, ◌||◌, List, [], ◌∷◌, length, Bool-cases,
}
use guppy.Ascii.{IsCString, is_alpha, Bytes, is_digit}
use guppy.Deb.Version.{
  order_char, Scan, decided, stop, scan_result, scan_step, skip_zeros, digits, after_digits,
  strncmp, then_cmp, compare_numbers,
}
use guppy.Deb.Version.Spec.{lex, number, token, after_token, token_order}

pub length-after_digits : (a : Bytes) → length (after_digits a) ≤ length a
unfolding after_digits
length-after_digits [] = omega arith
length-after_digits (c ∷ cs) = ground (arith, length-after_digits cs)

pub length-after_number : (a : Bytes) → length (after_digits (skip_zeros a)) ≤ length a
unfolding skip_zeros
length-after_number [] = length-after_digits []
length-after_number (c ∷ cs) = ground (arith, length-after_number cs, length-after_digits (c ∷ cs))

-- At a digit, the number takes at least that digit.
pub length-after_number_lt :
    (c : ℕ) (cs : Bytes)
    → is_digit c ≡ true
    → length (after_digits (skip_zeros (c ∷ cs))) < suc (length cs)
length-after_number_lt c cs d = elim (Bool-cases (c == b'0')) [
  | inl z ↦ unfold skip_zeros in rw z (omega (arith, length-after_number cs))
  | inr nz ↦ unfold skip_zeros after_digits in rw (nz, d) (omega (arith, length-after_digits cs))
]

pub strncmp-lex :
    (a b : Bytes)
    → length (digits a) ≡ length (digits b)
    → strncmp (length (digits a)) a b ≡ lex (digits a) (digits b)
unfolding digits strncmp lex
strncmp-lex [] [] h = refl
strncmp-lex [] (y ∷ ys) h = ground arith
strncmp-lex (x ∷ xs) [] h = ground arith
strncmp-lex (x ∷ xs) (y ∷ ys) h = ground (arith, strncmp-lex xs ys)

pub compare_numbers-lex :
    (a b : Bytes)
    → compare_numbers a b ≡ lex (length (digits a) ∷ digits a) (length (digits b) ∷ digits b)
unfolding compare_numbers lex
compare_numbers-lex a b = go (compare (length (digits a)) (length (digits b))) refl
  where
    go :
        (o : Ordering)
        → compare (length (digits a)) (length (digits b)) ≡ o
        → then_cmp o (strncmp (length (digits a)) a b) ≡ then_cmp o (lex (digits a) (digits b))
    go lt e = refl
    go gt e = refl
    go eq e = strncmp-lex a b (ground arith)

-- A string that the loop over non-digits leaves: it has ended, or a digit is next.
abbrev pub AtStop : Bytes → Type 0
AtStop [] = Unit {0}
AtStop (c ∷ cs) = is_digit c ≡ true

pub token-AtStop : (a : Bytes) → AtStop a → token a ≡ 1 ∷ length (number a) ∷ number a
unfolding token
token-AtStop [] h = unfold skip_zeros digits in refl
token-AtStop (c ∷ cs) h = rw h

pub after_token-AtStop : (a : Bytes) → AtStop a → after_token a ≡ after_digits (skip_zeros a)
unfolding after_token
after_token-AtStop [] h = unfold skip_zeros after_digits in refl
after_token-AtStop (c ∷ cs) h = rw h

pub token_order-nil : (n : ℕ) → token_order n [] [] ≡ eq
unfolding token_order token after_token lex
token_order-nil zero = refl
token_order-nil (suc n) = token_order-nil n

-- What the loop over non-digits has to have found, for the order of the first `n` tokens.
abbrev pub Found : ℕ → Bytes → Bytes → Scan → Type 0
Found n a b (decided o) = token_order n a b ≡ o
Found n a b (stop a' b') =
    AtStop a'
    × AtStop b'
    × IsCString a'
    × IsCString b'
    × (length a' + length b' ≤ length a + length b)
    × ((m : ℕ) × (length a' + length b' ≤ m) × (token_order n a b ≡ token_order m a' b'))

-- A character of a string against what stands in the other one.
pub step-Found :
    (n x y : ℕ) (a b a' b' : Bytes) (again : Scan)
    → token_order (suc n) a b
      ≡ then_cmp (compare (order_char x) (order_char y)) (token_order n a' b')
    → length a' + length b' ≤ length a + length b
    → Found n a' b' again
    → Found (suc n) a b (scan_step x y again)
unfolding scan_step
step-Found n x y a b a' b' again h l f = go (compare (order_char x) (order_char y)) refl
  where
    follow :
        token_order (suc n) a b ≡ token_order n a' b'
        → (s : Scan) → Found n a' b' s
        → Found (suc n) a b s
    follow e (decided o) f = e ∙ f
    follow e (stop a1 b1) (sa, sb, ca, cb, le, (m, hm, em)) =
        (sa, sb, ca, cb, omega (arith, le, l), (m, hm, e ∙ em))

    go :
        (o : Ordering)
        → compare (order_char x) (order_char y) ≡ o
        → Found (suc n) a b (scan_result o again)
    go lt e = h ∙ rw e
    go gt e = h ∙ rw e
    go eq e = follow (h ∙ rw e) again f

-- Tokens whose first numbers differ are told apart by them.
pub ranks :
    (u v : ℕ) (s t : List ℕ) (w : Ordering) (o o' : Ordering)
    → u ≢ v
    → compare u v ≡ w
    → then_cmp (lex (u ∷ s) (v ∷ t)) o ≡ then_cmp w o'
unfolding lex
ranks u v s t w o o' ne e = go w e
  where
    go :
        (w : Ordering)
        → compare u v ≡ w
        → then_cmp (then_cmp (compare u v) (lex s t)) o ≡ then_cmp w o'
    go lt e = rw e
    go gt e = rw e
    go eq e = absurd (ne (ground arith))

pub one_character :
    (u v : ℕ) (o : Ordering) → then_cmp (lex (u ∷ []) (v ∷ [])) o ≡ then_cmp (compare u v) o
unfolding lex
one_character u v o = go (compare u v)
  where
    go : (c : Ordering) → then_cmp (then_cmp c eq) o ≡ then_cmp c o
    go lt = refl
    go gt = refl
    go eq = refl

-- The order of a character that is no digit and no NUL, against NUL and against digits.
pub order_char-ne : (y : ℕ) → y ≢ 0 → order_char y ≢ 1
unfolding order_char
order_char-ne y h = ground arith

pub order_char_zero : order_char 0 ≡ 1
unfolding order_char
order_char_zero = refl

pub digit_code : (x : ℕ) → is_digit x ≡ true → (48 < order_char x) × (order_char x < 59)
unfolding order_char is_digit
digit_code x d = ground arith

pub not_in_digits : (y : ℕ) → is_digit y ≡ false → y ≢ 0 → (order_char y ≡ 0) ⊎ (59 < order_char y)
unfolding order_char is_digit is_alpha
not_in_digits y d h = ground arith

pub order_char-digit :
    (x y : ℕ)
    → is_digit x ≡ true
    → is_digit y ≡ false
    → y ≢ 0
    → (compare 1 (order_char y) ≡ compare (order_char x) (order_char y))
      × (compare (order_char y) 1 ≡ compare (order_char y) (order_char x))
order_char-digit x y dx dy h =
    let b = digit_code x dx in
    (order_one x y b (not_in_digits y dy h), order_one' x y b (not_in_digits y dy h))
  where
    order_one :
        (x y : ℕ)
        → (48 < order_char x) × (order_char x < 59)
        → (order_char y ≡ 0) ⊎ (59 < order_char y)
        → compare 1 (order_char y) ≡ compare (order_char x) (order_char y)
    order_one x y b o = ground arith

    order_one' :
        (x y : ℕ)
        → (48 < order_char x) × (order_char x < 59)
        → (order_char y ≡ 0) ⊎ (59 < order_char y)
        → compare (order_char y) 1 ≡ compare (order_char y) (order_char x)
    order_one' x y b o = ground arith

pub first_tokens_end :
    (n y : ℕ) (ys : Bytes)
    → y ≢ 0
    → is_digit y ≡ false
    → (token_order (suc n) [] (y ∷ ys)
        ≡ then_cmp (compare (order_char 0) (order_char y)) (token_order n [] ys))
      × (token_order (suc n) (y ∷ ys) []
          ≡ then_cmp (compare (order_char y) (order_char 0)) (token_order n ys []))
unfolding token_order token after_token
first_tokens_end n y ys nz d = rw d (
  ranks 1 (order_char y) (0 ∷ []) [] (compare (order_char 0) (order_char y)) _ (token_order n [] ys)
      (λ e. order_char-ne y nz (sym e)) (rw order_char_zero),
  ranks (order_char y) 1 [] (0 ∷ []) (compare (order_char y) (order_char 0)) _ (token_order n ys [])
      (order_char-ne y nz) (rw order_char_zero),
)

pub first_tokens :
    (n x y : ℕ) (xs ys : Bytes)
    → x ≢ 0
    → y ≢ 0
    → (not (is_digit x) || not (is_digit y)) ≡ true
    → token_order (suc n) (x ∷ xs) (y ∷ ys)
      ≡ then_cmp (compare (order_char x) (order_char y)) (token_order n xs ys)
first_tokens n x y xs ys hx hy d = elim (Bool-cases (is_digit x)) [
  | inl dx ↦ elim (Bool-cases (is_digit y)) [
    | inl dy ↦ ground arith
    | inr dy ↦
        unfold token_order token after_token in
        rw (dx, dy)
          (ranks 1 (order_char y) (length (number (x ∷ xs)) ∷ number (x ∷ xs)) []
            (compare (order_char x) (order_char y))
            (token_order n (after_digits (skip_zeros (x ∷ xs))) ys) (token_order n xs ys)
            (λ e. order_char-ne y hy (sym e)) (order_char-digit x y dx dy hy).0)
  ]
  | inr dx ↦ elim (Bool-cases (is_digit y)) [
    | inl dy ↦
        unfold token_order token after_token in
        rw (dx, dy)
          (ranks (order_char x) 1 [] (length (number (y ∷ ys)) ∷ number (y ∷ ys))
            (compare (order_char x) (order_char y))
            (token_order n xs (after_digits (skip_zeros (y ∷ ys)))) (token_order n xs ys)
            (order_char-ne x hx) (order_char-digit y x dy dx hx).1)
    | inr dy ↦
        unfold token_order token after_token in
        rw (dx, dy) (one_character (order_char x) (order_char y) (token_order n xs ys))
  ]
]
