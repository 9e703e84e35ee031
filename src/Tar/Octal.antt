-- ===== src/Tar/Octal.antt =====
-- The octal fields of a header: `oct` (src/tar_write.c) writes them, `octal` (src/tar.c) reads them.
use native.Mathlib.Decide.{dec_lt}
use guppy.Prelude.{
  ℕ, zero, suc, ◌+◌, ◌-◌, ◌/◌, ◌%◌, ◌^◌, ◌≤◌, ◌<◌, ◌≡◌, ◌⊎◌, inl, inr, refl, sym, ◌∙◌, true, false,
  Option, none, some, arith, ◌==◌, ◌&&◌, ◌||◌, if◌then◌else◌, Bool-cases, leb,
}
use guppy.Word.{add64, mul64}
use guppy.Buffer.{Buf, at, within}

-- `memset(p + k, c, n)`
abbrev pub fill : Buf → (k c n : ℕ) → Buf
fill p k c n i = if within k n i then c else p i

-- `p[k] = c`
abbrev pub store : Buf → (k c : ℕ) → Buf
store p k c i = if i == k then c else p i

-- `n` times `>>= 3`
unfoldable pub shift : ℕ → ℕ → ℕ
shift zero v = v
shift (suc n) v = shift n (v / 8)

-- `for (i = width - 1; i > 0 && value != 0; i--)`, on the field at `k`.
unfoldable pub oct_loop : (i : ℕ) → (k : ℕ) → Buf → (value : ℕ) → Buf
oct_loop zero k dst v = dst
oct_loop (suc i) k dst v =
    let rest = oct_loop i k (store dst (k + i) (b'0' + v % 8)) (v / 8) in
    if v == 0 then dst else rest

-- `oct(block + k, width, value)`, which is never called with width 0.
unfoldable pub oct : Buf → (k width value : ℕ) → Option Buf
oct block k width value =
    if shift (width - 1) value == 0
    then some (oct_loop (width - 1) k (store (fill block k b'0' width) (k + (width - 1)) 0) value)
    else none

-- `while (i < n && (p[i] == ' ' || p[i] == 0)) i++`; `left` is `n - i`.
unfoldable pub skip_blanks : (left : ℕ) → Buf → (i : ℕ) → ℕ
skip_blanks zero p i = i
skip_blanks (suc left) p i =
    let rest = skip_blanks left p (i + 1) in if p i == b' ' || p i == 0 then rest else i

-- `for (; i < n && p[i] >= '0' && p[i] <= '7'; i++)`
unfoldable pub octal_loop : (left : ℕ) → Buf → (i v : ℕ) → ℕ
octal_loop zero p i v = v
octal_loop (suc left) p i v =
    let rest = octal_loop left p (i + 1) (add64 (mul64 v 8) (p i - b'0')) in
    if leb b'0' (p i) && leb (p i) b'7' then rest else v

unfoldable pub octal : Buf → ℕ → ℕ
octal p n = let i = skip_blanks n p 0 in octal_loop (n - i) p i 0

-- The field `p` holds `value` in `n` digits and a NUL.
pub record Octal (p : Buf) (n value : ℕ) : Type 0 where
  pub digits : (j : ℕ) → j < n → p j ≡ b'0' + shift (n - 1 - j) value % 8
  pub ends : p n ≡ 0
  pub fits : shift n value ≡ 0

shift_zero : (n : ℕ) → shift n 0 ≡ 0
unfolding shift
shift_zero zero = refl
shift_zero (suc n) = shift_zero n

shift-suc : (n v : ℕ) → shift (suc n) v ≡ shift n v / 8
unfolding shift
shift-suc zero v = refl
shift-suc (suc n) v = shift-suc n (v / 8)

oct_loop-outside :
    (i k : ℕ) (dst : Buf) (v j : ℕ) → (j < k) ⊎ (k + i ≤ j) → oct_loop i k dst v j ≡ dst j
unfolding oct_loop
oct_loop-outside zero k dst v j h = refl
oct_loop-outside (suc i) k dst v j h =
    let rest = oct_loop-outside i k (store dst (k + i) (b'0' + v % 8)) (v / 8) j (ground arith) in
    elim (Bool-cases (v == 0)) [ inl e ↦ rw e | inr e ↦ rw (e, rest) (ground arith) ]

oct_loop_zero : (i k : ℕ) (dst : Buf) → oct_loop i k dst 0 ≡ dst
unfolding oct_loop
oct_loop_zero zero k dst = refl
oct_loop_zero (suc i) k dst = refl

oct_loop_step :
    (i k : ℕ) (dst : Buf) (v : ℕ)
    → (v == 0) ≡ false
    → oct_loop (suc i) k dst v ≡ oct_loop i k (store dst (k + i) (b'0' + v % 8)) (v / 8)
unfolding oct_loop
oct_loop_step i k dst v h = rw h

-- The loop of `oct` over a field of zeros.
oct_loop-digits :
    (i k : ℕ) (dst : Buf) (v : ℕ)
    → ((j : ℕ) → j < i → dst (k + j) ≡ b'0')
    → (j : ℕ) → j < i
    → oct_loop i k dst v (k + j) ≡ b'0' + shift (i - 1 - j) v % 8
oct_loop-digits zero k dst v h j hj = absurd (omega arith)
oct_loop-digits (suc i) k dst v h j hj = elim (Bool-cases (v == 0)) [
  | inl e ↦ let z : v ≡ 0 = ground arith in rw (z, oct_loop_zero, shift_zero) (h j hj)
  | inr e ↦ rw (oct_loop_step i k dst v e) (elim (dec_lt j i) [
    | yes p ↦
        let rest =
          oct_loop-digits i k (store dst (k + i) (b'0' + v % 8)) (v / 8)
            (λ j' hj'. ground (arith, h j')) j p in
        let n : suc i - 1 - j ≡ suc (i - 1 - j) = omega arith in rest ∙ rw n (unfold shift in refl)
    | no q ↦
        let n : suc i - 1 - j ≡ 0 = omega arith in
        let m : j ≡ i = omega arith in
        oct_loop-outside i k (store dst (k + i) (b'0' + v % 8)) (v / 8) (k + j) (inr (omega arith))
        ∙ rw (n, m) (unfold shift in ground arith)
  ])
]

-- What `oct` writes, and that it writes nothing else.
pub record Field (block block' : Buf) (k n value : ℕ) : Type 0 where
  pub field : Octal (at block' k) n value
  pub outside : (j : ℕ) → (j < k) ⊎ (k + suc n ≤ j) → block' j ≡ block j

pub oct-Field :
    (block : Buf) (k n value : ℕ)
    → shift n value ≡ 0
    → (block' : Buf) × (oct block k (suc n) value ≡ some block') × Field block block' k n value
oct-Field block k n value h =
    let e : suc n - 1 ≡ n = omega arith in
    let start = store (fill block k b'0' (suc n)) (k + n) 0 in
    let z : (k + n == k + n) ≡ true = ground arith in
    (
      oct_loop n k start value,
      unfold oct in rw (e, h),
      record {
        field = record {
          digits = oct_loop-digits n k start value (λ j hj. ground arith);
          ends = oct_loop-outside n k start value (k + n) (inr (omega arith)) ∙ ground (arith, z);
          fits = h;
        };
        outside = λ j o. oct_loop-outside n k start value j (ground arith) ∙ ground arith;
      },
    )

octal_loop_digit :
    (left : ℕ) (p : Buf) (i v d : ℕ)
    → p i ≡ b'0' + d
    → d < 8
    → octal_loop (suc left) p i v ≡ octal_loop left p (i + 1) (add64 (mul64 v 8) d)
unfolding octal_loop
octal_loop_digit left p i v d h hd =
    let e : b'0' + d - b'0' ≡ d = omega arith in
    let t : (leb b'0' (b'0' + d) && leb (b'0' + d) b'7') ≡ true = ground arith in rw (h, e, t)

octal_loop_end : (left : ℕ) (p : Buf) (i v : ℕ) → p i ≡ 0 → octal_loop (suc left) p i v ≡ v
unfolding octal_loop
octal_loop_end left p i v h = rw h

shift_le : (n v : ℕ) → shift n v ≤ v
shift_le zero v = unfold shift in omega arith
shift_le (suc n) v = rw shift-suc (omega (arith, shift_le n v))

-- A field in octal reads back.
octal_loop-Octal :
    (left n : ℕ) (p : Buf) (v : ℕ)
    → Octal p n v
    → v < 2 ^ 64
    → left ≤ n
    → octal_loop (suc left) p (n - left) (shift left v) ≡ v
octal_loop-Octal zero n p v h hv hl =
    let e : n - 0 ≡ n = omega arith in
    octal_loop_end 0 p (n - 0) (shift 0 v) (rw e h.ends) ∙ (unfold shift in refl)
octal_loop-Octal (suc left) n p v h hv hl =
    let e : n - 1 - (n - suc left) ≡ left = omega arith in
    let next : n - suc left + 1 ≡ n - left = omega arith in
    let value : add64 (mul64 (shift (suc left) v) 8) (shift left v % 8) ≡ shift left v =
      rw shift-suc (omega (arith, shift_le left v)) in
    octal_loop_digit (suc left) p (n - suc left) (shift (suc left) v) (shift left v % 8)
      (h.digits (n - suc left) (omega arith) ∙ rw e) (omega arith)
    ∙ rw (next, value) (octal_loop-Octal left n p v h hv (omega arith))

skip_none : (left : ℕ) (p : Buf) (i : ℕ) → b'0' ≤ p i → skip_blanks (suc left) p i ≡ i
unfolding skip_blanks
skip_none left p i h = let e : (p i == b' ' || p i == 0) ≡ false = ground arith in rw e

pub octal-Octal : (n : ℕ) (p : Buf) (v : ℕ) → 0 < n → Octal p n v → v < 2 ^ 64 → octal p (suc n) ≡ v
octal-Octal n p v hn h hv =
    let e : skip_blanks (suc n) p 0 ≡ 0 = skip_none n p 0 (rw (h.digits 0 hn) (omega arith)) in
    let m : n - n ≡ 0 = omega arith in
    let m' : suc n - 0 ≡ suc n = omega arith in
    let run : octal_loop (suc n) p 0 0 ≡ v =
      sym (rw (m, h.fits)) ∙ octal_loop-Octal n n p v h hv (omega arith) in
    unfold octal in rw (e, m') run

-- A field depends on its bytes only.
pub Octal-agree : (n v : ℕ) (p q : Buf) → ((j : ℕ) → j ≤ n → q j ≡ p j) → Octal p n v → Octal q n v
Octal-agree n v p q e h = record {
  digits = λ j hj. e j (omega arith) ∙ h.digits j hj;
  ends = e n (omega arith) ∙ h.ends;
  fits = h.fits;
}
