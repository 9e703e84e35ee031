-- ===== src/Tar/Checksum.antt =====
-- The checksum of a header (src/tar_write.c: header).
use native.Mathlib.Decide.{dec_lt}
use guppy.Prelude.{
  ℕ, zero, suc, ◌+◌, ◌-◌, ◌*◌, ◌^◌, ◌≤◌, ◌<◌, ◌≡◌, ◌⊎◌, inl, inr, refl, sym, ap, ◌∙◌, some, arith,
}
use guppy.Ascii.{codes}
use guppy.Word.{u32}
use guppy.Buffer.{Buf, at}
use guppy.Tar.Octal.{fill, store, shift, Octal, Field, oct-Field, Octal-agree}
use guppy.Tar.NameFields.{bytes_at-IsByte}
use guppy.Tar.Header.{sum, blank, seal, sealed_block, sealed_block}

abbrev pub AllBytes : Buf → Type 0
AllBytes p = (j : ℕ) → p j < 256

sum_le : (left : ℕ) (p : Buf) (i c : ℕ) → AllBytes p → sum left p i c ≤ c + left * 255
unfolding sum
sum_le zero p i c h = omega arith
sum_le (suc left) p i c h = omega (arith, sum_le left p (i + 1) (u32 (c + p i)) h, h i)

sum-agree :
    (left : ℕ) (p q : Buf) (i c : ℕ)
    → ((j : ℕ) → i ≤ j → j < i + left → p j ≡ q j)
    → sum left p i c ≡ sum left q i c
unfolding sum
sum-agree zero p q i c h = refl
sum-agree (suc left) p q i c h =
    rw (h i (omega arith) (omega arith))
      (sum-agree left p q (i + 1) (u32 (c + q i)) (λ j lo hi. h j (omega arith) (omega arith)))

pub Field-AllBytes : (p q : Buf) (k n v : ℕ) → Field p q k n v → AllBytes p → AllBytes q
Field-AllBytes p q k n v f h j = elim (dec_lt j k) [
  | yes lo ↦ rw (f.outside j (inl lo)) (h j)
  | no lo ↦
      let e : k + (j - k) ≡ j = omega arith in
      elim (dec_lt (j - k) n) [
        | yes hi ↦ rw (sym e) (rw (f.field.digits (j - k) hi) (omega arith))
        | no hi ↦ elim (dec_lt n (j - k)) [
          | yes out ↦ rw (f.outside j (inr (omega arith))) (h j)
          | no out ↦ let m : j ≡ k + n = omega arith in rw (m, f.field.ends) (omega arith)
        ]
      ]
]

blank-AllBytes : (type : ℕ) (b : Buf) → type < 256 → AllBytes b → AllBytes (blank type b)
unfolding blank
blank-AllBytes type b ht h j =
    let u = bytes_at-IsByte (codes "ustar") (ground arith) (j - 257) in
    let v = bytes_at-IsByte (codes "00") (ground arith) (j - 263) in ground (arith, u, v, h j)

blank-outside :
    (type : ℕ) (b : Buf) (j : ℕ) → (j < 148) ⊎ (345 ≤ j) ⊎ (j ≡ 157) → blank type b j ≡ b j
unfolding blank
blank-outside type b j o = ground arith

blank-checksum : (type : ℕ) (b : Buf) (j : ℕ) → 148 ≤ j → j < 156 → blank type b j ≡ b' '
unfolding blank
blank-checksum type b j lo hi = ground arith

blank-type : (type : ℕ) (b : Buf) → blank type b 156 ≡ type
unfolding blank
blank-type type b = refl

blank-magic : (type : ℕ) (b : Buf) → blank type b 257 ≡ b'u'
unfolding blank
blank-magic type b = refl

-- What a sealed block holds.
pub record Sealed (b h : Buf) (type : ℕ) : Type 0 where
  pub outside : (j : ℕ) → (j < 148) ⊎ (345 ≤ j) → h j ≡ b j
  pub no_link : h 157 ≡ b 157
  pub typed : h 156 ≡ type
  pub magic : h 257 ≡ b'u'
  pub checked : Octal (at h 148) 6 (sum 512 (fill h 148 b' ' 8) 0 0)

store-Sealed :
    (type : ℕ) (b c : Buf) (s : ℕ)
    → s ≡ sum 512 (blank type b) 0 0
    → Field (blank type b) c 148 6 s
    → Sealed b (store c 155 b' ') type
store-Sealed type b c s es f = record {
  outside = λ j o. outer j (ground arith) ∙ blank-outside type b j (ground arith);
  no_link = outer 157 (inr (omega arith)) ∙ blank-outside type b 157 (ground arith);
  typed = outer 156 (inr (omega arith)) ∙ blank-type type b;
  magic = outer 257 (inr (omega arith)) ∙ blank-magic type b;
  checked =
      rw same_sum
        (Octal-agree 6 s (at c 148) (at (store c 155 b' ') 148) (λ j h. ground arith) f.field);
}
  where
    outer : (j : ℕ) → (j < 148) ⊎ (156 ≤ j) → store c 155 b' ' j ≡ blank type b j
    outer j o = let e = f.outside j (ground arith) in ground (arith, e)

    same_byte : (j : ℕ) → fill (store c 155 b' ') 148 b' ' 8 j ≡ blank type b j
    same_byte j = elim (dec_lt j 148) [
      | yes p ↦ let e = outer j (inl p) in ground (arith, e)
      | no p ↦ elim (dec_lt j 156) [
        | yes q ↦ let e = blank-checksum type b j (omega arith) q in ground (arith, e)
        | no q ↦ let e = outer j (inr (omega arith)) in ground (arith, e)
      ]
    ]

    same_sum : sum 512 (fill (store c 155 b' ') 148 b' ' 8) 0 0 ≡ s
    same_sum =
        sum-agree 512 (fill (store c 155 b' ') 148 b' ' 8) (blank type b) 0 0
          (λ j lo hi. same_byte j)
        ∙ sym es

shift_sum : (v : ℕ) → v < 8 ^ 6 → shift 6 v ≡ 0
unfolding shift
shift_sum v h = omega arith

pub seal-Sealed :
    (type : ℕ) (b : Buf)
    → type < 256
    → AllBytes b
    → (h : Buf) × (seal type b ≡ some h) × Sealed b h type
seal-Sealed type b ht hb =
    let s = sum 512 (blank type b) 0 0 in
    let le = sum_le 512 (blank type b) 0 0 (blank-AllBytes type b ht hb) in
    let (c, e, f) = oct-Field (blank type b) 148 6 s (shift_sum s (omega (arith, le))) in
    (store c 155 b' ', unfold seal in ap sealed_block e, store-Sealed type b c s refl f)
