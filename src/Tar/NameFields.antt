-- ===== src/Tar/NameFields.antt =====
-- The paths that `name_fields` (src/tar_write.c) accepts.
use native.Mathlib.Decide.{dec_lt}
use mathlib.Core.Option.{some-injective, none-ne-some}
use guppy.Prelude.{
  ℕ, zero, suc, ◌+◌, ◌-◌, ◌≤◌, ◌<◌, ◌≡◌, ◌⊎◌, inl, inr, refl, sym, ◌∙◌, Bool, true, false, Option,
  none, some, arith, ◌==◌, ◌&&◌, ◌||◌, [], ◌∷◌, ◌++◌, length, if◌then◌else◌, Bool-cases, leb,
}
use guppy.Ascii.{Bytes, IsBytes}
use guppy.Buffer.{Buf, at, blit, zeros}
use guppy.Tar.Name.{
  bytes_at, is_rejected, find_slash, split_fields, name_fields, Holds, Named, short, long,
  length_join,
}

bytes_at_end : (s : Bytes) (i : ℕ) → length s ≤ i → bytes_at s i ≡ 0
bytes_at_end [] i h = refl
bytes_at_end (x ∷ xs) zero h = absurd (omega arith)
bytes_at_end (x ∷ xs) (suc i) h = bytes_at_end xs i (omega arith)

bytes_at_left : (s t : Bytes) (i : ℕ) → i < length s → bytes_at (s ++ t) i ≡ bytes_at s i
bytes_at_left [] t i h = absurd (omega arith)
bytes_at_left (x ∷ xs) t zero h = refl
bytes_at_left (x ∷ xs) t (suc i) h = bytes_at_left xs t i (omega arith)

bytes_at_right : (s t : Bytes) (c i : ℕ) → bytes_at (s ++ c ∷ t) (length s + 1 + i) ≡ bytes_at t i
bytes_at_right [] t c i = let e : 0 + 1 + i ≡ suc i = omega arith in rw e
bytes_at_right (x ∷ xs) t c i =
    let e : suc (length xs) + 1 + i ≡ suc (length xs + 1 + i) = omega arith in
    rw e (bytes_at_right xs t c i)

append_snoc : (s t : Bytes) (c : ℕ) → s ++ c ∷ t ≡ (s ++ c ∷ []) ++ t
append_snoc [] t c = refl
append_snoc (x ∷ xs) t c = rw (append_snoc xs t c)

-- A slash that splits the path into fields that it fits.
abbrev Splits : Bytes → Option ℕ → Type 0
Splits path none = Unit {0}
Splits path (some s) =
    (pre post : Bytes) × (path ≡ pre ++ b'/' ∷ post)
    × (length pre ≡ s)
    × (s ≤ 155)
    × (length path - s - 1 ≤ 100)

find_slash-Splits :
    (path rest past : Bytes) (slash : Option ℕ)
    → path ≡ past ++ rest
    → Splits path slash
    → Splits path (find_slash rest (length past) (length path) slash)
unfolding find_slash
find_slash-Splits path [] past slash e h = h
find_slash-Splits path (c ∷ cs) past slash e h =
    let n : length past + 1 ≡ length (past ++ c ∷ []) = sym (length_join past [] c) in
    let e' = e ∙ append_snoc past cs c in
    elim (Bool-cases
      (c == b'/' && (leb (length past) 155 && leb (length path - length past - 1) 100))) [
        | inl t ↦
            let slash_here : c ≡ b'/' = ground arith in
            rw (t, n)
              (find_slash-Splits path cs (past ++ c ∷ []) (some (length past)) e'
                (past, cs, rw (sym slash_here) e, refl, ground arith, ground arith))
        | inr t ↦ rw (t, n) (find_slash-Splits path cs (past ++ c ∷ []) slash e' h)
      ]

-- The header with both fields.
abbrev split_at : Bytes → ℕ → Buf
split_at path slash =
    blit (blit zeros 0 (length path - slash - 1) (at (bytes_at path) (slash + 1))) 345 slash
      (bytes_at path)

split_at-name :
    (pre post : Bytes)
    → length post ≤ 100
    → Holds (split_at (pre ++ b'/' ∷ post) (length pre)) 100 post
split_at-name pre post h i hi =
    let len : length (pre ++ b'/' ∷ post) - length pre - 1 ≡ length post =
      rw length_join (omega arith) in
    elim (dec_lt i (length post)) [
      | yes p ↦ let here = bytes_at_right pre post b'/' i in rw (len) (ground arith)
      | no q ↦ let here = bytes_at_end post i (omega arith) in rw (len, here) (ground arith)
    ]

split_at-prefix :
    (pre post : Bytes)
    → length pre ≤ 155
    → length post ≤ 100
    → Holds (at (split_at (pre ++ b'/' ∷ post) (length pre)) 345) 155 pre
split_at-prefix pre post h h' i hi =
    let e : 345 + i - 345 ≡ i = omega arith in
    let len : length (pre ++ b'/' ∷ post) - length pre - 1 ≡ length post =
      rw length_join (omega arith) in
    elim (dec_lt i (length pre)) [
      | yes p ↦ let here = bytes_at_left pre (b'/' ∷ post) i p in rw (e, len) (ground arith)
      | no q ↦ let here = bytes_at_end pre i (omega arith) in rw (e, len) (ground arith)
    ]

-- A test that guards a result.
pub guarded {ℓ} :
    {A : Type ℓ} (b : Bool) (o : Option A) (a : A)
    → (if b then none else o) ≡ some a
    → (b ≡ false) × (o ≡ some a)
guarded true o a e = absurd (none-ne-some _ e)
guarded false o a e = (refl, e)

if-cases {ℓ} :
    {A : Type ℓ} (b : Bool) (x y : A) (a : A)
    → (if b then x else y) ≡ a
    → ((b ≡ true) × (x ≡ a)) ⊎ ((b ≡ false) × (y ≡ a))
if-cases true x y a e = inl (refl, e)
if-cases false x y a e = inr (refl, e)

-- The bytes between the two fields of the path.
abbrev pub Gap : Buf → Type 0
Gap h = (j : ℕ) → 100 ≤ j → j < 345 → h j ≡ 0

split_fields-Named :
    (path : Bytes) (slash : Option ℕ) (h : Buf)
    → Splits path slash
    → split_fields zeros path slash ≡ some h
    → Named h path × Gap h
unfolding split_fields
split_fields-Named path none h s e = absurd (none-ne-some h e)
split_fields-Named path (some slash) h (pre, post, ep, ls, le, lr) e =
    let g =
      guarded (slash == 0 || bytes_at path (slash + 1) == 0) (some (split_at path slash)) h e in
    let eh : split_at path slash ≡ h = some-injective _ _ g.1 in
    let len : length path - slash - 1 ≡ length post = rw (ep, length_join) (omega arith) in
    rw (sym eh) (
      long pre post ep (ground arith) (omega arith) (omega arith)
          (rw (ep, sym ls) (split_at-name pre post (omega arith)))
          (rw (ep, sym ls) (split_at-prefix pre post (omega arith) (omega arith))),
      λ j lo hi. ground arith,
    )

short-Named :
    (path : Bytes)
    → length path ≤ 100
    → Named (blit zeros 0 (length path) (bytes_at path)) path
      × Gap (blit zeros 0 (length path) (bytes_at path))
short-Named path l = (short l whole (ground arith), λ j lo hi. ground arith)
  where
    whole : Holds (blit zeros 0 (length path) (bytes_at path)) 100 path
    whole i hi = elim (dec_lt i (length path)) [
      | yes p ↦ ground arith
      | no q ↦ let here = bytes_at_end path i (omega arith) in rw here (ground arith)
    ]

-- An accepted path stands in the fields of the path, and nothing stands between them.
pub name_fields-Named :
    (path : Bytes) (h : Buf) → name_fields zeros (some path) ≡ some h → Named h path × Gap h
unfolding name_fields
name_fields-Named path h e =
    let split = split_fields zeros path (find_slash path 0 (length path) none) in
    let g =
      guarded (is_rejected path)
        (if leb (length path) 100 then some (blit zeros 0 (length path) (bytes_at path)) else split)
        h e in
    elim (if-cases (leb (length path) 100) (some (blit zeros 0 (length path) (bytes_at path))) split
      (some h) g.1) [
        | inl (t, k) ↦ rw (sym (some-injective _ _ k)) (short-Named path (ground arith))
        | inr (t, k) ↦
            split_fields-Named path (find_slash path 0 (length path) none) h
              (find_slash-Splits path path [] none refl tt) k
      ]

pub bytes_at-IsByte : (s : Bytes) → IsBytes s → (i : ℕ) → bytes_at s i < 256
bytes_at-IsByte [] h i = omega arith
bytes_at-IsByte (x ∷ xs) h zero = h.0
bytes_at-IsByte (x ∷ xs) h (suc i) = bytes_at-IsByte xs h.1 i

split_fields-IsByte :
    (path : Bytes) (slash : Option ℕ) (h : Buf)
    → IsBytes path
    → split_fields zeros path slash ≡ some h
    → (j : ℕ) → h j < 256
unfolding split_fields
split_fields-IsByte path none h b e j = absurd (none-ne-some h e)
split_fields-IsByte path (some slash) h b e j =
    let g =
      guarded (slash == 0 || bytes_at path (slash + 1) == 0) (some (split_at path slash)) h e in
    let eh : split_at path slash ≡ h = some-injective _ _ g.1 in
    let bound = bytes_at-IsByte path b in
    rw (sym eh) (ground (arith, bound (j - 345), bound (slash + 1 + (j - 0))))

short_byte :
    (path : Bytes) (j : ℕ)
    → ((i : ℕ) → bytes_at path i < 256)
    → blit zeros 0 (length path) (bytes_at path) j < 256
short_byte path j bound = ground (arith, bound (j - 0))

pub name_fields-IsByte :
    (path : Bytes) (h : Buf)
    → IsBytes path
    → name_fields zeros (some path) ≡ some h
    → (j : ℕ) → h j < 256
unfolding name_fields
name_fields-IsByte path h b e =
    let split = split_fields zeros path (find_slash path 0 (length path) none) in
    let whole = some (blit zeros 0 (length path) (bytes_at path)) in
    let g = guarded (is_rejected path) (if leb (length path) 100 then whole else split) h e in
    elim (if-cases (leb (length path) 100) whole split (some h) g.1) [
      | inl (t, k) ↦
          let bound = bytes_at-IsByte path b in
          rw (sym (some-injective _ _ k)) (λ j. short_byte path j bound)
      | inr (t, k) ↦ split_fields-IsByte path (find_slash path 0 (length path) none) h b k
    ]
