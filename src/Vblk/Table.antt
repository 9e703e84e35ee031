-- ===== src/Vblk/Table.antt =====
-- Lookup in the table of devices (src/vblk.c).
use mathlib.Core.Option.{none-ne-some}
use guppy.Prelude.{
  ℕ, ◌+◌, ◌≤◌, ◌<◌, ◌≡◌, inl, inr, refl, sym, Bool, true, false, Option, none, some, arith, ◌&&◌,
  List, [], ◌∷◌, ◌++◌, length, length-append, max, if◌then◌else◌, Bool-cases, leb,
}
use guppy.Ascii.{Bytes, same, same-eq}
use guppy.Vblk.{
  Vblk, is_blank, has_name, vblk_by_name, behind, put_named, put_free, vblk_max, put_last, placed,
  vblk_register,
}

-- In `t'`, the entry is found under its name, and the other names find what they find in `t`.
abbrev pub Puts : List Vblk → List Vblk → Vblk → Type 0
Puts t t' entry =
    (name : Bytes)
    → vblk_by_name t' name ≡ (if same entry.name name then some entry else vblk_by_name t name)

-- Two tests that exclude each other commute.
swap_tests {ℓ} :
    {A : Type ℓ} (b c : Bool) (x y z : A)
    → (b && c) ≡ false
    → (if b then x else if c then y else z) ≡ (if c then y else if b then x else z)
swap_tests true true x y z h = ground arith
swap_tests true false x y z h = refl
swap_tests false true x y z h = refl
swap_tests false false x y z h = refl

-- A slot in use has one name only.
other_name : (e : Vblk) (m n : Bytes) → has_name e m ≡ false → (has_name e n && same m n) ≡ false
unfolding has_name
other_name e m n h = elim (Bool-cases (same m n)) [
  | inl t ↦ let eq : m ≡ n = same-eq m n t in rw (sym eq) (ground (arith, h))
  | inr t ↦ ground arith
]

Puts-behind :
    (e entry : Vblk) (t t' : List Vblk)
    → has_name e entry.name ≡ false
    → Puts t t' entry
    → Puts (e ∷ t) (e ∷ t') entry
unfolding vblk_by_name
Puts-behind e entry t t' h p name = rw (p name) (
    swap_tests (has_name e name) (same entry.name name) (some e) (some entry) (vblk_by_name t name)
      (other_name e entry.name name h))

-- The entry replaces a slot that no other name finds.
Puts-here :
    (e entry : Vblk) (t : List Vblk)
    → is_blank entry.name ≡ false
    → ((name : Bytes) → same entry.name name ≡ false → has_name e name ≡ false)
    → Puts (e ∷ t) (entry ∷ t) entry
unfolding vblk_by_name has_name
Puts-here e entry t h free name = elim (Bool-cases (same entry.name name)) [
  | inl s ↦ rw (h, s)
  | inr s ↦ rw (h, s, free name s)
]

-- What the loops over the table have to find for the entry.
abbrev Placed : List Vblk → Vblk → Option (List Vblk × ℕ) → Type 0
Placed t entry none = Unit {0}
Placed t entry (some (t', i)) = Puts t t' entry × (length t' ≡ length t) × (i < length t)

Placed-behind :
    (e entry : Vblk) (t : List Vblk) (o : Option (List Vblk × ℕ))
    → has_name e entry.name ≡ false
    → Placed t entry o
    → Placed (e ∷ t) entry (behind e o)
Placed-behind e entry t none h p = tt
Placed-behind e entry t (some (t', i)) h (p, l, k) =
    (Puts-behind e entry t t' h p, omega (arith, l), omega (arith, k))

named_here :
    (e entry : Vblk) (name : Bytes)
    → has_name e entry.name ≡ true
    → same entry.name name ≡ false
    → has_name e name ≡ false
unfolding has_name
named_here e entry name h s =
    let eq : e.name ≡ entry.name = same-eq e.name entry.name (ground arith) in
    rw (eq, s) (ground arith)

put_named-Placed :
    (t : List Vblk) (entry : Vblk)
    → is_blank entry.name ≡ false
    → Placed t entry (put_named t entry)
unfolding put_named
put_named-Placed [] entry h = tt
put_named-Placed (e ∷ t) entry h =
    let rest = put_named-Placed t entry h in
    elim (Bool-cases (has_name e entry.name)) [
      | inl q ↦
          rw q (Puts-here e entry t h (λ name s. named_here e entry name q s), refl, omega arith)
      | inr q ↦ rw q (Placed-behind e entry t (put_named t entry) q rest)
    ]

-- A search that has found nothing.
missed {ℓ} :
    {A : Type ℓ} (b : Bool) (x : A) (r : Option A)
    → (if b then some x else r) ≡ none
    → (b ≡ false) × (r ≡ none)
missed true x r h = absurd (none-ne-some x (sym h))
missed false x r h = (refl, h)

behind-none : (e : Vblk) (o : Option (List Vblk × ℕ)) → behind e o ≡ none → o ≡ none
behind-none e none h = refl
behind-none e (some (t, i)) h = absurd (none-ne-some _ (sym h))

-- No slot has the name, if the loop of `find_by_name` has found none.
no_name :
    (t : List Vblk) (entry : Vblk) → put_named t entry ≡ none → vblk_by_name t entry.name ≡ none
unfolding put_named vblk_by_name
no_name [] entry h = refl
no_name (e ∷ t) entry h =
    let m = missed (has_name e entry.name) (entry ∷ t, 0) (behind e (put_named t entry)) h in
    rw m.0 (no_name t entry (behind-none e (put_named t entry) m.1))

pub free_here : (e : Vblk) (name : Bytes) → is_blank e.name ≡ true → has_name e name ≡ false
unfolding has_name
free_here e name h = rw h

put_free-Placed :
    (t : List Vblk) (entry : Vblk)
    → is_blank entry.name ≡ false
    → vblk_by_name t entry.name ≡ none
    → Placed t entry (put_free t entry)
unfolding put_free vblk_by_name
put_free-Placed [] entry h n = tt
put_free-Placed (e ∷ t) entry h n =
    let m = missed (has_name e entry.name) e (vblk_by_name t entry.name) n in
    let rest = put_free-Placed t entry h m.1 in
    elim (Bool-cases (is_blank e.name)) [
      | inl q ↦ rw q (Puts-here e entry t h (λ name s. free_here e name q), refl, omega arith)
      | inr q ↦ rw q (Placed-behind e entry t (put_free t entry) m.0 rest)
    ]

put_last-Puts :
    (t : List Vblk) (entry : Vblk)
    → is_blank entry.name ≡ false
    → vblk_by_name t entry.name ≡ none
    → Puts t (t ++ entry ∷ []) entry
unfolding vblk_by_name
put_last-Puts [] entry h n name = unfold has_name in rw h
put_last-Puts (e ∷ t) entry h n name =
    let m = missed (has_name e entry.name) e (vblk_by_name t entry.name) n in
    Puts-behind e entry t (t ++ entry ∷ []) m.0 (put_last-Puts t entry h m.1) name

-- Either the entry stands in the table, and no other name is affected, or the table stays as it was.
abbrev pub Registered : List Vblk → Vblk → List Vblk × Option ℕ → Type 0
Registered t entry (t', none) = (t' ≡ t) × (vblk_max ≤ length t)
Registered t entry (t', some i) =
    Puts t t' entry × (i < length t') × (length t' ≤ max (length t) vblk_max)

placed-Registered :
    (t : List Vblk) (entry : Vblk) (o : Option (List Vblk × ℕ)) (next : List Vblk × Option ℕ)
    → Placed t entry o
    → (o ≡ none → Registered t entry next)
    → Registered t entry (placed o next)
placed-Registered t entry none next p h = h refl
placed-Registered t entry (some (t', i)) next (p, l, k) h =
    (p, omega (arith, l, k), omega (arith, l))

put_last-Registered :
    (t : List Vblk) (entry : Vblk)
    → is_blank entry.name ≡ false
    → vblk_by_name t entry.name ≡ none
    → Registered t entry (put_last t entry)
unfolding put_last
put_last-Registered t entry h n = elim (Bool-cases (leb vblk_max (length t))) [
  | inl q ↦ rw q (refl, ground arith)
  | inr q ↦
      let l : length (t ++ entry ∷ []) ≡ length t + 1 = length-append t (entry ∷ []) in
      let few : length t < vblk_max = ground arith in
      rw q (put_last-Puts t entry h n, omega (arith, l), omega (arith, l, few))
]

-- A named entry is registered unless its name is new and all slots are taken: it is found under its
-- name afterwards, every other name finds what it found before, and its index is in the table, which
-- does not outgrow 256 slots; a table that could not take it is unchanged.
pub vblk_register-Registered :
    (t : List Vblk) (entry : Vblk)
    → is_blank entry.name ≡ false
    → Registered t entry (vblk_register (some entry) t)
unfolding vblk_register
vblk_register-Registered t entry h = rw h (
    placed-Registered t entry (put_named t entry) (placed (put_free t entry) (put_last t entry))
      (put_named-Placed t entry h)
      (λ e.
        let n = no_name t entry e in
        placed-Registered t entry (put_free t entry) (put_last t entry)
          (put_free-Placed t entry h n) (λ e'. put_last-Registered t entry h n)))
