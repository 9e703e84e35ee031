-- ===== src/Vblk/Open.antt =====
-- Opening a device by its name or key (src/vblk.c: vblk_open).
use mathlib.Core.Option.{some-injective, none-ne-some}
use mathlib.Core.Path.{subst}
use guppy.Prelude.{
  ◌≡◌, ◌≢◌, ◌⊎◌, inl, inr, refl, sym, ap, ◌∙◌, Bool, true, false, not, Option, none, some, arith,
  ◌==◌, ◌&&◌, ◌||◌, List, [], ◌∷◌, ◌++◌, if◌then◌else◌, Bool-cases,
}
use guppy.Ascii.{Bytes, codes, same, same-eq}
use guppy.Vblk.{Vblk, is_blank, suffix_of}

-- The test of the first loop: `e->name` or `e->dev` is the key.
abbrev pub has_key : Bytes → Vblk → Bool
has_key key e = not (is_blank e.name) && (same e.name key || not (is_blank e.dev) && same e.dev key)

abbrev pub has_base : Bytes → Vblk → Bool
has_base base e = same e.name base

-- The body of both loops: the first match decides, and a device without a size is rejected.
abbrev pub sized : Vblk → Option Vblk
sized e = if e.lba_size == 0 then none else some e

-- A loop: `none` if it runs to its end, else what it returns.
unfoldable pub first_match : (Vblk → Bool) → List Vblk → Option (Option Vblk)
first_match test [] = none
first_match test (e ∷ es) =
    let rest = first_match test es in if test e then some (sized e) else rest

abbrev pub returned : Option (Option Vblk) → Option Vblk → Option Vblk
returned none next = next
returned (some r) next = r

-- `base_of`, where it differs from the key.
abbrev pub base_of : Bytes → Option Bytes
base_of key = suffix_of (codes "/dev/") key

abbrev pub by_base : List Vblk → Option Bytes → Option Vblk
by_base t none = none
by_base t (some base) = returned (first_match (has_base base) t) none

-- A NULL key is `none`.
unfoldable pub vblk_open : Option Bytes → List Vblk → Option Vblk
vblk_open none t = none
vblk_open (some key) t =
    if is_blank key then none else returned (first_match (has_key key) t) (by_base t (base_of key))

-- What an opened device has.
abbrev Opens : (Vblk → Type 0) → Option Vblk → Type 0
Opens P none = Unit {0}
Opens P (some e) = P e × (e.lba_size ≢ 0)

sized-Opens : (P : Vblk → Type 0) (e : Vblk) → P e → Opens P (sized e)
sized-Opens P e p = elim (Bool-cases (e.lba_size == 0)) [
  | inl z ↦ rw z tt
  | inr z ↦ rw z (p, ground arith)
]

-- The key of a device: its name, the key of its disk, or "/dev/" and its name.
abbrev pub IsKey : Bytes → Vblk → Type 0
IsKey key e = (e.name ≡ key) ⊎ (e.dev ≡ key) ⊎ (codes "/dev/" ++ e.name ≡ key)

-- What a loop may return.
abbrev Returns : (Vblk → Type 0) → Option (Option Vblk) → Type 0
Returns P none = Unit {0}
Returns P (some r) = Opens P r

first_match-Returns :
    (P : Vblk → Type 0) (test : Vblk → Bool)
    → ((e : Vblk) → test e ≡ true → P e)
    → (t : List Vblk) → Returns P (first_match test t)
unfolding first_match
first_match-Returns P test h [] = tt
first_match-Returns P test h (e ∷ es) =
    let rest = first_match-Returns P test h es in
    elim (Bool-cases (test e)) [ inl q ↦ rw q (sized-Opens P e (h e q)) | inr q ↦ rw q rest ]

returned-Opens :
    (P : Vblk → Type 0) (r : Option (Option Vblk)) (next : Option Vblk)
    → Returns P r
    → Opens P next
    → Opens P (returned r next)
returned-Opens P none next a b = b
returned-Opens P (some r) next a b = a

suffix_of-append : (p n s : Bytes) → suffix_of p n ≡ some s → p ++ s ≡ n
unfolding suffix_of
suffix_of-append [] n s h = sym (some-injective _ _ h)
suffix_of-append (c ∷ cs) [] s h = absurd (none-ne-some s h)
suffix_of-append (c ∷ cs) (x ∷ xs) s h = elim (Bool-cases (x == c)) [
  | inl e ↦
      let same_head : x ≡ c = ground arith in
      let rest : suffix_of cs xs ≡ some s = when_true (x == c) e h in
      rw (suffix_of-append cs xs s rest, same_head)
  | inr e ↦ absurd (none-ne-some s (when_false (x == c) e h))
]
  where
    when_true :
        (b : Bool)
        → b ≡ true
        → (if b then suffix_of cs xs else none) ≡ some s
        → suffix_of cs xs ≡ some s
    when_true true e h = h
    when_true false e h = absurd (none-ne-some s h)

    when_false :
        (b : Bool) → b ≡ false → (if b then suffix_of cs xs else none) ≡ some s → none ≡ some s
    when_false true e h = ground arith
    when_false false e h = h

has_key-IsKey : (key : Bytes) (e : Vblk) → has_key key e ≡ true → IsKey key e
has_key-IsKey key e h = elim (Bool-cases (same e.name key)) [
  | inl q ↦ inl (same-eq e.name key q)
  | inr q ↦ inr (inl (same-eq e.dev key (ground arith)))
]

by_base-Opens :
    (key : Bytes) (t : List Vblk) (base : Option Bytes)
    → base_of key ≡ base
    → Opens (IsKey key) (by_base t base)
by_base-Opens key t none e = tt
by_base-Opens key t (some base) e =
    returned-Opens (IsKey key) (first_match (has_base base) t) none
      (first_match-Returns (IsKey key) (has_base base)
        (λ d h. inr (
          inr
            (ap (λ n. codes "/dev/" ++ n) (same-eq d.name base h) ∙ suffix_of-append _ key base e)))
        t)
      tt

open-Opens : (key : Bytes) (t : List Vblk) → Opens (IsKey key) (vblk_open (some key) t)
unfolding vblk_open
open-Opens key t = elim (Bool-cases (is_blank key)) [
  | inl b ↦ rw b tt
  | inr b ↦ rw b (
      returned-Opens (IsKey key) (first_match (has_key key) t) (by_base t (base_of key))
        (first_match-Returns (IsKey key) (has_key key) (has_key-IsKey key) t)
        (by_base-Opens key t (base_of key) refl))
]

-- A device that vblk_open returns has a size, and the key is its name, the key of its disk, or its
-- name behind "/dev/".
pub vblk_open-IsKey :
    (key : Bytes) (t : List Vblk) (e : Vblk)
    → vblk_open (some key) t ≡ some e
    → IsKey key e × (e.lba_size ≢ 0)
vblk_open-IsKey key t e h = subst (Opens (IsKey key)) h (open-Opens key t)
