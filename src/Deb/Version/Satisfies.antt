-- ===== src/Deb/Version/Satisfies.antt =====
-- Version relations (deb_version_satisfies, deb_version.c).
use Prim.Native.String.{String}
use Prim.Native.Nat.{Ordering, lt, eq, gt}
use mathlib.Core.Option.{some-injective}
use guppy.Prelude.{
  ℕ, ◌+◌, ◌≤◌, ◌≡◌, inl, inr, refl, sym, ap, ◌∙◌, Bool, true, false, not, Option, some, arith, ◌&&◌,
  ◌||◌, Bool-cases,
}
use guppy.Ascii.{Bytes, same, codes}
use guppy.Deb.Version.Spec.{Chain, swap}
use guppy.Deb.Version.Compare.{is_lt, is_gt, is_empty, op_holds, deb_version_satisfies}
use guppy.Deb.Version.Order.{
  IsText, size, version_order, deb_version_compare-version_order, version_order-Chain,
  version_order-swap,
}

-- An operator as the caller passes it.
abbrev pub op : String → Option Bytes
op s = some (codes s)

relation :
    (o : Bytes) (n : ℕ) (a b : Option Bytes)
    → IsText a
    → IsText b
    → size a + size b + 2 ≤ n
    → (is_empty (some o) || is_empty b) ≡ false
    → deb_version_satisfies a (some o) b ≡ some (op_holds o (version_order n a b))
relation o n a b ca cb hn h =
    unfold deb_version_satisfies in rw (h, deb_version_compare-version_order n a b ca cb hn)

op_table :
    (o : Ordering)
    → (op_holds (codes "<=") o ≡ not (is_gt o))
      × (op_holds (codes ">=") o ≡ not (is_lt o))
      × (op_holds (codes ">>") o ≡ not (not (is_gt o)))
      × (op_holds (codes "<<") o ≡ not (not (is_lt o)))
      × (op_holds (codes "=") o ≡ not (is_gt o) && not (is_lt o))
unfolding op_holds same
op_table lt = (refl, refl, refl, refl, refl)
op_table eq = (refl, refl, refl, refl, refl)
op_table gt = (refl, refl, refl, refl, refl)

-- For a wanted version that is not empty, ">>" is the negation of "<=", "<<" that of ">=", and "="
-- holds where both "<=" and ">=" hold; all five return.
pub deb_version_satisfies-negation :
    (a b : Option Bytes)
    → IsText a
    → IsText b
    → is_empty b ≡ false
    → (below above : Bool) × (deb_version_satisfies a (op "<=") b ≡ some below)
      × (deb_version_satisfies a (op ">=") b ≡ some above)
      × (deb_version_satisfies a (op ">>") b ≡ some (not below))
      × (deb_version_satisfies a (op "<<") b ≡ some (not above))
      × (deb_version_satisfies a (op "=") b ≡ some (below && above))
deb_version_satisfies-negation a b ca cb h =
    let n = size a + size b + 2 in
    let o = version_order n a b in
    let t = op_table o in
    let r : (s : Bytes)
        → (is_empty (some s) || is_empty b) ≡ false
        → deb_version_satisfies a (some s) b ≡ some (op_holds s o) =
      λ s. relation s n a b ca cb (omega arith) in
    (
      not (is_gt o),
      not (is_lt o),
      r (codes "<=") h ∙ ap some t.0,
      r (codes ">=") h ∙ ap some t.1,
      r (codes ">>") h ∙ ap some t.2,
      r (codes "<<") h ∙ ap some t.3,
      r (codes "=") h ∙ ap some t.4,
    )

-- `r` compares the ends of two steps that `p` and `q` compare, in the other direction.
at_least :
    (p q r : Ordering)
    → Chain q p r
    → not (is_gt p) ≡ true
    → not (is_gt q) ≡ true
    → not (is_gt r) ≡ true
at_least gt q r h hp hq = ground arith
at_least lt gt r h hp hq = ground arith
at_least eq gt r h hp hq = ground arith
at_least lt lt r h hp hq = rw h
at_least lt eq r h hp hq = rw h
at_least eq lt r h hp hq = rw h
at_least eq eq r h hp hq = rw h

not_above : (o : Ordering) → not (is_gt (swap o)) ≡ not (is_lt o)
not_above lt = refl
not_above eq = refl
not_above gt = refl

is_above :
    (n : ℕ) (a b : Option Bytes)
    → IsText a
    → IsText b
    → size a + size b + 2 ≤ n
    → is_empty b ≡ false
    → deb_version_satisfies a (op ">=") b ≡ some (not (is_gt (version_order n b a)))
is_above n a b ca cb hn h =
    relation (codes ">=") n a b ca cb hn h
    ∙ rw (version_order-swap n a b, not_above, (op_table (version_order n a b)).1)

-- A lower bound of a lower bound is a lower bound: if ">=" holds between `a` and `b`, which is not
-- empty, and between `b` and `c`, then it holds between `a` and `c`.
pub deb_version_satisfies-Chain :
    (a b c : Option Bytes)
    → IsText a
    → IsText b
    → IsText c
    → is_empty b ≡ false
    → deb_version_satisfies a (op ">=") b ≡ some true
    → deb_version_satisfies b (op ">=") c ≡ some true
    → deb_version_satisfies a (op ">=") c ≡ some true
deb_version_satisfies-Chain a b c ca cb tc hb h k = elim (Bool-cases (is_empty c)) [
  | inl e ↦ unfold deb_version_satisfies in rw e
  | inr e ↦
      let n = size a + size b + size c + 2 in
      let up = some-injective _ _ (sym (is_above n a b ca cb (omega arith) hb) ∙ h) in
      let down = some-injective _ _ (sym (is_above n b c cb tc (omega arith) e) ∙ k) in
      is_above n a c ca tc (omega arith) e
      ∙ ap some (
          at_least (version_order n b a) (version_order n c b) (version_order n c a)
            (version_order-Chain n c b a) up down)
]
