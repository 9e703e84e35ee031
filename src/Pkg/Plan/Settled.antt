-- ===== src/Pkg/Plan/Settled.antt =====
-- Nodes that are done or being visited (src/pkg_plan.c: expand).
use mathlib.Core.Option.{some-injective, none-ne-some}
use mathlib.Core.Path.{subst}
use guppy.Prelude.{
  ℕ, zero, suc, ◌≤◌, ◌≡◌, inl, inr, refl, sym, ap, ◌∙◌, Bool, true, false, Option, none, some,
  arith, ◌||◌, List, [], ◌∷◌, ◌++◌, length, Bool-cases, ltb, leb,
}
use guppy.Pkg.Repo.{PkgRepoEntry, PkgRepo}
use guppy.Pkg.Plan.{
  Node, Plan, node_at, update, new_node, node_for, position, set_visiting, set_done,
}
use guppy.Pkg.Plan.Kept.{position-upto, Kept, NoneVisiting}
use guppy.Pkg.Plan.Closed.{
  settled, Settled, SettledBut, ClosedNodes, ClosedNodes-append, ClosedNodes-NamesKept,
  Kept-NamesKept,
}

pub Settled-But : (k : ℕ) (ns : List Node) → Settled ns → SettledBut k ns
Settled-But k [] h = tt
Settled-But zero (n ∷ ns) h = h.1
Settled-But (suc k) (n ∷ ns) h = (h.0, Settled-But k ns h.1)

pub Settled-append :
    (ns : List Node) (e : PkgRepoEntry)
    → Settled ns
    → SettledBut (length ns) (ns ++ new_node e ∷ [])
Settled-append [] e h = tt
Settled-append (n ∷ ns) e h = (h.0, Settled-append ns e h.1)

-- The node that was left out.
pub SettledBut-none : (k : ℕ) (ns : List Node) → node_at k ns ≡ none → SettledBut k ns → Settled ns
SettledBut-none k [] e h = tt
SettledBut-none zero (n ∷ ns) e h = absurd (none-ne-some n (sym e))
SettledBut-none (suc k) (n ∷ ns) e h = (h.0, SettledBut-none k ns e h.1)

pub SettledBut-some :
    (k : ℕ) (n : Node) (ns : List Node)
    → node_at k ns ≡ some n
    → settled n ≡ true
    → SettledBut k ns
    → Settled ns
SettledBut-some k n [] e s h = tt
SettledBut-some zero n (m ∷ ns) e s h = (ap settled (some-injective m n e) ∙ s, h)
SettledBut-some (suc k) n (m ∷ ns) e s h = (h.0, SettledBut-some k n ns e s h.1)

pub SettledBut-update :
    (k : ℕ) (f : Node → Node) (ns : List Node)
    → ((n : Node) → settled (f n) ≡ settled n)
    → (j : ℕ) → SettledBut j ns
    → SettledBut j (update k f ns)
SettledBut-update k f [] p j h = tt
SettledBut-update zero f (n ∷ ns) p zero h = h
SettledBut-update zero f (n ∷ ns) p (suc j) h = (p n ∙ h.0, h.1)
SettledBut-update (suc k) f (n ∷ ns) p zero h = Settled-update k f ns p h
  where
    Settled-update :
        (k : ℕ) (f : Node → Node) (ns : List Node)
        → ((n : Node) → settled (f n) ≡ settled n)
        → Settled ns
        → Settled (update k f ns)
    Settled-update k f [] p h = tt
    Settled-update zero f (n ∷ ns) p h = (p n ∙ h.0, h.1)
    Settled-update (suc k) f (n ∷ ns) p h = (h.0, Settled-update k f ns p h.1)
SettledBut-update (suc k) f (n ∷ ns) p (suc j) h = (h.0, SettledBut-update k f ns p j h.1)

-- A visit begins.
pub Settled-begin :
    (k : ℕ) (ns : List Node) → SettledBut k ns → Settled (update k (set_visiting true) ns)
Settled-begin k [] h = tt
Settled-begin zero (n ∷ ns) h = (or_true n.done, h)
  where
    or_true : (b : Bool) → (b || true) ≡ true
    or_true b = ground arith
Settled-begin (suc k) (n ∷ ns) h = (h.0, Settled-begin k ns h.1)

-- A visit ends, with its node done.
pub Settled-end :
    (k : ℕ) (ns : List Node)
    → Settled ns
    → Settled (update k (set_visiting false) (update k set_done ns))
Settled-end k [] h = tt
Settled-end zero (n ∷ ns) h = (refl, h.1)
Settled-end (suc k) (n ∷ ns) h = (h.0, Settled-end k ns h.1)

-- What node_for keeps.
abbrev pub SettledFor : PkgRepo → Option (Plan × ℕ) → Type 0
SettledFor repo none = Unit {0}
SettledFor repo (some (q, di)) = ClosedNodes repo q.n q.n × SettledBut di q.n

-- Without a visit, all nodes are done.
abbrev pub AllDone : List Node → Type 0
AllDone [] = Unit {0}
AllDone (n ∷ ns) = (n.done ≡ true) × AllDone ns

pub Settled-AllDone : (ns : List Node) → Settled ns → NoneVisiting ns → AllDone ns
Settled-AllDone [] s v = tt
Settled-AllDone (n ∷ ns) s v = (first n.done n.visiting s.0 v.0, Settled-AllDone ns s.1 v.1)
  where
    first : (a b : Bool) → (a || b) ≡ true → b ≡ false → a ≡ true
    first a b h h' = ground arith

pub node_for-Settled :
    (repo : PkgRepo) (p : Plan) (d : PkgRepoEntry)
    → ClosedNodes repo p.n p.n
    → Settled p.n
    → Kept p.n (p.n ++ new_node d ∷ [])
    → SettledFor repo (node_for p d)
unfolding node_for
node_for-Settled repo p d c s k =
    elim (Bool-cases (ltb (position d.package_name p.n) (length p.n))) [
      | inl a ↦ rw a (c, Settled-But _ p.n s)
      | inr a ↦ elim (Bool-cases (leb 512 (length p.n))) [
        | inl b ↦ rw (a, b) tt
        | inr b ↦
            let u = position-upto p.n d.package_name in
            let l : length p.n ≡ position d.package_name p.n = at_end _ _ u a in
            rw (a, b)
              (
                ClosedNodes-append repo _ p.n d
                    (ClosedNodes-NamesKept repo p.n _ p.n (Kept-NamesKept _ _ k) c),
                subst (λ i. SettledBut i (p.n ++ new_node d ∷ [])) l (Settled-append p.n d s),
              )
      ]
    ]
  where
    at_end : (i m : ℕ) → i ≤ m → ltb i m ≡ false → m ≡ i
    at_end i m h h' = ground arith
