-- ===== src/Pkg/Plan/Closed.antt =====
-- What it means that a plan is closed under dependencies (src/pkg_plan.c: expand).
use mathlib.Core.Option.{some-injective}
use mathlib.Core.Path.{subst}
use guppy.Prelude.{
  ℕ, zero, suc, ◌<◌, ◌≡◌, ◌⊎◌, inl, inr, sym, ap, ◌∙◌, Bool, true, false, some, arith, ◌||◌, List,
  [], ◌∷◌, ◌++◌, length, Bool-cases,
}
use guppy.Ascii.{Bytes, same}
use guppy.Deb.Depend.{DebDepGroup, Parsed, parsed, failed, deb_dep_parse}
use guppy.Pkg.Repo.{PkgRepoEntry, PkgRepo}
use guppy.Pkg.Choose.{choose_alt}
use guppy.Pkg.Plan.{Node, node_at, update, new_node, position, set_done}
use guppy.Pkg.Plan.Kept.{Kept}

abbrev pub InPlan : List Node → PkgRepoEntry → Type 0
InPlan ns d = position d.package_name ns < length ns

-- A node is done or being visited.
abbrev pub settled : Node → Bool
settled n = n.done || n.visiting

abbrev pub Settled : List Node → Type 0
Settled [] = Unit {0}
Settled (n ∷ ns) = (settled n ≡ true) × Settled ns

-- All nodes but the one at `k`.
abbrev pub SettledBut : (k : ℕ) → List Node → Type 0
SettledBut k [] = Unit {0}
SettledBut zero (n ∷ ns) = Settled ns
SettledBut (suc k) (n ∷ ns) = (settled n ≡ true) × SettledBut k ns

module _ (repo : PkgRepo) where
  -- The group is satisfied by the target and the repository has nothing for it, or what is chosen
  -- for it is in the plan.
  abbrev pub Met : List Node → DebDepGroup → Type 0
  Met ns g =
      ((choose_alt repo g).is_inst ≡ 2)
      ⊎ ((d : PkgRepoEntry) × ((choose_alt repo g).entry ≡ some d) × InPlan ns d)

  abbrev pub AllMet : List Node → List DebDepGroup → Type 0
  AllMet ns [] = Unit {0}
  AllMet ns (g ∷ gs) = Met ns g × AllMet ns gs

  abbrev pub MetParsed : List Node → Parsed (List DebDepGroup) → Type 0
  MetParsed ns (parsed gs) = AllMet ns gs
  MetParsed ns (failed code) = ⊥

  abbrev pub MetField : List Node → Bytes → Type 0
  MetField ns [] = Unit {0}
  MetField ns (c ∷ cs) = MetParsed ns (deb_dep_parse (c ∷ cs))

  -- Every dependency of an entry is met.
  abbrev pub ClosedEntry : List Node → PkgRepoEntry → Type 0
  ClosedEntry ns e = MetField ns e.pre_depends × MetField ns e.depends

  abbrev pub ClosedNodes : (plan : List Node) → List Node → Type 0
  ClosedNodes plan [] = Unit {0}
  ClosedNodes plan (n ∷ ns) = (n.done ≡ true → ClosedEntry plan n.e) × ClosedNodes plan ns

-- A package that is in one plan is in the other.
abbrev pub NamesKept : List Node → List Node → Type 0
NamesKept ns ms = (name : Bytes) → position name ns < length ns → position name ms < length ms

pub position-Kept :
    (name : Bytes) (ns ms : List Node)
    → Kept ns ms
    → position name ns < length ns
    → position name ms < length ms
unfolding position
position-Kept name [] ms k h = absurd (omega arith)
position-Kept name (n ∷ ns) [] k h = absurd k
position-Kept name (n ∷ ns) (m ∷ ms) k h = elim (Bool-cases (same n.e.package_name name)) [
  | inl e ↦
      let e' : same m.e.package_name name ≡ true =
        ap (λ (x : PkgRepoEntry). same x.package_name name) k.0.same_entry ∙ e in
      rw e' (omega arith)
  | inr e ↦
      let e' : same m.e.package_name name ≡ false =
        ap (λ (x : PkgRepoEntry). same x.package_name name) k.0.same_entry ∙ e in
      let h' : suc (position name ns) < suc (length ns) = rw e at h in
      let r = position-Kept name ns ms k.1 (omega (arith, h')) in rw e' (omega (arith, r))
]

pub Kept-NamesKept : (ns ms : List Node) → Kept ns ms → NamesKept ns ms
Kept-NamesKept ns ms k name h = position-Kept name ns ms k h

pub update-NamesKept :
    (i : ℕ) (f : Node → Node) (ns : List Node)
    → ((n : Node) → (f n).e ≡ n.e)
    → NamesKept ns (update i f ns)
unfolding position
update-NamesKept i f [] k name h = h
update-NamesKept zero f (n ∷ ns) k name h =
    let e = ap (λ (x : PkgRepoEntry). same x.package_name name) (k n) in rw e h
update-NamesKept (suc i) f (n ∷ ns) k name h = elim (Bool-cases (same n.e.package_name name)) [
  | inl e ↦ rw e (omega arith)
  | inr e ↦
      let h' : suc (position name ns) < suc (length ns) = rw e at h in
      let r = update-NamesKept i f ns k name (omega (arith, h')) in rw e (omega (arith, r))
]

module _ (repo : PkgRepo) where
  pub AllMet-NamesKept :
      (ns ms : List Node) (gs : List DebDepGroup)
      → NamesKept ns ms
      → AllMet repo ns gs
      → AllMet repo ms gs
  AllMet-NamesKept ns ms [] k h = tt
  AllMet-NamesKept ns ms (g ∷ gs) k h = (met ns ms g k h.0, AllMet-NamesKept ns ms gs k h.1)
    where
      met : (ns ms : List Node) (g : DebDepGroup) → NamesKept ns ms → Met repo ns g → Met repo ms g
      met ns ms g k (inl a) = inl a
      met ns ms g k (inr (d, e, i)) = inr (d, e, k d.package_name i)

  MetParsed-NamesKept :
      (ns ms : List Node) (r : Parsed (List DebDepGroup))
      → NamesKept ns ms
      → MetParsed repo ns r
      → MetParsed repo ms r
  MetParsed-NamesKept ns ms (parsed gs) k h = AllMet-NamesKept ns ms gs k h
  MetParsed-NamesKept ns ms (failed code) k h = h

  pub MetField-NamesKept :
      (ns ms : List Node) (s : Bytes) → NamesKept ns ms → MetField repo ns s → MetField repo ms s
  MetField-NamesKept ns ms [] k h = tt
  MetField-NamesKept ns ms (c ∷ cs) k h = MetParsed-NamesKept ns ms (deb_dep_parse (c ∷ cs)) k h

  pub ClosedNodes-NamesKept :
      (ps qs ns : List Node) → NamesKept ps qs → ClosedNodes repo ps ns → ClosedNodes repo qs ns
  ClosedNodes-NamesKept ps qs [] k h = tt
  ClosedNodes-NamesKept ps qs (n ∷ ns) k h = (
    λ d. let (a, b) = h.0 d in (MetField-NamesKept ps qs _ k a, MetField-NamesKept ps qs _ k b),
    ClosedNodes-NamesKept ps qs ns k h.1,
  )

  -- A change that neither renames a node nor makes it done.
  pub ClosedNodes-update :
      (plan : List Node) (i : ℕ) (f : Node → Node) (ns : List Node)
      → ((n : Node) → ((f n).e ≡ n.e) × ((f n).done ≡ n.done))
      → ClosedNodes repo plan ns
      → ClosedNodes repo plan (update i f ns)
  ClosedNodes-update plan i f [] k h = tt
  ClosedNodes-update plan zero f (n ∷ ns) k h =
      (λ d. subst (ClosedEntry repo plan) (sym (k n).0) (h.0 (sym (k n).1 ∙ d)), h.1)
  ClosedNodes-update plan (suc i) f (n ∷ ns) k h = (h.0, ClosedNodes-update plan i f ns k h.1)

  pub ClosedNodes-set_done :
      (plan : List Node) (i : ℕ) (n : Node) (ns : List Node)
      → node_at i ns ≡ some n
      → ClosedEntry repo plan n.e
      → ClosedNodes repo plan ns
      → ClosedNodes repo plan (update i set_done ns)
  ClosedNodes-set_done plan i n [] e c h = tt
  ClosedNodes-set_done plan zero n (m ∷ ns) e c h =
      (λ d. subst (λ (x : Node). ClosedEntry repo plan x.e) (sym (some-injective m n e)) c, h.1)
  ClosedNodes-set_done plan (suc i) n (m ∷ ns) e c h =
      (h.0, ClosedNodes-set_done plan i n ns e c h.1)

  pub ClosedNodes-append :
      (plan ns : List Node) (e : PkgRepoEntry)
      → ClosedNodes repo plan ns
      → ClosedNodes repo plan (ns ++ new_node e ∷ [])
  ClosedNodes-append plan [] e h = (λ d. absurd (ground (arith, d)), tt)
  ClosedNodes-append plan (n ∷ ns) e h = (h.0, ClosedNodes-append plan ns e h.1)
