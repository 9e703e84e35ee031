-- ===== src/Pkg/Plan/Valid.antt =====
-- A valid plan is closed under dependencies (src/pkg_plan.c: build_plan).
use mathlib.Core.Path.{subst}
use guppy.Prelude.{
  ℕ, zero, suc, ◌<◌, ◌≡◌, inl, inr, refl, sym, Bool, true, false, not, Option, none, some, arith,
  ◌==◌, ◌||◌, List, [], ◌∷◌, length, Bool-cases,
}
use guppy.Ascii.{Bytes}
use guppy.Deb.Depend.{DebDepGroup, Parsed, parsed, failed, deb_dep_parse}
use guppy.Pkg.Repo.{PkgRepoEntry, PkgRepo}
use guppy.Pkg.Choose.{Choice, choose_alt, present_as}
use guppy.Pkg.Plan.{
  Node, Plan, node_at, update, node_for, position, unless_failed, empty_plan, set_installed,
  set_visiting, disagrees, with_entry, linked, expand_group, expand_groups, with_groups,
  expand_field, leave, enter, expand, rooted, with_root, build_plan,
}
use guppy.Pkg.Plan.Kept.{Found, node_for-Found, Kept-trans}
use guppy.Pkg.Plan.Grown.{Call, Grows-update, expand-Grows}
use guppy.Pkg.Plan.Closed.{
  InPlan, ClosedEntry, ClosedNodes, position-Kept, update-NamesKept, ClosedNodes-NamesKept,
  ClosedNodes-update,
}
use guppy.Pkg.Plan.Settled.{
  SettledFor, AllDone, Settled-AllDone, node_for-Settled, SettledBut-update,
}
use guppy.Pkg.Plan.Expanded.{expand-Good}

-- A call that fails has marked the plan.
abbrev Marks : Plan × Bool → Type 0
Marks r = r.1 ≡ false → r.0.valid ≡ false

abbrev Marking : Call → Type 0
Marking rec = (ni : ℕ) (p : Plan) → Marks (rec ni p)

unless_failed-Marks :
    (r : Plan × Bool) (next : Plan → Plan × Bool)
    → Marks r
    → ((q : Plan) → Marks (next q))
    → Marks (unless_failed r next)
unless_failed-Marks (q, false) next m h = m
unless_failed-Marks (q, true) next m h = h q

linked-Marks :
    (rec : Call) (ni is_inst : ℕ) (o : Option (Plan × ℕ)) (p : Plan)
    → Marking rec
    → Marks (linked rec ni is_inst o p)
linked-Marks rec ni is_inst none p m = λ h. refl
linked-Marks rec ni is_inst (some (q, di)) p m = m di _

with_entry-Marks :
    (rec : Call) (ni : ℕ) (e : PkgRepoEntry) (g : DebDepGroup) (c : Choice)
    (o : Option PkgRepoEntry) (p : Plan)
    → Marking rec
    → Marks (with_entry rec ni e g c o p)
with_entry-Marks rec ni e g c none p m = λ h. refl
with_entry-Marks rec ni e g c (some d) p m =
    elim (Bool-cases (disagrees (node_at (position d.package_name p.n) p.n) c.chosen_alt)) [
      | inl a ↦ rw a (λ h. refl)
      | inr a ↦ rw a (linked-Marks rec ni c.is_inst (node_for p d) p m)
    ]

leave-Marks : (ni : ℕ) (r : Plan × Bool) → Marks r → Marks (leave ni r)
unfolding leave
leave-Marks ni (q, ok) m = m

module _ (repo : PkgRepo) (rec : Call) (marks : Marking rec) where
  expand_groups-Marks :
      (ni : ℕ) (e : PkgRepoEntry) (gs : List DebDepGroup) (p : Plan)
      → Marks (expand_groups repo rec ni e gs p)
  unfolding expand_groups expand_group
  expand_groups-Marks ni e [] p = λ h. absurd (ground (arith, h))
  expand_groups-Marks ni e (g ∷ gs) p =
      unless_failed-Marks (expand_group repo rec ni e g p) (expand_groups repo rec ni e gs)
        (elim (Bool-cases ((choose_alt repo g).is_inst == 2)) [
          | inl a ↦ rw a (λ h. absurd (ground (arith, h)))
          | inr a ↦ rw a (with_entry-Marks rec ni e g (choose_alt repo g) _ p marks)
        ])
        (expand_groups-Marks ni e gs)

  with_groups-Marks :
      (ni : ℕ) (e : PkgRepoEntry) (r : Parsed (List DebDepGroup)) (p : Plan)
      → Marks (with_groups repo rec ni e r p)
  with_groups-Marks ni e (parsed gs) p = expand_groups-Marks ni e gs p
  with_groups-Marks ni e (failed code) p = λ h. refl

  expand_field-Marks :
      (ni : ℕ) (e : PkgRepoEntry) (s : Bytes) (p : Plan) → Marks (expand_field repo rec ni e s p)
  unfolding expand_field
  expand_field-Marks ni e [] p = λ h. absurd (ground (arith, h))
  expand_field-Marks ni e (c ∷ cs) p = with_groups-Marks ni e (deb_dep_parse (c ∷ cs)) p

  enter-Marks : (ni : ℕ) (o : Option Node) (p : Plan) → Marks (enter repo rec ni o p)
  enter-Marks ni none p = λ h. absurd (ground (arith, h))
  enter-Marks ni (some n) p = elim (Bool-cases (n.done || n.visiting)) [
    | inl a ↦ rw a (λ h. absurd (ground (arith, h)))
    | inr a ↦
        let p1 = record p { n = update ni (set_visiting true) p.n } in
        rw a (
          leave-Marks ni _ (
            unless_failed-Marks (expand_field repo rec ni n.e n.e.pre_depends p1)
              (expand_field repo rec ni n.e n.e.depends)
              (expand_field-Marks ni n.e n.e.pre_depends p1)
              (expand_field-Marks ni n.e n.e.depends)))
  ]

expand-Marks : (repo : PkgRepo) (rounds : ℕ) → Marking (expand repo rounds)
unfolding expand
expand-Marks repo zero ni p = λ h. refl
expand-Marks repo (suc rounds) ni p =
    enter-Marks repo (expand repo rounds) (expand-Marks repo rounds) ni (node_at ni p.n) p

valid-ok : (r : Plan × Bool) → Marks r → r.0.valid ≡ true → r.1 ≡ true
valid-ok (q, true) m v = refl
valid-ok (q, false) m v = absurd (ground (arith, m refl, v))

abbrev pub AllClosed : PkgRepo → (plan : List Node) → List Node → Type 0
AllClosed repo plan [] = Unit {0}
AllClosed repo plan (n ∷ ns) = ClosedEntry repo plan n.e × AllClosed repo plan ns

AllDone-AllClosed :
    (repo : PkgRepo) (plan ns : List Node)
    → AllDone ns
    → ClosedNodes repo plan ns
    → AllClosed repo plan ns
AllDone-AllClosed repo plan [] d c = tt
AllDone-AllClosed repo plan (n ∷ ns) d c = (c.0 d.0, AllDone-AllClosed repo plan ns d.1 c.1)

-- The requested package is in the plan.
abbrev pub HasRoot : Option PkgRepoEntry → List Node → Type 0
HasRoot none ns = ⊥
HasRoot (some e) ns = InPlan ns e

abbrev pub Complete : PkgRepo → Option PkgRepoEntry → Plan × Option ℕ → Type 0
Complete repo o (p, ri) = HasRoot o p.n × AllClosed repo p.n p.n

rooted-Complete :
    (repo : PkgRepo) (name : Bytes) (e : PkgRepoEntry) (o : Option (Plan × ℕ))
    → Found empty_plan e o
    → SettledFor repo o
    → (rooted repo name e o).0.valid ≡ true
    → Complete repo (some e) (rooted repo name e o)
rooted-Complete repo name e none f s v = absurd (ground (arith, v))
rooted-Complete repo name e (some (q, ri)) f s v =
    let b = not (present_as (repo.state_lookup name) e == 0) in
    let q1 = record q { n = update ri (set_installed b) q.n } in
    let r = expand repo 513 ri q1 in
    let ok = valid-ok r (expand-Marks repo 513 ri q1) v in
    let c =
      ClosedNodes-NamesKept repo q.n q1.n q1.n
        (update-NamesKept ri (set_installed b) q.n (λ m. refl))
        (ClosedNodes-update repo q.n ri (set_installed b) q.n (λ m. (refl, refl)) s.0) in
    let t = SettledBut-update ri (set_installed b) q.n (λ m. refl) ri s.1 in
    let good = expand-Good repo 513 ri q1 c t ok in
    let k1 = (Grows-update ri b q).kept in
    let k2 = (expand-Grows repo 513 ri q1).kept in
    let none_visiting = Kept-trans [] q1.n r.0.n (Kept-trans [] q.n q1.n f.grows.kept k1) k2 in
    (
      position-Kept e.package_name q1.n r.0.n k2 (
          position-Kept e.package_name q.n q1.n k1
            (subst (λ i. i < length q.n) (sym f.place) f.inside)),
      AllDone-AllClosed repo r.0.n r.0.n (Settled-AllDone r.0.n good.1 none_visiting) good.0,
    )

with_root-Complete :
    (repo : PkgRepo) (name : Bytes) (o : Option PkgRepoEntry)
    → (with_root repo name o).0.valid ≡ true
    → Complete repo o (with_root repo name o)
with_root-Complete repo name none v = absurd (ground (arith, v))
with_root-Complete repo name (some e) v =
    rooted-Complete repo name e (node_for empty_plan e) (node_for-Found empty_plan e)
      (node_for-Settled repo empty_plan e tt tt (refl, tt)) v

-- A plan that build_plan calls valid has the requested package, and for every group of the
-- dependencies and pre-dependencies of each of its packages, the package chosen for that group, but
-- for the groups that the target satisfies with a package the repository has not. So cycles,
-- alternatives and virtual packages leave no dependency out.
pub build_plan-Complete :
    (repo : PkgRepo) (name : Bytes)
    → (build_plan repo name).0.valid ≡ true
    → Complete repo (repo.find_best name none none) (build_plan repo name)
unfolding build_plan
build_plan-Complete repo name v = with_root-Complete repo name (repo.find_best name none none) v
