-- ===== src/Pkg/Plan/Expanded.antt =====
-- A call of expand (src/pkg_plan.c) that succeeds leaves a closed plan.
use mathlib.Core.Path.{subst}
use mathlib.Core.Option.{some-injective, none-ne-some}
use guppy.Prelude.{
  ℕ, zero, suc, ◌<◌, ◌≡◌, inl, inr, refl, sym, ap, ◌∙◌, Bool, true, false, not, Option, none, some,
  arith, ◌==◌, ◌||◌, List, [], ◌∷◌, length, Bool-cases, ==_iff,
}
use guppy.Ascii.{Bytes}
use guppy.Deb.Depend.{DebDepGroup, Parsed, parsed, failed, deb_dep_parse}
use guppy.Pkg.Repo.{PkgRepoEntry, PkgRepo}
use guppy.Pkg.Choose.{Choice, choose_alt}
use guppy.Pkg.Plan.{
  Node, Plan, node_at, update, node_for, add_edge, position, unless_failed, set_installed,
  set_visiting, set_done, disagrees, with_entry, linked, expand_group, expand_groups, with_groups,
  expand_field, both_fields, leave, enter, expand,
}
use guppy.Pkg.Plan.Kept.{
  Kept, Kept-append, SameNode, Grows-trans, Found, node_for-Found, n-add_edge,
}
use guppy.Pkg.Plan.Grown.{
  Call, Growing, Grows-update, Grows-add_edge, expand_groups-Grows, expand_field-Grows,
  both_fields-Grows, expand-Grows,
}
use guppy.Pkg.Plan.Closed.{
  InPlan, Settled, SettledBut, Met, AllMet, MetParsed, MetField, ClosedEntry, ClosedNodes,
  position-Kept, Kept-NamesKept, update-NamesKept, AllMet-NamesKept, MetField-NamesKept,
  ClosedNodes-NamesKept, ClosedNodes-update, ClosedNodes-set_done,
}
use guppy.Pkg.Plan.Settled.{
  SettledBut-none, SettledBut-some, SettledBut-update, Settled-begin, Settled-end, SettledFor,
  node_for-Settled,
}

unless_failed-true :
    (r : Plan × Bool) (next : Plan → Plan × Bool)
    → (unless_failed r next).1 ≡ true
    → (r.1 ≡ true) × (unless_failed r next ≡ next r.0)
unless_failed-true (q, false) next h = absurd (ground (arith, h))
unless_failed-true (q, true) next h = (refl, refl)

node_at-Kept :
    (i : ℕ) (n : Node) (ns ms : List Node)
    → node_at i ns ≡ some n
    → Kept ns ms
    → (m : Node) × (node_at i ms ≡ some m) × SameNode n m
node_at-Kept i n [] ms e k = absurd (none-ne-some n e)
node_at-Kept zero n (x ∷ ns) [] e k = absurd k
node_at-Kept zero n (x ∷ ns) (m ∷ ms) e k =
    (m, refl, subst (λ y. SameNode y m) (some-injective x n e) k.0)
node_at-Kept (suc i) n (x ∷ ns) [] e k = absurd k
node_at-Kept (suc i) n (x ∷ ns) (m ∷ ms) e k = node_at-Kept i n ns ms e k.1

node_at-update :
    (i : ℕ) (f : Node → Node) (n : Node) (ns : List Node)
    → node_at i ns ≡ some n
    → node_at i (update i f ns) ≡ some (f n)
node_at-update i f n [] e = absurd (none-ne-some n e)
node_at-update zero f n (x ∷ ns) e = ap (λ y. some (f y)) (some-injective x n e)
node_at-update (suc i) f n (x ∷ ns) e = node_at-update i f n ns e

module _ (repo : PkgRepo) where
  -- Between two calls: what is done is closed, and nothing else is left but what is being visited.
  abbrev pub Good : Plan → Type 0
  Good p = ClosedNodes repo p.n p.n × Settled p.n

  abbrev pub Expands : Call → Type 0
  Expands rec =
      (ni : ℕ) (p : Plan)
      → ClosedNodes repo p.n p.n
      → SettledBut ni p.n
      → (rec ni p).1 ≡ true
      → Good (rec ni p).0

leave-ok : (ni : ℕ) (r : Plan × Bool) → (leave ni r).1 ≡ true → r.1 ≡ true
unfolding leave
leave-ok ni (q, ok) h = h

module _ (repo : PkgRepo) (rec : Call) (grows : Growing rec) (expands : Expands repo rec) where
  linked-Good :
      (ni is_inst : ℕ) (d : PkgRepoEntry) (o : Option (Plan × ℕ)) (p : Plan)
      → Found p d o
      → SettledFor repo o
      → (linked rec ni is_inst o p).1 ≡ true
      → Good repo (linked rec ni is_inst o p).0 × InPlan (linked rec ni is_inst o p).0.n d
  linked-Good ni is_inst d none p f s ok = absurd (ground (arith, ok))
  linked-Good ni is_inst d (some (q, di)) p f s ok =
      let b = not (is_inst == 0) in
      let q1 = record q { n = update di (set_installed b) q.n } in
      let q2 = add_edge q1 ni di in
      let c1 =
        ClosedNodes-NamesKept repo q.n q1.n q1.n (Kept-NamesKept _ _ (Grows-update di b q).kept)
          (ClosedNodes-update repo q.n di (set_installed b) q.n (λ n. (refl, refl)) s.0) in
      let s1 = SettledBut-update di (set_installed b) q.n (λ n. refl) di s.1 in
      let e = sym (n-add_edge q1 ni di) in
      let k =
        Grows-trans q q1 (rec di q2).0 (Grows-update di b q)
          (Grows-trans q1 q2 (rec di q2).0 (Grows-add_edge q1 ni di) (grows di q2)) in
      (
        expands di q2 (subst (λ ns. ClosedNodes repo ns ns) e c1) (subst (SettledBut di) e s1) ok,
        position-Kept d.package_name q.n (rec di q2).0.n k.kept
            (subst (λ i. i < length q.n) (sym f.place) f.inside),
      )

  with_entry-Good :
      (ni : ℕ) (e : PkgRepoEntry) (g : DebDepGroup) (c : Choice) (o : Option PkgRepoEntry)
      (p : Plan)
      → Good repo p
      → (with_entry rec ni e g c o p).1 ≡ true
      → Good repo (with_entry rec ni e g c o p).0
        × ((d : PkgRepoEntry) × (o ≡ some d) × InPlan (with_entry rec ni e g c o p).0.n d)
  with_entry-Good ni e g c none p good = λ ok. absurd (ground (arith, ok))
  with_entry-Good ni e g c (some d) p good =
      elim (Bool-cases (disagrees (node_at (position d.package_name p.n) p.n) c.chosen_alt)) [
        | inl a ↦ rw a (λ ok. absurd (ground (arith, ok)))
        | inr a ↦ rw a (λ ok.
            let (x, i) =
              linked-Good ni c.is_inst d (node_for p d) p (node_for-Found p d)
                (node_for-Settled repo p d good.0 good.1 (Kept-append p.n d)) ok in
            (x, (d, refl, i)))
      ]

  expand_group-Good :
      (ni : ℕ) (e : PkgRepoEntry) (g : DebDepGroup) (p : Plan)
      → Good repo p
      → (expand_group repo rec ni e g p).1 ≡ true
      → Good repo (expand_group repo rec ni e g p).0
        × Met repo (expand_group repo rec ni e g p).0.n g
  unfolding expand_group
  expand_group-Good ni e g p good = elim (Bool-cases ((choose_alt repo g).is_inst == 2)) [
    | inl a ↦ rw a (λ ok. (good, inl ((==_iff (choose_alt repo g).is_inst 2).0 a)))
    | inr a ↦ rw a (λ ok.
        let (x, m) =
          with_entry-Good ni e g (choose_alt repo g) (choose_alt repo g).entry p good ok in
        (x, inr m))
  ]

  expand_groups-Good :
      (ni : ℕ) (e : PkgRepoEntry) (gs : List DebDepGroup) (p : Plan)
      → Good repo p
      → (expand_groups repo rec ni e gs p).1 ≡ true
      → Good repo (expand_groups repo rec ni e gs p).0
        × AllMet repo (expand_groups repo rec ni e gs p).0.n gs
  unfolding expand_groups
  expand_groups-Good ni e [] p good ok = (good, tt)
  expand_groups-Good ni e (g ∷ gs) p good ok =
      let r = expand_group repo rec ni e g p in
      let (ok1, eq) = unless_failed-true r (expand_groups repo rec ni e gs) ok in
      let (x, m) = expand_group-Good ni e g p good ok1 in
      let (y, ms) = expand_groups-Good ni e gs r.0 x (ap (λ z. z.1) (sym eq) ∙ ok) in
      let k = (expand_groups-Grows repo rec ni e gs r.0 grows).kept in
      let m' = AllMet-NamesKept repo r.0.n _ (g ∷ []) (Kept-NamesKept _ _ k) (m, tt) in
      subst (λ z. Good repo z.0 × AllMet repo z.0.n (g ∷ gs)) (sym eq) (y, (m'.0, ms))

  with_groups-Good :
      (ni : ℕ) (e : PkgRepoEntry) (r : Parsed (List DebDepGroup)) (p : Plan)
      → Good repo p
      → (with_groups repo rec ni e r p).1 ≡ true
      → Good repo (with_groups repo rec ni e r p).0
        × MetParsed repo (with_groups repo rec ni e r p).0.n r
  with_groups-Good ni e (parsed gs) p good ok = expand_groups-Good ni e gs p good ok
  with_groups-Good ni e (failed code) p good ok = absurd (ground (arith, ok))

  expand_field-Good :
      (ni : ℕ) (e : PkgRepoEntry) (s : Bytes) (p : Plan)
      → Good repo p
      → (expand_field repo rec ni e s p).1 ≡ true
      → Good repo (expand_field repo rec ni e s p).0
        × MetField repo (expand_field repo rec ni e s p).0.n s
  unfolding expand_field
  expand_field-Good ni e [] p good ok = (good, tt)
  expand_field-Good ni e (c ∷ cs) p good ok =
      with_groups-Good ni e (deb_dep_parse (c ∷ cs)) p good ok

  both_fields-Good :
      (ni : ℕ) (e : PkgRepoEntry) (p : Plan)
      → Good repo p
      → (both_fields repo rec ni e p).1 ≡ true
      → Good repo (both_fields repo rec ni e p).0
        × ClosedEntry repo (both_fields repo rec ni e p).0.n e
  both_fields-Good ni e p good ok =
      let r = expand_field repo rec ni e e.pre_depends p in
      let (ok1, eq) = unless_failed-true r (expand_field repo rec ni e e.depends) ok in
      let (x, m) = expand_field-Good ni e e.pre_depends p good ok1 in
      let (y, ms) = expand_field-Good ni e e.depends r.0 x (ap (λ z. z.1) (sym eq) ∙ ok) in
      let k = (expand_field-Grows repo rec ni e e.depends r.0 grows).kept in
      let m' = MetField-NamesKept repo r.0.n _ e.pre_depends (Kept-NamesKept _ _ k) m in
      subst (λ z. Good repo z.0 × ClosedEntry repo z.0.n e) (sym eq) (y, (m', ms))

  leave-Good :
      (ni : ℕ) (n : Node) (r : Plan × Bool)
      → node_at ni r.0.n ≡ some n
      → Good repo r.0
      → ClosedEntry repo r.0.n n.e
      → r.1 ≡ true
      → Good repo (leave ni r).0
  unfolding leave
  leave-Good ni n (q, false) e good c ok = absurd (ground (arith, ok))
  leave-Good ni n (q, true) e good c ok =
      let a = ClosedNodes-set_done repo q.n ni n q.n e c good.0 in
      let b =
        ClosedNodes-update repo q.n ni (set_visiting false) (update ni set_done q.n)
          (λ m. (refl, refl)) a in
      let k = update-NamesKept ni set_done q.n (λ m. refl) in
      let k' = update-NamesKept ni (set_visiting false) (update ni set_done q.n) (λ m. refl) in
      (
        ClosedNodes-NamesKept repo q.n _ _ (λ name h. k' name (k name h)) b,
        Settled-end ni q.n good.1,
      )

  enter-Good :
      (ni : ℕ) (o : Option Node) (p : Plan)
      → node_at ni p.n ≡ o
      → ClosedNodes repo p.n p.n
      → SettledBut ni p.n
      → (enter repo rec ni o p).1 ≡ true
      → Good repo (enter repo rec ni o p).0
  enter-Good ni none p e c s = λ ok. (c, SettledBut-none ni p.n e s)
  enter-Good ni (some n) p e c s =
      let p1 = record p { n = update ni (set_visiting true) p.n } in
      let c1 = ClosedNodes-update repo p.n ni (set_visiting true) p.n (λ m. (refl, refl)) c in
      let c2 =
        ClosedNodes-NamesKept repo p.n p1.n p1.n
          (update-NamesKept ni (set_visiting true) p.n (λ m. refl)) c1 in
      let r = both_fields repo rec ni n.e p1 in
      elim (Bool-cases (n.done || n.visiting)) [
        | inl a ↦ rw a (λ ok. (c, SettledBut-some ni n p.n e a s))
        | inr a ↦ rw a (λ ok.
            let (x, y) =
              both_fields-Good ni n.e p1 (c2, Settled-begin ni p.n s) (leave-ok ni r ok) in
            let (m, em, k) =
              node_at-Kept ni _ p1.n r.0.n (node_at-update ni (set_visiting true) n p.n e)
                (both_fields-Grows repo rec ni n.e p1 grows).kept in
            leave-Good ni m r em x (subst (ClosedEntry repo r.0.n) (sym k.same_entry) y)
              (leave-ok ni r ok))
      ]

module _ (repo : PkgRepo) where
  -- Whatever the plan is, if all its other nodes are done or being visited, a call of expand that
  -- succeeds keeps it closed, and then the node itself is done or being visited too.
  pub expand-Good : (rounds : ℕ) → Expands repo (expand repo rounds)
  unfolding expand
  expand-Good zero ni p c s ok = absurd (ground (arith, ok))
  expand-Good (suc rounds) ni p c s ok =
      enter-Good repo (expand repo rounds) (expand-Grows repo rounds) (expand-Good rounds) ni
        (node_at ni p.n) p refl c s ok
