-- ===== src/Pkg/Plan/Grown.antt =====
-- Every call of expand (src/pkg_plan.c), whether it succeeds or fails, keeps the nodes of the plan and
-- the bound on their number.
use guppy.Prelude.{
  ℕ, zero, suc, ◌≡◌, inl, inr, refl, Bool, true, false, not, Option, none, some, arith, ◌==◌, ◌||◌,
  List, [], ◌∷◌, length, Bool-cases,
}
use guppy.Ascii.{Bytes}
use guppy.Deb.Depend.{DebDepGroup, Parsed, parsed, failed, deb_dep_parse}
use guppy.Pkg.Repo.{PkgRepoEntry, PkgRepo}
use guppy.Pkg.Choose.{Choice, choose_alt}
use guppy.Pkg.Plan.{
  Node, Plan, node_at, update, node_for, add_edge, position, unless_failed, set_installed,
  set_visiting, set_done, disagrees, with_entry, linked, expand_group, expand_groups, with_groups,
  expand_field, both_fields, leave, enter, expand,
}
use guppy.Pkg.Plan.Kept.{
  Kept, Kept-refl, Kept-trans, Kept-update, Kept-visit, Grows, Grows-refl, Grows-trans, Found,
  node_for-Found, n-add_edge, length-update, set_installed-SameNode, set_done-SameNode,
}

-- A call of expand.
abbrev pub Call : Type 0
Call = ℕ → Plan → Plan × Bool

abbrev pub Growing : Call → Type 0
Growing rec = (ni : ℕ) (p : Plan) → Grows p (rec ni p).0

pub unless_failed-Grows :
    (p : Plan) (r : Plan × Bool) (next : Plan → Plan × Bool)
    → Grows p r.0
    → ((q : Plan) → Grows q (next q).0)
    → Grows p (unless_failed r next).0
unless_failed-Grows p (q, false) next g h = g
unless_failed-Grows p (q, true) next g h = Grows-trans p q _ g (h q)

pub Grows-update :
    (i : ℕ) (b : Bool) (p : Plan) → Grows p (record p { n = update i (set_installed b) p.n })
Grows-update i b p = record {
  kept = Kept-update i (set_installed b) p.n (set_installed-SameNode b);
  bounded = λ h. omega (arith, length-update i (set_installed b) p.n);
}

pub Grows-add_edge : (p : Plan) (a b : ℕ) → Grows p (add_edge p a b)
Grows-add_edge p a b =
    let e = n-add_edge p a b in record { kept = rw e (Kept-refl p.n); bounded = λ h. rw e h }

linked-Grows :
    (rec : Call) (ni is_inst : ℕ) (d : PkgRepoEntry) (o : Option (Plan × ℕ)) (p : Plan)
    → Growing rec
    → Found p d o
    → Grows p (linked rec ni is_inst o p).0
linked-Grows rec ni is_inst d none p g f = record { kept = Kept-refl p.n; bounded = λ h. h }
linked-Grows rec ni is_inst d (some (q, di)) p g f =
    let q1 = record q { n = update di (set_installed (not (is_inst == 0))) q.n } in
    Grows-trans p q _ f.grows (
      Grows-trans q q1 _ (Grows-update di (not (is_inst == 0)) q)
        (Grows-trans q1 (add_edge q1 ni di) _ (Grows-add_edge q1 ni di) (g di (add_edge q1 ni di))))

with_entry-Grows :
    (rec : Call) (ni : ℕ) (e : PkgRepoEntry) (g : DebDepGroup) (c : Choice)
    (o : Option PkgRepoEntry) (p : Plan)
    → Growing rec
    → Grows p (with_entry rec ni e g c o p).0
with_entry-Grows rec ni e g c none p h = record { kept = Kept-refl p.n; bounded = λ b. b }
with_entry-Grows rec ni e g c (some d) p h =
    elim (Bool-cases (disagrees (node_at (position d.package_name p.n) p.n) c.chosen_alt)) [
      | inl a ↦ rw a (record { kept = Kept-refl p.n; bounded = λ b. b })
      | inr a ↦ rw a (linked-Grows rec ni c.is_inst d (node_for p d) p h (node_for-Found p d))
    ]

Grows-visit :
    (ni : ℕ) (n : Node) (p q : Plan) (ms : List Node)
    → node_at ni p.n ≡ some n
    → n.visiting ≡ false
    → Grows (record p { n = update ni (set_visiting true) p.n }) q
    → Kept q.n ms
    → length ms ≡ length q.n
    → Grows p (record q { n = update ni (set_visiting false) ms })
Grows-visit ni n p q ms e v g k l = record {
  kept = Kept-visit ni n p.n ms e v (Kept-trans _ q.n ms g.kept k);
  bounded = λ h.
      let a = length-update ni (set_visiting false) ms in
      let b = length-update ni (set_visiting true) p.n in
      let c = g.bounded (omega (arith, b)) in omega (arith, a, l, c);
}

leave-Grows :
    (ni : ℕ) (n : Node) (p : Plan) (r : Plan × Bool)
    → node_at ni p.n ≡ some n
    → n.visiting ≡ false
    → Grows (record p { n = update ni (set_visiting true) p.n }) r.0
    → Grows p (leave ni r).0
unfolding leave
leave-Grows ni n p (q, true) e v g =
    Grows-visit ni n p q (update ni set_done q.n) e v g
      (Kept-update ni set_done q.n set_done-SameNode) (length-update ni set_done q.n)
leave-Grows ni n p (q, false) e v g = Grows-visit ni n p q q.n e v g (Kept-refl q.n) refl

module _ (repo : PkgRepo) where
  pub expand_group-Grows :
      (rec : Call) (ni : ℕ) (e : PkgRepoEntry) (g : DebDepGroup) (p : Plan)
      → Growing rec
      → Grows p (expand_group repo rec ni e g p).0
  unfolding expand_group
  expand_group-Grows rec ni e g p h = elim (Bool-cases ((choose_alt repo g).is_inst == 2)) [
    | inl a ↦ rw a (Grows-refl p)
    | inr a ↦ rw a (with_entry-Grows rec ni e g (choose_alt repo g) _ p h)
  ]

  pub expand_groups-Grows :
      (rec : Call) (ni : ℕ) (e : PkgRepoEntry) (gs : List DebDepGroup) (p : Plan)
      → Growing rec
      → Grows p (expand_groups repo rec ni e gs p).0
  unfolding expand_groups
  expand_groups-Grows rec ni e [] p h = Grows-refl p
  expand_groups-Grows rec ni e (g ∷ gs) p h =
      unless_failed-Grows p (expand_group repo rec ni e g p) (expand_groups repo rec ni e gs)
        (expand_group-Grows rec ni e g p h) λ q. expand_groups-Grows rec ni e gs q h

  with_groups-Grows :
      (rec : Call) (ni : ℕ) (e : PkgRepoEntry) (r : Parsed (List DebDepGroup)) (p : Plan)
      → Growing rec
      → Grows p (with_groups repo rec ni e r p).0
  with_groups-Grows rec ni e (parsed gs) p h = expand_groups-Grows rec ni e gs p h
  with_groups-Grows rec ni e (failed code) p h = record { kept = Kept-refl p.n; bounded = λ b. b }

  pub expand_field-Grows :
      (rec : Call) (ni : ℕ) (e : PkgRepoEntry) (s : Bytes) (p : Plan)
      → Growing rec
      → Grows p (expand_field repo rec ni e s p).0
  unfolding expand_field
  expand_field-Grows rec ni e [] p h = Grows-refl p
  expand_field-Grows rec ni e (c ∷ cs) p h = with_groups-Grows rec ni e (deb_dep_parse (c ∷ cs)) p h

  pub both_fields-Grows :
      (rec : Call) (ni : ℕ) (e : PkgRepoEntry) (p : Plan)
      → Growing rec
      → Grows p (both_fields repo rec ni e p).0
  both_fields-Grows rec ni e p h =
      unless_failed-Grows p (expand_field repo rec ni e e.pre_depends p)
        (expand_field repo rec ni e e.depends) (expand_field-Grows rec ni e e.pre_depends p h)
        λ q. expand_field-Grows rec ni e e.depends q h

  enter-Grows :
      (rec : Call) (ni : ℕ) (o : Option Node) (p : Plan)
      → node_at ni p.n ≡ o
      → Growing rec
      → Grows p (enter repo rec ni o p).0
  enter-Grows rec ni none p e h = Grows-refl p
  enter-Grows rec ni (some n) p e h = elim (Bool-cases (n.done || n.visiting)) [
    | inl a ↦ rw a (Grows-refl p)
    | inr a ↦
        let p1 = record p { n = update ni (set_visiting true) p.n } in
        rw a
          (leave-Grows ni n p _ e (second n.done n.visiting a) (both_fields-Grows rec ni n.e p1 h))
  ]
    where
      second : (a b : Bool) → (a || b) ≡ false → b ≡ false
      second a b h = ground arith

  pub expand-Grows : (rounds : ℕ) → Growing (expand repo rounds)
  unfolding expand
  expand-Grows zero ni p = record { kept = Kept-refl p.n; bounded = λ b. b }
  expand-Grows (suc rounds) ni p =
      enter-Grows (expand repo rounds) ni (node_at ni p.n) p refl (expand-Grows rounds)
