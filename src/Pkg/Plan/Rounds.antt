-- ===== src/Pkg/Plan/Rounds.antt =====
-- The recursion of expand (src/pkg_plan.c) is no deeper than the number of nodes: each call under
-- another has one more node that is being visited.
use mathlib.Core.Option.{some-injective, none-ne-some}
use guppy.Prelude.{
  ℕ, zero, suc, ◌+◌, ◌≤◌, ◌<◌, ◌≡◌, inl, inr, refl, ap, ◌∙◌, Bool, true, false, not, Option, none,
  some, arith, ◌==◌, ◌||◌, List, [], ◌∷◌, length, if◌then◌else◌, Bool-cases,
}
use guppy.Ascii.{Bytes}
use guppy.Deb.Depend.{DebDepGroup, Parsed, parsed, failed, deb_dep_parse}
use guppy.Pkg.Repo.{PkgRepoEntry, PkgRepo}
use guppy.Pkg.Choose.{Choice, choose_alt}
use guppy.Pkg.Plan.{
  Node, Plan, node_at, update, node_for, add_edge, position, unless_failed, set_installed,
  set_visiting, disagrees, with_entry, linked, expand_group, expand_groups, with_groups,
  expand_field, both_fields, leave, enter, expand,
}
use guppy.Pkg.Plan.Kept.{Kept, NoneVisiting, Grows, Found, node_for-Found, length-update}
use guppy.Pkg.Plan.Grown.{
  Call, Growing, Grows-update, Grows-add_edge, expand_group-Grows, expand_field-Grows, expand-Grows,
}

-- The nodes that are being visited.
abbrev pub visits : List Node → ℕ
visits [] = 0
visits (n ∷ ns) = (if n.visiting then 1 else 0) + visits ns

visits-length : (ns : List Node) → visits ns ≤ length ns
visits-length [] = omega arith
visits-length (n ∷ ns) =
    let h = visits-length ns in
    elim (Bool-cases n.visiting) [
      | inl e ↦ rw e (omega (arith, h))
      | inr e ↦ rw e (omega (arith, h))
    ]

NoneVisiting-visits : (ns : List Node) → NoneVisiting ns → visits ns ≡ 0
NoneVisiting-visits [] h = refl
NoneVisiting-visits (n ∷ ns) h = let e = h.0 in let r = NoneVisiting-visits ns h.1 in rw (e, r) refl

visits-Kept : (ns ms : List Node) → Kept ns ms → visits ms ≡ visits ns
visits-Kept [] ms k = NoneVisiting-visits ms k
visits-Kept (n ∷ ns) [] k = absurd k
visits-Kept (n ∷ ns) (m ∷ ms) k =
    let e = k.0.same_visiting in let r = visits-Kept ns ms k.1 in rw (e, r) refl

visits-begin :
    (i : ℕ) (n : Node) (ns : List Node)
    → node_at i ns ≡ some n
    → n.visiting ≡ false
    → visits (update i (set_visiting true) ns) ≡ 1 + visits ns
visits-begin i n [] e v = absurd (none-ne-some n e)
visits-begin zero n (m ∷ ns) e v =
    let v' : m.visiting ≡ false = ap (λ (x : Node). x.visiting) (some-injective m n e) ∙ v in
    rw v' (omega arith)
visits-begin (suc i) n (m ∷ ns) e v = let h = visits-begin i n ns e v in omega (arith, h)

-- Room for `c` visits.
record Within (c : ℕ) (p : Plan) : Type 0 where
  few : length p.n ≤ 512
  deep : c ≤ visits p.n

Within-Grows : (c : ℕ) (p q : Plan) → Grows p q → Within c p → Within c q
Within-Grows c p q g w = record {
  few = g.bounded w.few;
  deep = omega (arith, visits-Kept p.n q.n g.kept, w.deep);
}

Agree : (c : ℕ) → Call → Call → Type 0
Agree c rec rec' = (ni : ℕ) (p : Plan) → Within c p → rec ni p ≡ rec' ni p

unless_failed-cong :
    (r : Plan × Bool) (next next' : Plan → Plan × Bool)
    → next r.0 ≡ next' r.0
    → unless_failed r next ≡ unless_failed r next'
unless_failed-cong (q, false) next next' e = refl
unless_failed-cong (q, true) next next' e = e

module _ (c : ℕ) (rec rec' : Call) (agree : Agree c rec rec') where
  linked-Agree :
      (ni is_inst : ℕ) (d : PkgRepoEntry) (o : Option (Plan × ℕ)) (p : Plan)
      → Within c p
      → Found p d o
      → linked rec ni is_inst o p ≡ linked rec' ni is_inst o p
  unfolding Agree
  linked-Agree ni is_inst d none p w f = refl
  linked-Agree ni is_inst d (some (q, di)) p w f =
      let b = not (is_inst == 0) in
      let q1 = record q { n = update di (set_installed b) q.n } in
      let w1 = Within-Grows c q q1 (Grows-update di b q) (Within-Grows c p q f.grows w) in
      agree di (add_edge q1 ni di) (Within-Grows c q1 _ (Grows-add_edge q1 ni di) w1)

  with_entry-Agree :
      (ni : ℕ) (e : PkgRepoEntry) (g : DebDepGroup) (h : Choice) (o : Option PkgRepoEntry)
      (p : Plan)
      → Within c p
      → with_entry rec ni e g h o p ≡ with_entry rec' ni e g h o p
  with_entry-Agree ni e g h none p w = refl
  with_entry-Agree ni e g h (some d) p w =
      elim (Bool-cases (disagrees (node_at (position d.package_name p.n) p.n) h.chosen_alt)) [
        | inl a ↦ rw a refl
        | inr a ↦ rw a (linked-Agree ni h.is_inst d (node_for p d) p w (node_for-Found p d))
      ]

module _ (repo : PkgRepo) (c : ℕ) (rec rec' : Call) (agree : Agree c rec rec')
    (grows : Growing rec) where
  expand_group-Agree :
      (ni : ℕ) (e : PkgRepoEntry) (g : DebDepGroup) (p : Plan)
      → Within c p
      → expand_group repo rec ni e g p ≡ expand_group repo rec' ni e g p
  unfolding expand_group
  expand_group-Agree ni e g p w = elim (Bool-cases ((choose_alt repo g).is_inst == 2)) [
    | inl a ↦ rw a refl
    | inr a ↦ rw a (with_entry-Agree c rec rec' agree ni e g (choose_alt repo g) _ p w)
  ]

  expand_groups-Agree :
      (ni : ℕ) (e : PkgRepoEntry) (gs : List DebDepGroup) (p : Plan)
      → Within c p
      → expand_groups repo rec ni e gs p ≡ expand_groups repo rec' ni e gs p
  unfolding expand_groups
  expand_groups-Agree ni e [] p w = refl
  expand_groups-Agree ni e (g ∷ gs) p w =
      let r = expand_group repo rec ni e g p in
      let w' = Within-Grows c p r.0 (expand_group-Grows repo rec ni e g p grows) w in
      unless_failed-cong r (expand_groups repo rec ni e gs) (expand_groups repo rec' ni e gs)
        (expand_groups-Agree ni e gs r.0 w')
      ∙ ap (λ z. unless_failed z (expand_groups repo rec' ni e gs)) (expand_group-Agree ni e g p w)

  with_groups-Agree :
      (ni : ℕ) (e : PkgRepoEntry) (r : Parsed (List DebDepGroup)) (p : Plan)
      → Within c p
      → with_groups repo rec ni e r p ≡ with_groups repo rec' ni e r p
  with_groups-Agree ni e (parsed gs) p w = expand_groups-Agree ni e gs p w
  with_groups-Agree ni e (failed code) p w = refl

  expand_field-Agree :
      (ni : ℕ) (e : PkgRepoEntry) (s : Bytes) (p : Plan)
      → Within c p
      → expand_field repo rec ni e s p ≡ expand_field repo rec' ni e s p
  unfolding expand_field
  expand_field-Agree ni e [] p w = refl
  expand_field-Agree ni e (x ∷ xs) p w = with_groups-Agree ni e (deb_dep_parse (x ∷ xs)) p w

  both_fields-Agree :
      (ni : ℕ) (e : PkgRepoEntry) (p : Plan)
      → Within c p
      → both_fields repo rec ni e p ≡ both_fields repo rec' ni e p
  both_fields-Agree ni e p w =
      let r = expand_field repo rec ni e e.pre_depends p in
      let w' = Within-Grows c p r.0 (expand_field-Grows repo rec ni e e.pre_depends p grows) w in
      unless_failed-cong r (expand_field repo rec ni e e.depends)
        (expand_field repo rec' ni e e.depends) (expand_field-Agree ni e e.depends r.0 w')
      ∙ ap (λ z. unless_failed z (expand_field repo rec' ni e e.depends))
          (expand_field-Agree ni e e.pre_depends p w)

enter-Agree :
    (repo : PkgRepo) (rec rec' : Call) (ni : ℕ) (o : Option Node) (p : Plan)
    → node_at ni p.n ≡ o
    → Growing rec
    → Agree (1 + visits p.n) rec rec'
    → length p.n ≤ 512
    → enter repo rec ni o p ≡ enter repo rec' ni o p
enter-Agree repo rec rec' ni none p e g a l = refl
enter-Agree repo rec rec' ni (some n) p e g a l = elim (Bool-cases (n.done || n.visiting)) [
  | inl b ↦ rw b refl
  | inr b ↦
      let p1 = record p { n = update ni (set_visiting true) p.n } in
      let v = visits-begin ni n p.n e (second n.done n.visiting b) in
      let w : Within (1 + visits p.n) p1 = record {
        few = omega (arith, length-update ni (set_visiting true) p.n, l);
        deep = omega (arith, v);
      } in
      rw b (ap (leave ni) (both_fields-Agree repo (1 + visits p.n) rec rec' a g ni n.e p1 w))
]
  where
    second : (a b : Bool) → (a || b) ≡ false → b ≡ false
    second a b h = ground arith

expand-suc :
    (repo : PkgRepo) (rounds ni : ℕ) (p : Plan)
    → length p.n ≤ 512
    → 512 < rounds + visits p.n
    → expand repo rounds ni p ≡ expand repo (suc rounds) ni p
unfolding expand Agree
expand-suc repo zero ni p l h = absurd (omega (arith, visits-length p.n))
expand-suc repo (suc rounds) ni p l h =
    enter-Agree repo (expand repo rounds) (expand repo (suc rounds)) ni (node_at ni p.n) p refl
      (expand-Grows repo rounds) (λ i q w. expand-suc repo rounds i q w.few (omega (arith, w.deep)))
      l

-- 513 rounds are enough for every plan of at most 512 nodes, which build_plan never exceeds: with
-- more of them, expand gives the same.
pub expand-rounds :
    (repo : PkgRepo) (more ni : ℕ) (p : Plan)
    → length p.n ≤ 512
    → expand repo 513 ni p ≡ expand repo (more + 513) ni p
expand-rounds repo zero ni p l = refl
expand-rounds repo (suc more) ni p l =
    expand-rounds repo more ni p l
    ∙ expand-suc repo (more + 513) ni p l (omega arith)
    ∙ ap (λ k. expand repo k ni p) (omega arith)
