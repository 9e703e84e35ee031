-- ===== src/Pkg/Plan.antt =====
-- The dependency planner (src/pkg_plan.c: node_for, add_edge, expand, build_plan).
--
-- Allocation succeeds. The text of a conflict is the data that is printed.
pub mod Kept
pub mod Grown
pub mod Closed
pub mod Settled
pub mod Expanded
pub mod Valid
pub mod Rounds
pub mod Tests
use guppy.Prelude.{
  ℕ, zero, suc, ◌+◌, ◌-◌, ◌*◌, ◌/◌, ◌%◌, ◌^◌, ◌≤◌, ◌<◌, ◌≡◌, ◌≢◌, ◌⊎◌, ◌↔◌, inl, inr, refl, sym, ap,
  ◌∙◌, Bool, true, false, not, Option, none, some, arith, ◌==◌, ◌&&◌, ◌||◌, List, [], ◌∷◌, ◌++◌,
  map, length, length-append, length-take, take, drop, replicate, min, max, if◌then◌else◌,
  Bool-cases, ==_iff, ==_refl, ltb, leb, ne→==-false, lt→ltb, ltb→lt,
}
use guppy.Ascii.{Bytes, same}
use guppy.Deb.Depend.{DebDepAlt, DebDepGroup, Parsed, parsed, failed, deb_dep_parse}
use guppy.Deb.Version.Compare.{deb_version_compare, deb_version_satisfies, is_eq}
use Prim.Native.Nat.{Ordering}
use guppy.Pkg.Choose.{Choice, satisfies, present_as, choose_alt}
use guppy.Pkg.Repo.{PkgRepoEntry, PkgRepo}

abbrev pub max_nodes : ℕ
max_nodes = 512

abbrev pub max_edges : ℕ
max_edges = 4096

pub record Node : Type 0 where
  pub e : PkgRepoEntry
  pub installed : Bool
  pub visiting : Bool
  pub done : Bool

pub data Conflict : Type 0 where
  no_conflict : Conflict
  not_found : (name : Bytes) → Conflict
  unparsed : (name : Bytes) → Conflict
  unsatisfied : (name : Bytes) → Conflict
  mismatch : (selected needing : PkgRepoEntry) → (alt : DebDepAlt) → Conflict
  too_many : Conflict

pub record Plan : Type 0 where
  pub n : List Node
  pub edges : List (ℕ × ℕ)
  pub valid : Bool
  pub conflict : Conflict

-- `p->n[i]`
abbrev pub node_at : ℕ → List Node → Option Node
node_at i [] = none
node_at zero (n ∷ ns) = some n
node_at (suc i) (n ∷ ns) = node_at i ns

abbrev pub update : ℕ → (Node → Node) → List Node → List Node
update i f [] = []
update zero f (n ∷ ns) = f n ∷ ns
update (suc i) f (n ∷ ns) = n ∷ update i f ns

-- The first node of a package, or the number of nodes.
unfoldable pub position : (name : Bytes) → List Node → ℕ
position name [] = 0
position name (n ∷ ns) =
    let rest = position name ns in if same n.e.package_name name then 0 else suc rest

abbrev pub new_node : PkgRepoEntry → Node
new_node e = record { e = e; installed = false; visiting = false; done = false }

unfoldable pub node_for : Plan → PkgRepoEntry → Option (Plan × ℕ)
node_for p e =
    let i = position e.package_name p.n in
    if ltb i (length p.n)
    then some (p, i)
    else if leb max_nodes (length p.n)
    then none
    else some (record p { n = p.n ++ new_node e ∷ [] }, i)

-- Behind `MAX_EDGES` edges an edge is dropped.
unfoldable pub add_edge : Plan → (a b : ℕ) → Plan
add_edge p a b =
    if ltb (length p.edges) max_edges then record p { edges = p.edges ++ (a, b) ∷ [] } else p

abbrev pub fail : Plan → Conflict → Plan × Bool
fail p c = (record p { valid = false; conflict = c }, false)

-- `if (f(...)) { rc = -1; goto out; }`, where `true` is 0.
abbrev pub unless_failed : Plan × Bool → (Plan → Plan × Bool) → Plan × Bool
unless_failed (p, false) next = (p, false)
unless_failed (p, true) next = next p

-- The alternative that names a package of the plan, for the message.
unfoldable pub named_in_plan : DebDepGroup → List Node → Option (Node × DebDepAlt)
named_in_plan [] ns = none
named_in_plan (a ∷ g) ns =
    let rest = named_in_plan g ns in
    elim (node_at (position a.name ns) ns) [ none ↦ rest | some n ↦ some (n, a) ]

abbrev pub unmet : Option (Node × DebDepAlt) → PkgRepoEntry → Conflict
unmet none e = unsatisfied e.package_name
unmet (some (n, a)) e = elim a.op [ [] ↦ unsatisfied e.package_name | c ∷ cs ↦ mismatch n.e e a ]

-- The version of the package, if it is in the plan, and what the alternative asks for.
abbrev pub disagrees : Option Node → Option DebDepAlt → Bool
disagrees none alt = false
disagrees (some n) none = false
disagrees (some n) (some a) = not (satisfies n.e.version a)

abbrev pub or_empty_alt : Option DebDepAlt → DebDepAlt
or_empty_alt none = record { name = []; arch_qual = []; op = []; version = []; restrictions = [] }
or_empty_alt (some a) = a

abbrev pub the_entry : Option Node → PkgRepoEntry → PkgRepoEntry
the_entry none e = e
the_entry (some n) e = n.e

abbrev pub set_installed : Bool → Node → Node
set_installed is_inst n = record n { installed = n.installed || is_inst }

abbrev pub set_visiting : Bool → Node → Node
set_visiting b n = record n { visiting = b }

abbrev pub set_done : Node → Node
set_done n = record n { done = true }

-- `rec` is the recursive call of expand.
abbrev pub linked :
    (rec : ℕ → Plan → Plan × Bool)
    → (ni is_inst : ℕ) → Option (Plan × ℕ)
    → (before : Plan) → Plan × Bool
linked rec ni is_inst none before = fail before too_many
linked rec ni is_inst (some (p, di)) before =
    let p1 = record p { n = update di (set_installed (not (is_inst == 0))) p.n } in
    rec di (add_edge p1 ni di)

abbrev pub with_entry :
    (rec : ℕ → Plan → Plan × Bool)
    → (ni : ℕ) → PkgRepoEntry
    → DebDepGroup
    → Choice
    → Option PkgRepoEntry
    → Plan
    → Plan × Bool
with_entry rec ni e g c none p = fail p (unmet (named_in_plan g p.n) e)
with_entry rec ni e g c (some d) p =
    let there = node_at (position d.package_name p.n) p.n in
    if disagrees there c.chosen_alt
    then fail p (mismatch (the_entry there d) e (or_empty_alt c.chosen_alt))
    else linked rec ni c.is_inst (node_for p d) p

-- From the label `out` on.
unfoldable pub leave : (ni : ℕ) → Plan × Bool → Plan × Bool
leave ni (p, ok) =
    let left = if ok then update ni set_done p.n else p.n in
    (record p { n = update ni (set_visiting false) left }, ok)

abbrev pub empty_plan : Plan
empty_plan = record { n = []; edges = []; valid = true; conflict = no_conflict }

module _ (repo : PkgRepo) where
  unfoldable pub expand_group :
      (rec : ℕ → Plan → Plan × Bool) → (ni : ℕ) → PkgRepoEntry → DebDepGroup → Plan → Plan × Bool
  expand_group rec ni e g p =
      let c = choose_alt repo g in
      if c.is_inst == 2 then (p, true) else with_entry rec ni e g c c.entry p

  unfoldable pub expand_groups :
      (rec : ℕ → Plan → Plan × Bool)
      → (ni : ℕ) → PkgRepoEntry
      → List DebDepGroup
      → Plan
      → Plan × Bool
  expand_groups rec ni e [] p = (p, true)
  expand_groups rec ni e (g ∷ gs) p =
      unless_failed (expand_group rec ni e g p) (expand_groups rec ni e gs)

  abbrev pub with_groups :
      (rec : ℕ → Plan → Plan × Bool)
      → (ni : ℕ) → PkgRepoEntry
      → Parsed (List DebDepGroup)
      → Plan
      → Plan × Bool
  with_groups rec ni e (failed code) p = fail p (unparsed e.package_name)
  with_groups rec ni e (parsed gs) p = expand_groups rec ni e gs p

  -- A field that is empty parses to no group, and the code does not parse it.
  unfoldable pub expand_field :
      (rec : ℕ → Plan → Plan × Bool) → (ni : ℕ) → PkgRepoEntry → Bytes → Plan → Plan × Bool
  expand_field rec ni e [] p = (p, true)
  expand_field rec ni e (c ∷ cs) p = with_groups rec ni e (deb_dep_parse (c ∷ cs)) p

  abbrev pub both_fields :
      (rec : ℕ → Plan → Plan × Bool) → (ni : ℕ) → PkgRepoEntry → Plan → Plan × Bool
  both_fields rec ni e p =
      unless_failed (expand_field rec ni e e.pre_depends p) (expand_field rec ni e e.depends)

  abbrev pub enter : (rec : ℕ → Plan → Plan × Bool) → (ni : ℕ) → Option Node → Plan → Plan × Bool
  enter rec ni none p = (p, true)
  enter rec ni (some n) p =
      if n.done || n.visiting
      then (p, true)
      else leave ni (both_fields rec ni n.e (record p { n = update ni (set_visiting true) p.n }))

  -- `rounds` bounds the depth of the recursion; the plan is not valid if they run out.
  unfoldable pub expand : (rounds : ℕ) → (ni : ℕ) → Plan → Plan × Bool
  expand zero ni p = fail p no_conflict
  expand (suc rounds) ni p = enter (expand rounds) ni (node_at ni p.n) p

  abbrev pub plan_rounds : ℕ
  plan_rounds = max_nodes + 1

  abbrev pub rooted : Bytes → PkgRepoEntry → Option (Plan × ℕ) → Plan × Option ℕ
  rooted name e none = ((fail empty_plan too_many).0, none)
  rooted name e (some (p, ri)) =
      let is_inst = not (present_as (repo.state_lookup name) e == 0) in
      ((expand plan_rounds ri (record p { n = update ri (set_installed is_inst) p.n })).0, some ri)

  abbrev pub with_root : Bytes → Option PkgRepoEntry → Plan × Option ℕ
  with_root name none = ((fail empty_plan (not_found name)).0, none)
  with_root name (some e) = rooted name e (node_for empty_plan e)

  -- The plan without its components, and `root_node`, with `none` for -1. The result of the C
  -- function is 0 if the plan is valid.
  unfoldable pub build_plan : Bytes → Plan × Option ℕ
  build_plan name = with_root name (repo.find_best name none none)
