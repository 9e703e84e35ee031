-- ===== src/Pkg/Apply/Tests.antt =====
-- Unpacking a plan with a cycle (src/pkg_plan.c).
use mathlib.Core.Path.{subst}
use mathlib.Core.Option.{some-injective, none-ne-some}
use guppy.Prelude.{
  ℕ, zero, suc, ◌≡◌, inl, inr, refl, sym, ap, Bool, true, false, Option, none, some, arith, List,
  [], ◌∷◌,
}
use guppy.Ascii.{Bytes, codes}
use guppy.Pkg.Repo.{PkgRepoEntry}
use guppy.Pkg.Tarjan.{build_components, tarjan_all, tarjan, tarjan_edges, close, assign, pop_until}
use guppy.Pkg.Apply.{
  Components, members_at, entry_path, apply_plan, apply_component, apply_rest, follow_members,
  follow_edges, install_members,
}
use guppy.Pkg.Apply.Order.{Has, AllInstalled, Ordered, IsCondensed}
use guppy.Pkg.Apply.Whole.{apply_plan-Ordered}
use guppy.Pkg.Apply.Succeeds.{Unpacks, apply_plan-ok}

-- Package 0 depends on 1 and 2, which depend on each other.
abbrev edges : List (ℕ × ℕ)
edges = (0, 1) ∷ (1, 2) ∷ (2, 1) ∷ []

abbrev part_of : ℕ → Option ℕ
part_of zero = some 1
part_of (suc zero) = some 0
part_of (suc (suc zero)) = some 0
part_of (suc (suc (suc i))) = none

abbrev parts : Components
parts = record { comp = (2 ∷ 1 ∷ []) ∷ (0 ∷ []) ∷ []; component = part_of }

parts_comp : (build_components 3 edges).comp ≡ parts.comp
unfolding build_components tarjan_all tarjan tarjan_edges close assign pop_until
parts_comp = refl

abbrev entry : ℕ → PkgRepoEntry
entry i = record {
  package_name = codes "p";
  version = codes "1";
  depends = [];
  pre_depends = [];
  repo_root = codes "/repo";
  filename = codes "p.deb";
}

abbrev takes : List ℕ → Bytes → Bool
takes calls path = true

abbrev absent : ℕ → Bool
absent i = false

abbrev Member : (b ci : ℕ) → Type 0
Member b ci = (ns : List ℕ) × (members_at ci parts.comp ≡ some ns) × Has b ns

has_member : (b ci : ℕ) → part_of b ≡ some ci → Member b ci
has_member zero ci e = subst (Member 0) (some-injective 1 ci e) (0 ∷ [], refl, inl refl)
has_member (suc zero) ci e =
    subst (Member 1) (some-injective 0 ci e) (2 ∷ 1 ∷ [], refl, inr (inl refl))
has_member (suc (suc zero)) ci e =
    subst (Member 2) (some-injective 0 ci e) (2 ∷ 1 ∷ [], refl, inl refl)
has_member (suc (suc (suc i))) ci e = absurd (none-ne-some ci e)

cycle_member : (n : ℕ) → Has n (2 ∷ 1 ∷ []) → part_of n ≡ some 0
cycle_member n (inl e) = ap part_of e
cycle_member n (inr (inl e)) = ap part_of e
cycle_member n (inr (inr h)) = absurd h

root_member : (n : ℕ) → Has n (0 ∷ []) → part_of n ≡ some 1
root_member n (inl e) = ap part_of e
root_member n (inr h) = absurd h

member_of :
    (ci n : ℕ) (ns : List ℕ) → members_at ci parts.comp ≡ some ns → Has n ns → part_of n ≡ some ci
member_of zero n ns m h = cycle_member n (subst (Has n) (sym (some-injective _ ns m)) h)
member_of (suc zero) n ns m h = root_member n (subst (Has n) (sym (some-injective _ ns m)) h)
member_of (suc (suc i)) n ns m h = absurd (none-ne-some ns m)

parts-IsCondensed : IsCondensed parts edges
parts-IsCondensed = record {
  edge_back = (
    λ ca e. (0, refl, omega arith),
    (λ ca e. (0, refl, omega arith), (λ ca e. (0, refl, omega arith), tt)),
  );
  has_member = has_member;
  member_of = member_of;
}

all_taken : (n : ℕ) → Unpacks takes (entry_path (entry n) 1400)
unfolding entry_path
all_taken n = λ calls. refl

apply_plan-ok_example : (apply_plan entry edges parts takes 0 absent).1 ≡ true
apply_plan-ok_example = apply_plan-ok entry edges parts takes all_taken parts-IsCondensed 0 absent

unpacked : (apply_plan entry edges parts takes 0 absent).1 ≡ true
unfolding apply_plan apply_component apply_rest follow_members follow_edges install_members
    entry_path
unpacked = refl

-- The cycle is unpacked first.
in_order : (apply_plan entry edges parts takes 0 absent).0.calls ≡ 2 ∷ 1 ∷ 0 ∷ []
unfolding apply_plan apply_component apply_rest follow_members follow_edges install_members
    entry_path
in_order = refl

apply_plan-Ordered_example :
    Ordered parts absent edges (apply_plan entry edges parts takes 0 absent).0.calls
    × ((ci : ℕ) (ns : List ℕ)
        → members_at ci parts.comp ≡ some ns
        → AllInstalled (apply_plan entry edges parts takes 0 absent).0.installed ns)
apply_plan-Ordered_example =
    apply_plan-Ordered entry edges parts takes absent parts-IsCondensed 0 unpacked
