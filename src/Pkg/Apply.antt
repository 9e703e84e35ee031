-- ===== src/Pkg/Apply.antt =====
-- Unpacking the packages of a plan (src/pkg_plan.c: entry_path, apply_component, pkg_plan_apply).
pub mod Order
pub mod Run
pub mod Calls
pub mod Component
pub mod Whole
pub mod Succeeds
pub mod Tests
use guppy.Prelude.{
  ℕ, zero, suc, ◌+◌, ◌-◌, ◌*◌, ◌/◌, ◌%◌, ◌^◌, ◌≤◌, ◌<◌, ◌≡◌, ◌≢◌, ◌⊎◌, ◌↔◌, inl, inr, refl, sym, ap,
  ◌∙◌, Bool, true, false, not, Option, none, some, arith, ◌==◌, ◌&&◌, ◌||◌, List, [], ◌∷◌, ◌++◌,
  map, length, length-append, length-take, take, drop, replicate, min, max, if◌then◌else◌,
  Bool-cases, ==_iff, ==_refl, ltb, leb, ne→==-false, lt→ltb, ltb→lt,
}
use guppy.Ascii.{Bytes}
use guppy.Pkg.Repo.{PkgRepoEntry}

-- The components of a plan, as build_components leaves them: the nodes of each, and the component of
-- each node, with `none` for -1.
pub record Components : Type 0 where
  pub comp : List (List ℕ)
  pub component : ℕ → Option ℕ

-- What is shared by the calls of apply_component. `calls` are the nodes that the callback has taken.
pub record Progress : Type 0 where
  pub emitted : ℕ → Bool
  pub installed : ℕ → Bool
  pub calls : List ℕ
  pub done : ℕ
  pub skip : ℕ

abbrev pub set_at : ℕ → (ℕ → Bool) → ℕ → Bool
set_at i f j = if j == i then true else f j

abbrev pub members_at : ℕ → List (List ℕ) → Option (List ℕ)
members_at i [] = none
members_at zero (c ∷ cs) = some c
members_at (suc i) (c ∷ cs) = members_at i cs

abbrev pub ends_in_slash : Bytes → Bool
ends_in_slash [] = false
ends_in_slash (c ∷ []) = c == b'/'
ends_in_slash (c ∷ d ∷ cs) = ends_in_slash (d ∷ cs)

-- The path, unless it is too long for the buffer.
unfoldable pub entry_path : PkgRepoEntry → (outsz : ℕ) → Option Bytes
entry_path e outsz =
    let path =
      if ends_in_slash e.repo_root
      then e.repo_root ++ e.filename
      else e.repo_root ++ b'/' ∷ e.filename in
    if leb outsz (length path) then none else some path

abbrev pub and_also : Progress × Bool → (Progress → Progress × Bool) → Progress × Bool
and_also (s, false) next = (s, false)
and_also (s, true) next = next s

-- `cb` is the callback, which is given the path and knows the calls before; `true` is 0.
module _ (entry : ℕ → PkgRepoEntry) (edges : List (ℕ × ℕ)) (c : Components)
    (cb : List ℕ → Bytes → Bool) where
  abbrev pub unpack : ℕ → Option Bytes → Progress → Progress × Bool
  unpack n none s = (s, false)
  unpack n (some path) s =
      if cb s.calls path
      then (
        record s { installed = set_at n s.installed; calls = s.calls ++ n ∷ []; done = s.done + 1 },
        true,
      )
      else (s, false)

  unfoldable pub install_members : List ℕ → Progress → Progress × Bool
  install_members [] s = (s, true)
  install_members (n ∷ ns) s =
      and_also
        (if s.installed n
          then (record s { skip = s.skip + 1 }, true)
          else unpack n (entry_path (entry n) 1400) s)
        (install_members ns)

  -- `rec` is the recursive call of apply_component, which does nothing for the component -1.
  abbrev pub depend :
      (rec : ℕ → Progress → Progress × Bool) → (ci : ℕ) → Option ℕ → Progress → Progress × Bool
  depend rec ci none s = (s, true)
  depend rec ci (some dc) s = if dc == ci then (s, true) else rec dc s

  unfoldable pub follow_edges :
      (rec : ℕ → Progress → Progress × Bool)
      → (ci n : ℕ) → List (ℕ × ℕ)
      → Progress
      → Progress × Bool
  follow_edges rec ci n [] s = (s, true)
  follow_edges rec ci n ((a, b) ∷ es) s =
      and_also (if a == n then depend rec ci (c.component b) s else (s, true))
        (follow_edges rec ci n es)

  unfoldable pub follow_members :
      (rec : ℕ → Progress → Progress × Bool) → (ci : ℕ) → List ℕ → Progress → Progress × Bool
  follow_members rec ci [] s = (s, true)
  follow_members rec ci (n ∷ ns) s =
      and_also (follow_edges rec ci n edges s) (follow_members rec ci ns)

  abbrev pub with_members :
      (rec : ℕ → Progress → Progress × Bool)
      → (ci : ℕ) → Option (List ℕ)
      → Progress
      → Progress × Bool
  with_members rec ci none s = (s, true)
  with_members rec ci (some ns) s =
      if s.emitted ci
      then (s, true)
      else and_also (follow_members rec ci ns (record s { emitted = set_at ci s.emitted }))
          (install_members ns)

  -- `rounds` bounds the depth of the recursion.
  unfoldable pub apply_component : (rounds : ℕ) → (ci : ℕ) → Progress → Progress × Bool
  apply_component zero ci s = (s, false)
  apply_component (suc rounds) ci s =
      with_members (apply_component rounds) ci (members_at ci c.comp) s

  -- The loop over all components; `left` of them are left.
  unfoldable pub apply_rest : (rounds left i : ℕ) → Progress → Progress × Bool
  apply_rest rounds zero i s = (s, true)
  apply_rest rounds (suc left) i s =
      and_also (if s.emitted i then (s, true) else apply_component rounds i s)
        (apply_rest rounds left (i + 1))

  abbrev pub apply_root : (rounds : ℕ) → Option ℕ → Progress → Progress × Bool
  apply_root rounds none s = (s, true)
  apply_root rounds (some ci) s = apply_component rounds ci s

  -- From the valid plan on: `ri` is the node of the requested package.
  unfoldable pub apply_plan : (ri : ℕ) → (installed : ℕ → Bool) → Progress × Bool
  apply_plan ri installed =
      let start : Progress = record {
        emitted = λ i. false;
        installed = installed;
        calls = [];
        done = 0;
        skip = 0;
      } in
      let rounds = length c.comp + 1 in
      and_also (apply_root rounds (c.component ri) start) (apply_rest rounds (length c.comp) 0)
