-- ===== src/Pkg/Apply/Run.antt =====
-- A call of apply_component (src/pkg_plan.c) that succeeds has unpacked in order.
use mathlib.Core.Path.{subst}
use native.Mathlib.Decide.{dec_lt}
use guppy.Prelude.{
  ℕ, suc, ◌+◌, ◌≤◌, ◌<◌, ◌≡◌, inl, inr, refl, sym, ap, ◌∙◌, Bool, true, false, Option, none, some,
  arith, ◌==◌, List, [], ◌∷◌, ◌++◌, if◌then◌else◌, Bool-cases, ==_refl,
}
use guppy.Ascii.{Bytes}
use guppy.Pkg.Repo.{PkgRepoEntry}
use guppy.Pkg.Apply.{Components, Progress, set_at, members_at, and_also, entry_path, unpack}
use guppy.Pkg.Apply.Order.{
  AllInstalled, More, AllInstalled-More, set_at-More, after, after-append, Ready, Ready-More,
  Ordered, Ordered-append,
}

pub and_also-true :
    (r : Progress × Bool) (next : Progress → Progress × Bool)
    → (and_also r next).1 ≡ true
    → (r.1 ≡ true) × (and_also r next ≡ next r.0)
and_also-true (q, false) next h = absurd (ground (arith, h))
and_also-true (q, true) next h = (refl, refl)

module _ (c : Components) (edges : List (ℕ × ℕ)) (start : ℕ → Bool) where
  -- The components below `k` that have been emitted are installed.
  abbrev pub Complete : (k : ℕ) → Progress → Type 0
  Complete k s =
      (i : ℕ)
      → i < k
      → s.emitted i ≡ true
      → (ns : List ℕ) → members_at i c.comp ≡ some ns
      → AllInstalled s.installed ns

  -- The calls so far are in order, and say what is installed.
  pub record Log (s : Progress) : Type 0 where
    pub ordered : Ordered c start edges s.calls
    pub agrees : (i : ℕ) → s.installed i ≡ after start s.calls i

  -- Between two steps of a call for the component `ci`.
  pub record Stepped (ci : ℕ) (s t : Progress) : Type 0 where
    pub more : More s.installed t.installed
    pub emits : More s.emitted t.emitted
    pub frame : (i : ℕ) → ci ≤ i → t.emitted i ≡ s.emitted i
    pub complete : Complete ci t
    pub log : Log t

  -- A whole call for the component `ci`.
  pub record Ran (ci : ℕ) (s t : Progress) : Type 0 where
    pub more : More s.installed t.installed
    pub emits : More s.emitted t.emitted
    pub frame : (i : ℕ) → ci < i → t.emitted i ≡ s.emitted i
    pub complete : Complete (suc ci) t
    pub emitted : t.emitted ci ≡ true
    pub log : Log t

  pub Stepped-trans : (ci : ℕ) (s t u : Progress) → Stepped ci s t → Stepped ci t u → Stepped ci s u
  Stepped-trans ci s t u a b = record {
    more = λ i h. b.more i (a.more i h);
    emits = λ i h. b.emits i (a.emits i h);
    frame = λ i h. b.frame i h ∙ a.frame i h;
    complete = b.complete;
    log = b.log;
  }

  pub Stepped-refl : (ci : ℕ) (s : Progress) → Complete ci s → Log s → Stepped ci s s
  Stepped-refl ci s k l = record {
    more = λ i h. h;
    emits = λ i h. h;
    frame = λ i h. refl;
    complete = k;
    log = l;
  }

  -- What was complete stays so under a call for a component further ahead.
  pub Ran-Complete : (k ci : ℕ) (s t : Progress) → Complete k s → Ran ci s t → Complete k t
  Ran-Complete k ci s t h r i hi e ns m = elim (dec_lt ci i) [
    | yes p ↦
        AllInstalled-More s.installed t.installed ns r.more (h i hi (sym (r.frame i p) ∙ e) ns m)
    | no p ↦ r.complete i (omega arith) e ns m
  ]

  pub Ran-Stepped :
      (ci dc : ℕ) (s t : Progress) → dc < ci → Complete ci s → Ran dc s t → Stepped ci s t
  Ran-Stepped ci dc s t h k r = record {
    more = r.more;
    emits = r.emits;
    frame = λ i l. r.frame i (omega arith);
    complete = Ran-Complete ci dc s t k r;
    log = r.log;
  }

module _ (entry : ℕ → PkgRepoEntry) (edges : List (ℕ × ℕ)) (c : Components)
    (cb : List ℕ → Bytes → Bool) (start : ℕ → Bool) where
  -- Installing the members of a component.
  pub record Installs (ns : List ℕ) (s t : Progress) : Type 0 where
    pub more : More s.installed t.installed
    pub emitted : (i : ℕ) → t.emitted i ≡ s.emitted i
    pub all : AllInstalled t.installed ns
    pub log : Log c edges start t

  unpack-Log :
      (n : ℕ) (s t : Progress)
      → Log c edges start s
      → Ready c s.installed n edges
      → t.calls ≡ s.calls ++ n ∷ []
      → ((i : ℕ) → t.installed i ≡ set_at n s.installed i)
      → Log c edges start t
  unpack-Log n s t l r e f = record {
    ordered = subst (Ordered c start edges) (sym e) (
        Ordered-append c start edges s.calls n l.ordered
          (Ready-More c s.installed (after start s.calls) n edges (λ i h. sym (l.agrees i) ∙ h) r));
    agrees = λ i.
        f i
        ∙ ap (λ b. if i == n then true else b) (l.agrees i)
        ∙ ap (λ g. g i) (sym (after-append start s.calls n) ∙ ap (after start) (sym e));
  }

  one_member :
      (n : ℕ) (s : Progress) (path : Option Bytes)
      → Log c edges start s
      → Ready c s.installed n edges
      → (unpack entry edges c cb n path s).1 ≡ true
      → Installs (n ∷ []) s (unpack entry edges c cb n path s).0
  one_member n s none l r = λ ok. absurd (ground (arith, ok))
  one_member n s (some path) l r = elim (Bool-cases (cb s.calls path)) [
    | inr e ↦ rw e (λ ok. absurd (ground (arith, ok)))
    | inl e ↦ rw e (λ ok. record {
      more = set_at-More n s.installed;
      emitted = λ i. refl;
      all = (let z = ==_refl n in rw z refl, tt);
      log = unpack-Log n s _ l r refl (λ i. refl);
    })
  ]

  present_member :
      (n : ℕ) (s : Progress)
      → s.installed n ≡ true
      → Log c edges start s
      → Installs (n ∷ []) s (record s { skip = s.skip + 1 })
  present_member n s e l = record {
    more = λ i h. h;
    emitted = λ i. refl;
    all = (e, tt);
    log = record { ordered = l.ordered; agrees = l.agrees };
  }

  pub first_member :
      (n : ℕ) (s : Progress)
      → Log c edges start s
      → Ready c s.installed n edges
      → (if s.installed n
          then (record s { skip = s.skip + 1 }, true)
          else unpack entry edges c cb n (entry_path (entry n) 1400) s).1
        ≡ true
      → Installs
          (n ∷ [])
          s
          (if s.installed n
            then (record s { skip = s.skip + 1 }, true)
            else unpack entry edges c cb n (entry_path (entry n) 1400) s).0
  first_member n s l r = elim (Bool-cases (s.installed n)) [
    | inl e ↦ let w = present_member n s e l in rw e (λ ok. w)
    | inr e ↦ let w = one_member n s (entry_path (entry n) 1400) l r in rw e w
  ]
