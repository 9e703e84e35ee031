-- ===== src/Pkg/Apply/Component.antt =====
-- A whole call of apply_component (src/pkg_plan.c).
use mathlib.Core.Path.{subst}
use mathlib.Core.Option.{some-injective}
use native.Mathlib.Decide.{dec_lt}
use guppy.Prelude.{
  ℕ, zero, suc, ◌≡◌, ◌≢◌, inl, inr, refl, sym, ap, ◌∙◌, Bool, true, some, arith, List, Bool-cases,
  ==_refl, ne→==-false,
}
use guppy.Ascii.{Bytes}
use guppy.Pkg.Repo.{PkgRepoEntry}
use guppy.Pkg.Apply.{
  Components, Progress, set_at, members_at, install_members, follow_members, with_members,
  apply_component,
}
use guppy.Pkg.Apply.Order.{AllInstalled, AllInstalled-More, set_at-More, IsCondensed}
use guppy.Pkg.Apply.Run.{and_also-true, Complete, Log, Stepped, Ran, Installs}
use guppy.Pkg.Apply.Calls.{Runs, install_members-Installs, follow_members-Stepped}

set_at-other : (i j : ℕ) (f : ℕ → Bool) → j ≢ i → set_at i f j ≡ f j
set_at-other i j f n = let e = ne→==-false j i n in rw e refl

set_at-same : (i : ℕ) (f : ℕ → Bool) → set_at i f i ≡ true
set_at-same i f = let e = ==_refl i in rw e refl

module _ (entry : ℕ → PkgRepoEntry) (edges : List (ℕ × ℕ)) (c : Components)
    (cb : List ℕ → Bytes → Bool) (start : ℕ → Bool) (k : IsCondensed c edges) where
  Ran-of :
      (ci : ℕ) (ns : List ℕ) (s t u : Progress)
      → members_at ci c.comp ≡ some ns
      → Stepped c edges start ci (record s { emitted = set_at ci s.emitted }) t
      → Installs entry edges c cb start ns t u
      → Ran c edges start ci s u
  Ran-of ci ns s t u m a b = record {
    more = λ i h. b.more i (a.more i h);
    emits = λ i h. b.emitted i ∙ a.emits i (set_at-More ci s.emitted i h);
    frame = λ i h.
        b.emitted i ∙ a.frame i (omega arith) ∙ set_at-other ci i s.emitted (λ e. omega arith);
    complete = λ i hi e ms em. elim (dec_lt i ci) [
      | yes p ↦
          AllInstalled-More t.installed u.installed ms b.more
            (a.complete i p (sym (b.emitted i) ∙ e) ms em)
      | no p ↦
          let z : i ≡ ci = omega arith in
          let same = some-injective ns ms (sym m ∙ ap (λ j. members_at j c.comp) (sym z) ∙ em) in
          subst (AllInstalled u.installed) same b.all
    ];
    emitted = b.emitted ci ∙ a.frame ci (omega arith) ∙ set_at-same ci s.emitted;
    log = b.log;
  }

  with_members-Ran :
      (rec : ℕ → Progress → Progress × Bool) (ci : ℕ) (ns : List ℕ) (s : Progress)
      → Runs entry edges c cb start rec ci
      → members_at ci c.comp ≡ some ns
      → Complete c edges start (suc ci) s
      → Log c edges start s
      → (with_members entry edges c cb rec ci (some ns) s).1 ≡ true
      → Ran c edges start ci s (with_members entry edges c cb rec ci (some ns) s).0
  with_members-Ran rec ci ns s runs m h l = elim (Bool-cases (s.emitted ci)) [
    | inl e ↦
        let w : Ran c edges start ci s s = record {
          more = λ i x. x;
          emits = λ i x. x;
          frame = λ i x. refl;
          complete = h;
          emitted = e;
          log = l;
        } in
        rw e (λ ok. w)
    | inr e ↦
        let s1 = record s { emitted = set_at ci s.emitted } in
        let h1 : Complete c edges start ci s1 =
          λ i hi x. h i (omega arith) (sym (set_at-other ci i s.emitted (λ q. omega arith)) ∙ x) in
        let l1 : Log c edges start s1 = record { ordered = l.ordered; agrees = l.agrees } in
        let first = follow_members entry edges c cb rec ci ns s1 in
        rw e (λ ok.
          let (ok1, eq) = and_also-true first (install_members entry edges c cb ns) ok in
          let (a, r) =
            follow_members-Stepped entry edges c cb start k rec ci runs ns s1
              (λ n q. k.member_of ci n ns m q) h1 l1 ok1 in
          let b =
            install_members-Installs entry edges c cb start ns first.0 a.log r
              (ap (λ v. v.1) (sym eq) ∙ ok) in
          subst (λ v. Ran c edges start ci s v.0) (sym eq) (Ran-of ci ns s first.0 _ m a b))
  ]

  pub apply_component-Ran :
      (rounds ci : ℕ) (ns : List ℕ) (s : Progress)
      → members_at ci c.comp ≡ some ns
      → Complete c edges start (suc ci) s
      → Log c edges start s
      → (apply_component entry edges c cb rounds ci s).1 ≡ true
      → Ran c edges start ci s (apply_component entry edges c cb rounds ci s).0
  unfolding apply_component
  apply_component-Ran zero ci ns s m h l = λ ok. absurd (ground (arith, ok))
  apply_component-Ran (suc rounds) ci ns s m h l =
      let runs : Runs entry edges c cb start (apply_component entry edges c cb rounds) ci =
        λ dc ms q less em hq lq okq. apply_component-Ran rounds dc ms q em hq lq okq in
      let w = with_members-Ran (apply_component entry edges c cb rounds) ci ns s runs m h l in
      rw m w
