-- ===== src/Pkg/Apply/Whole.antt =====
-- The order in which pkg_plan_apply (src/pkg_plan.c) unpacks.
use mathlib.Core.Path.{subst}
use mathlib.Core.Option.{none-ne-some}
use native.Mathlib.Decide.{dec_lt}
use guppy.Prelude.{
  ℕ, zero, suc, ◌+◌, ◌≤◌, ◌<◌, ◌≡◌, inl, inr, refl, sym, ap, ◌∙◌, Bool, true, false, Option, none,
  some, arith, List, [], ◌∷◌, length, if◌then◌else◌, Bool-cases,
}
use guppy.Ascii.{Bytes}
use guppy.Pkg.Repo.{PkgRepoEntry}
use guppy.Pkg.Apply.{
  Components, Progress, members_at, apply_component, apply_rest, apply_root, apply_plan,
}
use guppy.Pkg.Apply.Order.{AllInstalled, More, Ordered, IsCondensed}
use guppy.Pkg.Apply.Run.{and_also-true, Complete, Log, Ran-Complete}
use guppy.Pkg.Apply.Component.{apply_component-Ran}

abbrev begin : (ℕ → Bool) → Progress
begin installed = record {
  emitted = λ i. false;
  installed = installed;
  calls = [];
  done = 0;
  skip = 0;
}

members_at-inside :
    (i : ℕ) (cs : List (List ℕ)) → i < length cs → (ns : List ℕ) × (members_at i cs ≡ some ns)
members_at-inside i [] h = absurd (omega arith)
members_at-inside zero (n ∷ cs) h = (n, refl)
members_at-inside (suc i) (n ∷ cs) h = members_at-inside i cs (omega arith)

pub members_at-below :
    (i : ℕ) (ns : List ℕ) (cs : List (List ℕ)) → members_at i cs ≡ some ns → i < 0 + length cs
members_at-below i ns [] h = absurd (none-ne-some ns h)
members_at-below zero ns (m ∷ cs) h = omega arith
members_at-below (suc i) ns (m ∷ cs) h = let r = members_at-below i ns cs h in omega (arith, r)

module _ (entry : ℕ → PkgRepoEntry) (edges : List (ℕ × ℕ)) (c : Components)
    (cb : List ℕ → Bytes → Bool) (start : ℕ → Bool) (k : IsCondensed c edges) where
  -- Everything emitted is installed.
  abbrev pub Sound : Progress → Type 0
  Sound s = ((n : ℕ) → Complete c edges start n s) × Log c edges start s

  record Passed (i left : ℕ) (s t : Progress) : Type 0 where
    emits : More s.emitted t.emitted
    sound : Sound t
    passed : (j : ℕ) → i ≤ j → j < i + left → t.emitted j ≡ true

  emit_one :
      (rounds i : ℕ) (ns : List ℕ) (s : Progress)
      → members_at i c.comp ≡ some ns
      → Sound s
      → (if s.emitted i then (s, true) else apply_component entry edges c cb rounds i s).1 ≡ true
      → Passed i 1 s
          (if s.emitted i then (s, true) else apply_component entry edges c cb rounds i s).0
  emit_one rounds i ns s m (h, l) = elim (Bool-cases (s.emitted i)) [
    | inl e ↦
        let w : Passed i 1 s s = record {
          emits = λ j x. x;
          sound = (h, l);
          passed = λ j lo hi. let z : j ≡ i = omega arith in ap s.emitted z ∙ e;
        } in
        rw e (λ ok. w)
    | inr e ↦ rw e (λ ok.
        let r = apply_component-Ran entry edges c cb start k rounds i ns s m (h (suc i)) l ok in
        record {
          emits = r.emits;
          sound = (λ n. Ran-Complete c edges start n i s _ (h n) r, r.log);
          passed = λ j lo hi.
              let z : j ≡ i = omega arith in
              ap (apply_component entry edges c cb rounds i s).0.emitted z ∙ r.emitted;
        })
  ]

  apply_rest-Passed :
      (rounds left i : ℕ) (s : Progress)
      → ((j : ℕ) → i ≤ j → j < i + left → (ns : List ℕ) × (members_at j c.comp ≡ some ns))
      → Sound s
      → (apply_rest entry edges c cb rounds left i s).1 ≡ true
      → Passed i left s (apply_rest entry edges c cb rounds left i s).0
  unfolding apply_rest
  apply_rest-Passed rounds zero i s m h ok = record {
    emits = λ j x. x;
    sound = h;
    passed = λ j lo hi. absurd (omega arith);
  }
  apply_rest-Passed rounds (suc left) i s m h ok =
      let (ns, em) = m i (omega arith) (omega arith) in
      let first = if s.emitted i then (s, true) else apply_component entry edges c cb rounds i s in
      let (ok1, e) = and_also-true first (apply_rest entry edges c cb rounds left (i + 1)) ok in
      let a = emit_one rounds i ns s em h ok1 in
      let b =
        apply_rest-Passed rounds left (i + 1) first.0 (λ j lo hi. m j (omega arith) (omega arith))
          a.sound (ap (λ v. v.1) (sym e) ∙ ok) in
      subst (λ v. Passed i (suc left) s v.0) (sym e)
        (record {
          emits = λ j x. b.emits j (a.emits j x);
          sound = b.sound;
          passed = λ j lo hi. elim (dec_lt i j) [
            | yes p ↦ b.passed j (omega arith) (omega arith)
            | no p ↦ b.emits j (a.passed j lo (omega arith))
          ];
        })

  root_Passed :
      (rounds : ℕ) (o : Option ℕ) (s : Progress)
      → ((ci : ℕ) → o ≡ some ci → (ns : List ℕ) × (members_at ci c.comp ≡ some ns))
      → Sound s
      → (apply_root entry edges c cb rounds o s).1 ≡ true
      → Sound (apply_root entry edges c cb rounds o s).0
  root_Passed rounds none s m h ok = h
  root_Passed rounds (some ci) s m h ok =
      let (ns, em) = m ci refl in
      let r =
        apply_component-Ran entry edges c cb start k rounds ci ns s em (h.0 (suc ci)) h.1 ok in
      (λ n. Ran-Complete c edges start n ci s _ (h.0 n) r, r.log)

  -- When pkg_plan_apply succeeds, every node has been unpacked or was present, and each that has been
  -- unpacked came behind all the packages it depends on, but for those of its own cycle.
  pub apply_plan-Ordered :
      (ri : ℕ)
      → (apply_plan entry edges c cb ri start).1 ≡ true
      → Ordered c start edges (apply_plan entry edges c cb ri start).0.calls
        × ((ci : ℕ) (ns : List ℕ)
            → members_at ci c.comp ≡ some ns
            → AllInstalled (apply_plan entry edges c cb ri start).0.installed ns)
  unfolding apply_plan
  apply_plan-Ordered ri ok =
      let first = apply_root entry edges c cb (length c.comp + 1) (c.component ri) (begin start) in
      let next = apply_rest entry edges c cb (length c.comp + 1) (length c.comp) 0 in
      let (ok1, e) = and_also-true first next ok in
      let a =
        root_Passed (length c.comp + 1) (c.component ri) (begin start)
          (λ ci q. let (ns, m, _) = k.has_member ri ci q in (ns, m))
          (λ n i hi q. absurd (ground (arith, q)), record { ordered = tt; agrees = λ i. refl })
          ok1 in
      let b =
        apply_rest-Passed (length c.comp + 1) (length c.comp) 0 first.0
          (λ j lo hi. members_at-inside j c.comp (omega arith)) a (ap (λ v. v.1) (sym e) ∙ ok) in
      subst
        (λ (v : Progress × Bool).
          Ordered c start edges v.0.calls
          × ((ci : ℕ) (ns : List ℕ)
              → members_at ci c.comp ≡ some ns
              → AllInstalled v.0.installed ns))
        (sym e)
        (
          b.sound.1.ordered,
          λ ci ns m.
              b.sound.0 (suc ci) ci (omega arith)
                (b.passed ci (omega arith) (members_at-below ci ns c.comp m)) ns m,
        )
