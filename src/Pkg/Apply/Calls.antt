-- ===== src/Pkg/Apply/Calls.antt =====
-- Every successful call of apply_component (src/pkg_plan.c), by induction on the depth.
use mathlib.Core.Path.{subst}
use guppy.Prelude.{
  ℕ, suc, ◌+◌, ◌≤◌, ◌<◌, ◌≡◌, ◌≢◌, inl, inr, refl, sym, ap, ◌∙◌, Bool, true, some, arith, ◌==◌,
  List, [], ◌∷◌, if◌then◌else◌, Bool-cases, ==_iff,
}
use guppy.Ascii.{Bytes}
use guppy.Pkg.Repo.{PkgRepoEntry}
use guppy.Pkg.Apply.{
  Components, Progress, members_at, entry_path, unpack, install_members, depend, follow_edges,
  follow_members,
}
use guppy.Pkg.Apply.Order.{
  Has, Has-installed, Ready, Ready-More, AllReady, AllReady-More, EdgesBack, IsCondensed,
}
use guppy.Pkg.Apply.Run.{
  and_also-true, Complete, Log, Stepped, Stepped-trans, Stepped-refl, Ran, Ran-Stepped, Installs,
  first_member,
}

module _ (entry : ℕ → PkgRepoEntry) (edges : List (ℕ × ℕ)) (c : Components)
    (cb : List ℕ → Bytes → Bool) (start : ℕ → Bool) where
  pub install_members-Installs :
      (ns : List ℕ) (s : Progress)
      → Log c edges start s
      → AllReady c s.installed edges ns
      → (install_members entry edges c cb ns s).1 ≡ true
      → Installs entry edges c cb start ns s (install_members entry edges c cb ns s).0
  unfolding install_members
  install_members-Installs [] s l r ok = record {
    more = λ i h. h;
    emitted = λ i. refl;
    all = tt;
    log = l;
  }
  install_members-Installs (n ∷ ns) s l r ok =
      let first =
        if s.installed n
        then (record s { skip = s.skip + 1 }, true)
        else unpack entry edges c cb n (entry_path (entry n) 1400) s in
      let (ok1, e) = and_also-true first (install_members entry edges c cb ns) ok in
      let a = first_member entry edges c cb start n s l r.0 ok1 in
      let b =
        install_members-Installs ns first.0 a.log
          (AllReady-More c s.installed first.0.installed edges ns a.more r.1)
          (ap (λ z. z.1) (sym e) ∙ ok) in
      subst (λ z. Installs entry edges c cb start (n ∷ ns) s z.0) (sym e)
        (record {
          more = λ i h. b.more i (a.more i h);
          emitted = λ i. b.emitted i ∙ a.emitted i;
          all = (b.more n a.all.0, b.all);
          log = b.log;
        })

  -- The calls for the components below `ci`.
  abbrev pub Runs : (ℕ → Progress → Progress × Bool) → (ci : ℕ) → Type 0
  Runs rec ci =
      (dc : ℕ) (ns : List ℕ) (s : Progress)
      → dc < ci
      → members_at dc c.comp ≡ some ns
      → Complete c edges start (suc dc) s
      → Log c edges start s
      → (rec dc s).1 ≡ true
      → Ran c edges start dc s (rec dc s).0

  module _ (k : IsCondensed c edges) (rec : ℕ → Progress → Progress × Bool) (ci : ℕ)
      (runs : Runs rec ci) where
    depend-Stepped :
        (b dc : ℕ) (s : Progress)
        → c.component b ≡ some dc
        → dc ≤ ci
        → Complete c edges start ci s
        → Log c edges start s
        → (depend entry edges c cb rec ci (some dc) s).1 ≡ true
        → Stepped c edges start ci s (depend entry edges c cb rec ci (some dc) s).0
          × (dc ≢ ci → (depend entry edges c cb rec ci (some dc) s).0.installed b ≡ true)
    depend-Stepped b dc s e le h l = elim (Bool-cases (dc == ci)) [
      | inl q ↦
          let q' : dc ≡ ci = (==_iff dc ci).0 q in
          rw q (λ ok. (Stepped-refl c edges start ci s h l, λ n. absurd (n q')))
      | inr q ↦
          let less : dc < ci = ground arith in
          let (ns, m, has) = k.has_member b dc e in
          rw q (λ ok.
            let r = runs dc ns s less m (λ i hi. h i (omega arith)) l ok in
            (
              Ran-Stepped c edges start ci dc s _ less h r,
              λ n. Has-installed _ b ns has (r.complete dc (omega arith) r.emitted ns m),
            ))
    ]

    edge-Stepped :
        (n a b : ℕ) (s : Progress)
        → c.component n ≡ some ci
        → ((ca : ℕ) → c.component a ≡ some ca → (cb : ℕ) × (c.component b ≡ some cb) × (cb ≤ ca))
        → Complete c edges start ci s
        → Log c edges start s
        → (if a == n then depend entry edges c cb rec ci (c.component b) s else (s, true)).1 ≡ true
        → Stepped c edges start ci s
            (if a == n then depend entry edges c cb rec ci (c.component b) s else (s, true)).0
          × (a ≡ n
              → c.component b ≢ c.component n
              → (if a == n
                    then depend entry edges c cb rec ci (c.component b) s
                    else (s, true)).0.installed
                  b
                ≡ true)
    edge-Stepped n a b s en back h l = elim (Bool-cases (a == n)) [
      | inr q ↦ rw q (λ ok.
          (Stepped-refl c edges start ci s h l, λ e. absurd (ground (arith, (==_iff a n).1 e, q))))
      | inl q ↦
          let e : a ≡ n = (==_iff a n).0 q in
          let (dc, eb, le) = back ci (ap c.component e ∙ en) in
          let w = depend-Stepped b dc s eb le h l in
          rw (q, eb) (λ ok. let (x, y) = w ok in (x, λ z d. y (λ same. d (ap some same ∙ sym en))))
    ]

    follow_edges-Stepped :
        (n : ℕ) (es : List (ℕ × ℕ)) (s : Progress)
        → c.component n ≡ some ci
        → EdgesBack c es
        → Complete c edges start ci s
        → Log c edges start s
        → (follow_edges entry edges c cb rec ci n es s).1 ≡ true
        → Stepped c edges start ci s (follow_edges entry edges c cb rec ci n es s).0
          × Ready c (follow_edges entry edges c cb rec ci n es s).0.installed n es
    unfolding follow_edges
    follow_edges-Stepped n [] s en back h l ok = (Stepped-refl c edges start ci s h l, tt)
    follow_edges-Stepped n ((a, b) ∷ es) s en back h l ok =
        let first =
          if a == n then depend entry edges c cb rec ci (c.component b) s else (s, true) in
        let (ok1, e) = and_also-true first (follow_edges entry edges c cb rec ci n es) ok in
        let (x, y) = edge-Stepped n a b s en back.0 h l ok1 in
        let (z, r) =
          follow_edges-Stepped n es first.0 en back.1 x.complete x.log
            (ap (λ v. v.1) (sym e) ∙ ok) in
        subst (λ v. Stepped c edges start ci s v.0 × Ready c v.0.installed n ((a, b) ∷ es)) (sym e)
          (Stepped-trans c edges start ci s first.0 _ x z, (λ q d. z.more b (y q d), r))

    pub follow_members-Stepped :
        (ns : List ℕ) (s : Progress)
        → ((n : ℕ) → Has n ns → c.component n ≡ some ci)
        → Complete c edges start ci s
        → Log c edges start s
        → (follow_members entry edges c cb rec ci ns s).1 ≡ true
        → Stepped c edges start ci s (follow_members entry edges c cb rec ci ns s).0
          × AllReady c (follow_members entry edges c cb rec ci ns s).0.installed edges ns
    unfolding follow_members
    follow_members-Stepped [] s m h l ok = (Stepped-refl c edges start ci s h l, tt)
    follow_members-Stepped (n ∷ ns) s m h l ok =
        let first = follow_edges entry edges c cb rec ci n edges s in
        let (ok1, e) = and_also-true first (follow_members entry edges c cb rec ci ns) ok in
        let (x, y) = follow_edges-Stepped n edges s (m n (inl refl)) k.edge_back h l ok1 in
        let (z, r) =
          follow_members-Stepped ns first.0 (λ j q. m j (inr q)) x.complete x.log
            (ap (λ v. v.1) (sym e) ∙ ok) in
        subst (λ v. Stepped c edges start ci s v.0 × AllReady c v.0.installed edges (n ∷ ns))
          (sym e)
          (
            Stepped-trans c edges start ci s first.0 _ x z,
            (Ready-More c first.0.installed _ n edges z.more y, r),
          )
