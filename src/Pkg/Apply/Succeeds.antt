-- ===== src/Pkg/Apply/Succeeds.antt =====
-- pkg_plan_apply (src/pkg_plan.c) comes to an end, and fails only if a package cannot be unpacked.
use guppy.Prelude.{
  ℕ, zero, suc, ◌+◌, ◌<◌, ◌≡◌, inl, inr, refl, ap, ◌∙◌, Bool, true, false, Option, none, some,
  arith, ◌==◌, List, [], ◌∷◌, length, Bool-cases, ==_iff,
}
use guppy.Ascii.{Bytes}
use guppy.Pkg.Repo.{PkgRepoEntry}
use guppy.Pkg.Apply.{
  Components, Progress, set_at, members_at, and_also, entry_path, unpack, install_members,
  follow_edges, follow_members, with_members, apply_component, apply_rest, apply_root, apply_plan,
}
use guppy.Pkg.Apply.Order.{Has, EdgesBack, IsCondensed}
use guppy.Pkg.Apply.Whole.{members_at-below}

and_also-ok :
    (r : Progress × Bool) (next : Progress → Progress × Bool)
    → r.1 ≡ true
    → ((s : Progress) → (next s).1 ≡ true)
    → (and_also r next).1 ≡ true
and_also-ok (s, false) next h n = h
and_also-ok (s, true) next h n = n s

-- A path, and a callback that takes it.
abbrev pub Unpacks : (List ℕ → Bytes → Bool) → Option Bytes → Type 0
Unpacks cb none = ⊥
Unpacks cb (some path) = (calls : List ℕ) → cb calls path ≡ true

module _ (entry : ℕ → PkgRepoEntry) (edges : List (ℕ × ℕ)) (c : Components)
    (cb : List ℕ → Bytes → Bool) (good : (n : ℕ) → Unpacks cb (entry_path (entry n) 1400)) where
  unpack-ok :
      (n : ℕ) (path : Option Bytes) (s : Progress)
      → Unpacks cb path
      → (unpack entry edges c cb n path s).1 ≡ true
  unpack-ok n none s u = absurd u
  unpack-ok n (some path) s u = let e = u s.calls in rw e refl

  install_members-ok :
      (ns : List ℕ) (s : Progress) → (install_members entry edges c cb ns s).1 ≡ true
  unfolding install_members
  install_members-ok [] s = refl
  install_members-ok (n ∷ ns) s =
      and_also-ok _ (install_members entry edges c cb ns)
        (elim (Bool-cases (s.installed n)) [
          | inl e ↦ rw e refl
          | inr e ↦ rw e (unpack-ok n (entry_path (entry n) 1400) s (good n))
        ])
        (install_members-ok ns)

  module _ (k : IsCondensed c edges) where
    Goes : (ℕ → Progress → Progress × Bool) → (ci : ℕ) → Type 0
    Goes rec ci = (dc : ℕ) (s : Progress) → dc < ci → (rec dc s).1 ≡ true

    follow_edges-ok :
        (rec : ℕ → Progress → Progress × Bool) (ci n : ℕ) (es : List (ℕ × ℕ)) (s : Progress)
        → Goes rec ci
        → c.component n ≡ some ci
        → EdgesBack c es
        → (follow_edges entry edges c cb rec ci n es s).1 ≡ true
    unfolding follow_edges Goes
    follow_edges-ok rec ci n [] s g en back = refl
    follow_edges-ok rec ci n ((a, b) ∷ es) s g en back =
        and_also-ok _ (follow_edges entry edges c cb rec ci n es)
          (elim (Bool-cases (a == n)) [
            | inr q ↦ rw q refl
            | inl q ↦
                let e : a ≡ n = (==_iff a n).0 q in
                let (dc, eb, le) = back.0 ci (ap c.component e ∙ en) in
                elim (Bool-cases (dc == ci)) [
                  | inl z ↦ rw (q, eb, z) refl
                  | inr z ↦ let less : dc < ci = ground arith in rw (q, eb, z) (g dc s less)
                ]
          ])
          λ t. follow_edges-ok rec ci n es t g en back.1

    follow_members-ok :
        (rec : ℕ → Progress → Progress × Bool) (ci : ℕ) (ns : List ℕ) (s : Progress)
        → Goes rec ci
        → ((n : ℕ) → Has n ns → c.component n ≡ some ci)
        → (follow_members entry edges c cb rec ci ns s).1 ≡ true
    unfolding follow_members
    follow_members-ok rec ci [] s g m = refl
    follow_members-ok rec ci (n ∷ ns) s g m =
        and_also-ok (follow_edges entry edges c cb rec ci n edges s)
          (follow_members entry edges c cb rec ci ns)
          (follow_edges-ok rec ci n edges s g (m n (inl refl)) k.edge_back)
          λ t. follow_members-ok rec ci ns t g (λ j h. m j (inr h))

    with_members-ok :
        (rec : ℕ → Progress → Progress × Bool) (ci : ℕ) (o : Option (List ℕ)) (s : Progress)
        → members_at ci c.comp ≡ o
        → Goes rec ci
        → (with_members entry edges c cb rec ci o s).1 ≡ true
    with_members-ok rec ci none s e g = refl
    with_members-ok rec ci (some ns) s e g = elim (Bool-cases (s.emitted ci)) [
      | inl z ↦ rw z refl
      | inr z ↦
          let s1 = record s { emitted = set_at ci s.emitted } in
          rw z (
            and_also-ok (follow_members entry edges c cb rec ci ns s1)
              (install_members entry edges c cb ns)
              (follow_members-ok rec ci ns s1 g (λ n h. k.member_of ci n ns e h))
              (install_members-ok ns))
    ]

    apply_component-ok :
        (rounds ci : ℕ) (s : Progress)
        → ci < rounds
        → (apply_component entry edges c cb rounds ci s).1 ≡ true
    unfolding apply_component Goes
    apply_component-ok zero ci s h = absurd (omega arith)
    apply_component-ok (suc rounds) ci s h =
        with_members-ok (apply_component entry edges c cb rounds) ci (members_at ci c.comp) s refl
          λ dc t less. apply_component-ok rounds dc t (omega arith)

    apply_rest-ok :
        (rounds left i : ℕ) (s : Progress)
        → i + left < rounds
        → (apply_rest entry edges c cb rounds left i s).1 ≡ true
    unfolding apply_rest
    apply_rest-ok rounds zero i s h = refl
    apply_rest-ok rounds (suc left) i s h =
        and_also-ok _ (apply_rest entry edges c cb rounds left (i + 1))
          (elim (Bool-cases (s.emitted i)) [
            | inl e ↦ rw e refl
            | inr e ↦ rw e (apply_component-ok rounds i s (omega arith))
          ])
          λ t. apply_rest-ok rounds left (i + 1) t (omega arith)

    apply_root-ok :
        (ri : ℕ) (o : Option ℕ) (s : Progress)
        → c.component ri ≡ o
        → (apply_root entry edges c cb (length c.comp + 1) o s).1 ≡ true
    apply_root-ok ri none s e = refl
    apply_root-ok ri (some ci) s e =
        let (ns, m, _) = k.has_member ri ci e in
        apply_component-ok (length c.comp + 1) ci s (omega (arith, members_at-below ci ns c.comp m))

    -- If every path fits its buffer and the callback takes it, pkg_plan_apply succeeds: the depth of
    -- the calls is bounded by the number of components, for any order of the members and the edges.
    pub apply_plan-ok :
        (ri : ℕ) (installed : ℕ → Bool) → (apply_plan entry edges c cb ri installed).1 ≡ true
    unfolding apply_plan
    apply_plan-ok ri installed =
        and_also-ok _ (apply_rest entry edges c cb (length c.comp + 1) (length c.comp) 0)
          (apply_root-ok ri (c.component ri) _ refl)
          λ t. apply_rest-ok (length c.comp + 1) (length c.comp) 0 t (omega arith)
