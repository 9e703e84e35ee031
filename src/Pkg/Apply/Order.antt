-- ===== src/Pkg/Apply/Order.antt =====
-- What it means that packages are unpacked behind their dependencies (src/pkg_plan.c).
use guppy.Prelude.{
  ℕ, ◌≤◌, ◌≡◌, ◌≢◌, ◌⊎◌, inl, inr, refl, ap, ◌∙◌, Bool, true, some, ◌==◌, List, [], ◌∷◌, ◌++◌,
  Bool-cases,
}
use guppy.Pkg.Apply.{Components, set_at, members_at}

-- `b` is among the members.
abbrev pub Has : ℕ → List ℕ → Type 0
Has b [] = ⊥
Has b (m ∷ ms) = (b ≡ m) ⊎ Has b ms

abbrev pub AllInstalled : (ℕ → Bool) → List ℕ → Type 0
AllInstalled f [] = Unit {0}
AllInstalled f (n ∷ ns) = (f n ≡ true) × AllInstalled f ns

pub Has-installed : (f : ℕ → Bool) (b : ℕ) (ns : List ℕ) → Has b ns → AllInstalled f ns → f b ≡ true
Has-installed f b [] h a = absurd h
Has-installed f b (n ∷ ns) (inl e) a = ap f e ∙ a.0
Has-installed f b (n ∷ ns) (inr h) a = Has-installed f b ns h a.1

-- Nothing is uninstalled.
abbrev pub More : (ℕ → Bool) → (ℕ → Bool) → Type 0
More f g = (i : ℕ) → f i ≡ true → g i ≡ true

pub AllInstalled-More :
    (f g : ℕ → Bool) (ns : List ℕ) → More f g → AllInstalled f ns → AllInstalled g ns
AllInstalled-More f g [] m a = tt
AllInstalled-More f g (n ∷ ns) m a = (m n a.0, AllInstalled-More f g ns m a.1)

pub set_at-More : (i : ℕ) (f : ℕ → Bool) → More f (set_at i f)
set_at-More i f j h = elim (Bool-cases (j == i)) [ inl e ↦ rw e refl | inr e ↦ rw e h ]

-- What is installed after the calls.
abbrev pub after : (ℕ → Bool) → List ℕ → ℕ → Bool
after f [] = f
after f (n ∷ ns) = after (set_at n f) ns

pub after-append :
    (f : ℕ → Bool) (ns : List ℕ) (n : ℕ) → after f (ns ++ n ∷ []) ≡ set_at n (after f ns)
after-append f [] n = refl
after-append f (m ∷ ns) n = after-append (set_at m f) ns n

module _ (c : Components) where
  -- The edges from `n` to another component lead to what is installed.
  abbrev pub Ready : (ℕ → Bool) → (n : ℕ) → List (ℕ × ℕ) → Type 0
  Ready f n [] = Unit {0}
  Ready f n ((a, b) ∷ es) = (a ≡ n → c.component b ≢ c.component n → f b ≡ true) × Ready f n es

  pub Ready-More :
      (f g : ℕ → Bool) (n : ℕ) (es : List (ℕ × ℕ)) → More f g → Ready f n es → Ready g n es
  Ready-More f g n [] m r = tt
  Ready-More f g n ((a, b) ∷ es) m r = (λ e d. m b (r.0 e d), Ready-More f g n es m r.1)

  abbrev pub AllReady : (ℕ → Bool) → List (ℕ × ℕ) → List ℕ → Type 0
  AllReady f es [] = Unit {0}
  AllReady f es (n ∷ ns) = Ready f n es × AllReady f es ns

  pub AllReady-More :
      (f g : ℕ → Bool) (es : List (ℕ × ℕ)) (ns : List ℕ)
      → More f g
      → AllReady f es ns
      → AllReady g es ns
  AllReady-More f g es [] m r = tt
  AllReady-More f g es (n ∷ ns) m r = (Ready-More f g n es m r.0, AllReady-More f g es ns m r.1)

  -- Each call comes when all that its node depends on, in other components, is installed.
  abbrev pub Ordered : (ℕ → Bool) → List (ℕ × ℕ) → List ℕ → Type 0
  Ordered f es [] = Unit {0}
  Ordered f es (n ∷ ns) = Ready f n es × Ordered (set_at n f) es ns

  pub Ordered-append :
      (f : ℕ → Bool) (es : List (ℕ × ℕ)) (ns : List ℕ) (n : ℕ)
      → Ordered f es ns
      → Ready (after f ns) n es
      → Ordered f es (ns ++ n ∷ [])
  Ordered-append f es [] n o r = (r, tt)
  Ordered-append f es (m ∷ ns) n o r = (o.0, Ordered-append (set_at m f) es ns n o.1 r)

  abbrev pub EdgesBack : List (ℕ × ℕ) → Type 0
  EdgesBack [] = Unit {0}
  EdgesBack ((a, b) ∷ es) =
      ((ca : ℕ) → c.component a ≡ some ca → (cb : ℕ) × (c.component b ≡ some cb) × (cb ≤ ca))
      × EdgesBack es

  -- The components in an order of dependencies: an edge leads to the same component or to one
  -- further ahead in the list, and the members of a component are those of that number.
  pub record IsCondensed (es : List (ℕ × ℕ)) : Type 0 where
    pub edge_back : EdgesBack es
    pub has_member :
        (b ci : ℕ)
        → c.component b ≡ some ci
        → (ns : List ℕ) × (members_at ci c.comp ≡ some ns) × Has b ns
    pub member_of :
        (ci n : ℕ) (ns : List ℕ)
        → members_at ci c.comp ≡ some ns
        → Has n ns
        → c.component n ≡ some ci
