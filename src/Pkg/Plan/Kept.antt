-- ===== src/Pkg/Plan/Kept.antt =====
-- What expand (src/pkg_plan.c) keeps of the nodes of a plan.
use mathlib.Core.Option.{some-injective, none-ne-some}
use guppy.Prelude.{
  ℕ, zero, suc, ◌+◌, ◌≤◌, ◌<◌, ◌≡◌, inl, inr, refl, sym, ap, ◌∙◌, Bool, true, false, Option, none,
  some, arith, List, [], ◌∷◌, ◌++◌, length, length-append, Bool-cases, ltb, leb, ltb→lt,
}
use guppy.Ascii.{Bytes, same, same_refl}
use guppy.Pkg.Repo.{PkgRepoEntry}
use guppy.Pkg.Plan.{
  Node, Plan, node_at, update, new_node, node_for, add_edge, max_nodes, position, set_installed,
  set_visiting, set_done,
}

-- The same package, no less done.
pub record SameNode (n m : Node) : Type 0 where
  pub same_entry : m.e ≡ n.e
  pub same_visiting : m.visiting ≡ n.visiting
  pub still_done : n.done ≡ true → m.done ≡ true

abbrev pub NoneVisiting : List Node → Type 0
NoneVisiting [] = Unit {0}
NoneVisiting (m ∷ ms) = (m.visiting ≡ false) × NoneVisiting ms

-- The nodes are kept, in their places; no new one is being visited.
abbrev pub Kept : List Node → List Node → Type 0
Kept [] ms = NoneVisiting ms
Kept (n ∷ ns) [] = ⊥
Kept (n ∷ ns) (m ∷ ms) = SameNode n m × Kept ns ms

SameNode-refl : (n : Node) → SameNode n n
SameNode-refl n = record { same_entry = refl; same_visiting = refl; still_done = λ h. h }

SameNode-trans : (n m k : Node) → SameNode n m → SameNode m k → SameNode n k
SameNode-trans n m k a b = record {
  same_entry = b.same_entry ∙ a.same_entry;
  same_visiting = b.same_visiting ∙ a.same_visiting;
  still_done = λ h. b.still_done (a.still_done h);
}

pub Kept-refl : (ns : List Node) → Kept ns ns
Kept-refl [] = tt
Kept-refl (n ∷ ns) = (SameNode-refl n, Kept-refl ns)

NoneVisiting-Kept : (ns ms : List Node) → NoneVisiting ns → Kept ns ms → NoneVisiting ms
NoneVisiting-Kept [] ms v k = k
NoneVisiting-Kept (n ∷ ns) [] v k = absurd k
NoneVisiting-Kept (n ∷ ns) (m ∷ ms) v k = (k.0.same_visiting ∙ v.0, NoneVisiting-Kept ns ms v.1 k.1)

pub Kept-trans : (ns ms ks : List Node) → Kept ns ms → Kept ms ks → Kept ns ks
Kept-trans [] ms ks a b = NoneVisiting-Kept ms ks a b
Kept-trans (n ∷ ns) [] ks a b = absurd a
Kept-trans (n ∷ ns) (m ∷ ms) [] a b = absurd b
Kept-trans (n ∷ ns) (m ∷ ms) (k ∷ ks) a b =
    (SameNode-trans n m k a.0 b.0, Kept-trans ns ms ks a.1 b.1)

pub Kept-append : (ns : List Node) (e : PkgRepoEntry) → Kept ns (ns ++ new_node e ∷ [])
Kept-append [] e = (refl, tt)
Kept-append (n ∷ ns) e = (SameNode-refl n, Kept-append ns e)

pub Kept-update :
    (i : ℕ) (f : Node → Node) (ns : List Node)
    → ((n : Node) → SameNode n (f n))
    → Kept ns (update i f ns)
Kept-update i f [] h = tt
Kept-update zero f (n ∷ ns) h = (h n, Kept-refl ns)
Kept-update (suc i) f (n ∷ ns) h = (SameNode-refl n, Kept-update i f ns h)

pub set_installed-SameNode : (b : Bool) (n : Node) → SameNode n (set_installed b n)
set_installed-SameNode b n = record { same_entry = refl; same_visiting = refl; still_done = λ h. h }

pub set_done-SameNode : (n : Node) → SameNode n (set_done n)
set_done-SameNode n = record { same_entry = refl; same_visiting = refl; still_done = λ h. refl }

-- A visit that begins and ends.
pub Kept-visit :
    (i : ℕ) (n : Node) (ns ms : List Node)
    → node_at i ns ≡ some n
    → n.visiting ≡ false
    → Kept (update i (set_visiting true) ns) ms
    → Kept ns (update i (set_visiting false) ms)
Kept-visit i n [] ms e v k = absurd (none-ne-some n e)
Kept-visit zero n (x ∷ ns) [] e v k = absurd k
Kept-visit zero n (x ∷ ns) (m ∷ ms) e v k = (
  record {
    same_entry = k.0.same_entry;
    same_visiting = sym (ap (λ (m : Node). m.visiting) (some-injective x n e) ∙ v);
    still_done = k.0.still_done;
  },
  k.1,
)
Kept-visit (suc i) n (x ∷ ns) [] e v k = absurd k
Kept-visit (suc i) n (x ∷ ns) (m ∷ ms) e v k = (k.0, Kept-visit i n ns ms e v k.1)

-- What a call makes of a plan.
pub record Grows (p q : Plan) : Type 0 where
  pub kept : Kept p.n q.n
  pub bounded : length p.n ≤ max_nodes → length q.n ≤ max_nodes

pub Grows-refl : (p : Plan) → Grows p p
Grows-refl p = record { kept = Kept-refl p.n; bounded = λ h. h }

pub Grows-trans : (p q r : Plan) → Grows p q → Grows q r → Grows p r
Grows-trans p q r a b = record {
  kept = Kept-trans p.n q.n r.n a.kept b.kept;
  bounded = λ h. b.bounded (a.bounded h);
}

pub length-update : (i : ℕ) (f : Node → Node) (ns : List Node) → length (update i f ns) ≡ length ns
length-update i f [] = refl
length-update zero f (n ∷ ns) = refl
length-update (suc i) f (n ∷ ns) = ap suc (length-update i f ns)

pub n-add_edge : (p : Plan) (a b : ℕ) → (add_edge p a b).n ≡ p.n
unfolding add_edge
n-add_edge p a b = elim (Bool-cases (ltb (length p.edges) 4096)) [
  | inl e ↦ rw e refl
  | inr e ↦ rw e refl
]

-- The node of an entry, in a plan that has grown.
pub record FoundIn (p : Plan) (d : PkgRepoEntry) (q : Plan) (di : ℕ) : Type 0 where
  pub grows : Grows p q
  pub place : position d.package_name q.n ≡ di
  pub inside : di < length q.n

abbrev pub Found : Plan → PkgRepoEntry → Option (Plan × ℕ) → Type 0
Found p d none = Unit {0}
Found p d (some (q, di)) = FoundIn p d q di

position-append :
    (ns : List Node) (d : PkgRepoEntry)
    → length ns ≤ position d.package_name ns
    → position d.package_name (ns ++ new_node d ∷ []) ≡ length ns
unfolding position
position-append [] d h = let e = same_refl d.package_name in rw e refl
position-append (n ∷ ns) d h = elim (Bool-cases (same n.e.package_name d.package_name)) [
  | inl e ↦ absurd (omega (arith, rw e at h))
  | inr e ↦
      let h' : suc (length ns) ≤ suc (position d.package_name ns) = rw e at h in
      rw e (ap suc (position-append ns d (omega (arith, h'))))
]

pub position-upto : (ns : List Node) (name : Bytes) → position name ns ≤ length ns
unfolding position
position-upto [] name = omega arith
position-upto (n ∷ ns) name = elim (Bool-cases (same n.e.package_name name)) [
  | inl e ↦ rw e (omega arith)
  | inr e ↦ let h = position-upto ns name in rw e (omega (arith, h))
]

-- A node is found or appended.
pub node_for-Found : (p : Plan) (d : PkgRepoEntry) → Found p d (node_for p d)
unfolding node_for
node_for-Found p d = elim (Bool-cases (ltb (position d.package_name p.n) (length p.n))) [
  | inl a ↦ rw a (record { grows = Grows-refl p; place = refl; inside = ltb→lt _ _ a })
  | inr a ↦ elim (Bool-cases (leb 512 (length p.n))) [
    | inl b ↦ rw (a, b) tt
    | inr b ↦ rw (a, b) (appended p d _ refl a b)
  ]
]
  where
    below : (m : ℕ) → leb 512 m ≡ false → m < 512
    below m h = ground arith

    appended :
        (p : Plan) (d : PkgRepoEntry) (i : ℕ)
        → position d.package_name p.n ≡ i
        → ltb i (length p.n) ≡ false
        → leb 512 (length p.n) ≡ false
        → FoundIn p d (record p { n = p.n ++ new_node d ∷ [] }) i
    appended p d i ei a b =
        let z : length (p.n ++ new_node d ∷ []) ≡ length p.n + 1 =
          length-append p.n (new_node d ∷ []) in
        let u = position-upto p.n d.package_name in
        let l : i ≡ length p.n = ground (arith, ei, u, a) in
        record {
          grows = record {
            kept = Kept-append p.n d;
            bounded = λ h. omega (arith, z, below (length p.n) b);
          };
          place = position-append p.n d (omega (arith, ei, l)) ∙ sym l;
          inside = omega (arith, z, l);
        }
