-- ===== src/Pkg/Tarjan.antt =====
-- The strongly connected components of a plan (src/pkg_plan.c: tarjan, build_components).
use guppy.Prelude.{
  ℕ, zero, suc, ◌+◌, Bool, true, false, not, Option, none, some, ◌==◌, ◌||◌, List, [], ◌∷◌, ◌++◌,
  length, if◌then◌else◌, ltb, leb,
}
use guppy.Pkg.Plan.{max_nodes}
use guppy.Pkg.Apply.{Components}

-- The fields of the nodes that tarjan uses, by number; `none` is -1. The top of `stack` is its head.
pub record Tarjan : Type 0 where
  pub index : ℕ → Option ℕ
  pub low : ℕ → ℕ
  pub onstack : ℕ → Bool
  pub component : ℕ → Option ℕ
  pub next_index : ℕ
  pub stack : List ℕ
  pub comp : List (List ℕ)

abbrev pub put {ℓ} : {A : Type ℓ} → ℕ → A → (ℕ → A) → ℕ → A
put i a f j = if j == i then a else f j

-- A node is numbered and pushed.
abbrev pub push : ℕ → Tarjan → Tarjan
push v t = record t {
  index = put v (some t.next_index) t.index;
  low = put v t.next_index t.low;
  onstack = put v true t.onstack;
  next_index = t.next_index + 1;
  stack = v ∷ t.stack;
}

abbrev pub lower : (v l : ℕ) → Tarjan → Tarjan
lower v l t = if ltb l (t.low v) then record t { low = put v l t.low } else t

-- What is popped until `v`, and what stays.
unfoldable pub pop_until : (v : ℕ) → List ℕ → List ℕ × List ℕ
pop_until v [] = ([], [])
pop_until v (w ∷ ws) =
    let (members, left) = pop_until v ws in if w == v then (w ∷ [], ws) else (w ∷ members, left)

unfoldable pub assign : List ℕ → (ncomp : ℕ) → Tarjan → Tarjan
assign [] ncomp t = t
assign (w ∷ ws) ncomp t =
    assign ws ncomp
      (record t { onstack = put w false t.onstack; component = put w (some ncomp) t.component })

abbrev pub is_low : Option ℕ → ℕ → Bool
is_low none l = false
is_low (some i) l = l == i

-- `v` is the first node of its component.
unfoldable pub close : ℕ → Tarjan → Tarjan
close v t =
    let (members, left) = pop_until v t.stack in
    let assigned = assign members (length t.comp) t in
    if not (is_low (t.index v) (t.low v)) || leb max_nodes (length t.comp)
    then t
    else record assigned { stack = left; comp = t.comp ++ members ∷ [] }

abbrev pub lower_as : (v w : ℕ) → Tarjan → Tarjan
lower_as v w t = lower v (t.low w) t

-- An edge from `v` to `w`, with the number of `w`.
abbrev pub edge_to : (rec : ℕ → Tarjan → Tarjan) → (v w : ℕ) → Option ℕ → Tarjan → Tarjan
edge_to rec v w none t = lower_as v w (rec w t)
edge_to rec v w (some i) t = if t.onstack w then lower v i t else t

unfoldable pub tarjan_edges : (rec : ℕ → Tarjan → Tarjan) → (v : ℕ) → List (ℕ × ℕ) → Tarjan → Tarjan
tarjan_edges rec v [] t = t
tarjan_edges rec v ((a, b) ∷ es) t =
    tarjan_edges rec v es (if a == v then edge_to rec v b (t.index b) t else t)

-- `rounds` bounds the depth of the recursion.
unfoldable pub tarjan : (rounds : ℕ) → (edges : List (ℕ × ℕ)) → ℕ → Tarjan → Tarjan
tarjan zero edges v t = t
tarjan (suc rounds) edges v t = close v (tarjan_edges (tarjan rounds edges) v edges (push v t))

abbrev pub unless_numbered : Option ℕ → (Tarjan → Tarjan) → Tarjan → Tarjan
unless_numbered none f t = f t
unless_numbered (some i) f t = t

unfoldable pub tarjan_all : (rounds left i : ℕ) → (edges : List (ℕ × ℕ)) → Tarjan → Tarjan
tarjan_all rounds zero i edges t = t
tarjan_all rounds (suc left) i edges t =
    tarjan_all rounds left (i + 1) edges (unless_numbered (t.index i) (tarjan rounds edges i) t)

abbrev pub unnumbered : Tarjan
unnumbered = record {
  index = λ i. none;
  low = λ i. 0;
  onstack = λ i. false;
  component = λ i. none;
  next_index = 0;
  stack = [];
  comp = [];
}

unfoldable pub build_components : (nn : ℕ) → (edges : List (ℕ × ℕ)) → Components
build_components nn edges =
    let t = tarjan_all nn nn 0 edges unnumbered in record { comp = t.comp; component = t.component }
