-- ===== src/Tree.antt =====
-- cognitivetree/tree.py with the parts of node.py that follow references between nodes. The tree
-- carries the store of its node objects: `cell` reads an address, and `size` is the next free one.
-- An object is the same object exactly if its address is the same.
pub mod Updates
pub mod WellFormed
pub mod Growth
pub mod Added
pub mod Earlier
pub mod Paths
pub mod Walks
pub mod Pruning
pub mod Life
pub mod Payload
use cognitive_tree_ai.Prelude.{
  ℕ, zero, suc, ◌+◌, pow2, Float, FloatOps, Text, text_eq, Bool, true, false, ◌&&◌, Option, none,
  some, List, [], ◌∷◌, ◌++◌, reverse, ◌==◌, if◌then◌else◌, keep, length, max_from, ltb,
}
use cognitive_tree_ai.Faults.{Fault, Result, ok, raise}
use cognitive_tree_ai.Node.{
  Node, Ref, NodeStatus, make_node, is_live, is_terminal_status, mean_value,
}

pub record Tree : Type 0 where
  pub cell : Ref → Node
  pub size : ℕ
  pub root : Ref
  pub index : List (Text × Ref)

-- Writes the object at `r`.
unfoldable pub modify : Ref → (Node → Node) → Tree → Tree
modify r f t = record t { cell = λ x. if x == r then f (t.cell r) else t.cell x }

-- The identifier index is a dictionary.
unfoldable pub index_lookup : Text → List (Text × Ref) → Option Ref
index_lookup id [] = none
index_lookup id ((key, r) ∷ index) = if text_eq key id then some r else index_lookup id index

unfoldable pub index_insert : Text → Ref → List (Text × Ref) → List (Text × Ref)
index_insert id r [] = (id, r) ∷ []
index_insert id r ((key, old) ∷ index) =
    if text_eq key id then (key, r) ∷ index else (key, old) ∷ index_insert id r index

-- `ThoughtTree(root_content)`; `id` is what `_short_id()` returned.
unfoldable pub new_tree : Text → Text → Tree
new_tree id content = record {
  cell = λ _. make_node content none 0 id;
  size = 1;
  root = 0;
  index = (id, 0) ∷ [];
}

-- `len(tree)`
unfoldable pub len : Tree → ℕ
len t = length t.index

-- `tree.get(node_id)`
unfoldable pub get : Tree → Text → Result Ref
unfolding index_lookup
get t id = elim (index_lookup id t.index) [ none ↦ raise Fault.key_error | some r ↦ ok r ]

-- `node.attach_child(content)`: the new object takes the next free address.
unfoldable pub attach_child : Text → Ref → Text → Tree → Tree
attach_child id p content t =
    let child = make_node content (some p) ((t.cell p).depth + 1) id in
    record t {
      cell = λ x.
          if x == t.size
          then child
          else if x == p
          then record (t.cell p) { children = (t.cell p).children ++ t.size ∷ [] }
          else t.cell x;
      size = suc t.size;
    }

-- `tree.add_child(parent, content)` returns the new node.
unfoldable pub add_child : Text → Ref → Text → Tree → Result Ref × Tree
unfolding index_lookup index_insert attach_child
add_child id p content t = elim (index_lookup (t.cell p).id t.index) [
  | none ↦ (raise Fault.key_error, t)
  | some _ ↦
      let t' = attach_child id p content t in
      (ok t.size, record t' { index = index_insert id t.size t.index })
]

-- The `while node is not None` loop of `path_from_root`, in rounds. The path grows at its front,
-- which is what appending and one `reverse` at the end amount to.
climb : Tree → Option Ref → ℕ → List Ref → List Ref
climb t none rounds path = path
climb t (some r) zero path = path
climb t (some r) (suc rounds) path = climb t (t.cell r).parent rounds (r ∷ path)

-- A parent is older than its children, so an address bounds the number of its ancestors.
unfoldable pub path_from_root : Tree → Ref → List Ref
unfolding climb
path_from_root t r = climb t (some r) (suc r) []

-- The loop of `walk` in rounds; the head of the list is the top of the stack.
walk_from : Tree → List Ref → ℕ → List Ref
walk_from t [] rounds = []
walk_from t (r ∷ stack) zero = []
walk_from t (r ∷ stack) (suc rounds) = r ∷ walk_from t ((t.cell r).children ++ stack) rounds

unfoldable pub walk : Tree → Ref → List Ref
unfolding walk_from pow2
walk t r = walk_from t (r ∷ []) (pow2 t.size)

-- `tree.nodes()`
unfoldable pub nodes : Tree → List Ref
unfolding walk
nodes t = walk t t.root

pub prune_node : Node → Node
prune_node n = record n { status = NodeStatus.pruned }

-- The body of the loop of `prune_subtree`.
pub prune_one : Ref → Tree → Tree
unfolding prune_node is_live modify
prune_one r t = if is_live (t.cell r) then modify r prune_node t else t

-- The loop. `walk` yields each node before the next is visited, and it reads no status, so the
-- nodes to visit are those of the tree at the start.
pub prune_each : List Ref → Tree → ℕ × Tree
prune_each [] t = (0, t)
prune_each (r ∷ rest) t =
    let (n, t') = prune_each rest (prune_one r t) in ((if is_live (t.cell r) then suc n else n), t')

unfoldable pub prune_subtree : Ref → Tree → ℕ × Tree
unfolding prune_each prune_one walk
prune_subtree r t = prune_each (walk t r) t

-- `tree.best_terminal()`
unfoldable pub best_terminal : FloatOps → Tree → Option Ref
unfolding nodes keep max_from is_terminal_status
best_terminal ops t = elim (keep (λ r. is_terminal_status (t.cell r).status) (nodes t)) [
  | [] ↦ none
  | r ∷ rs ↦ some (max_from (λ a b. ops.lt (t.cell b).score (t.cell a).score) r rs)
]

-- The key (mean_value, score, visits): Python compares tuples at the first place that differs.
greedy_gt : FloatOps → Tree → Ref → Ref → Bool
unfolding mean_value
greedy_gt ops t a b =
    let x = t.cell a in
    let y = t.cell b in
    if ops.eq (mean_value ops x) (mean_value ops y)
    then (if ops.eq x.score y.score then ltb y.visits x.visits else ops.lt y.score x.score)
    else ops.lt (mean_value ops y) (mean_value ops x)

-- The `while True` loop of `best_path`, in rounds: the path below `r`, that node included.
greedy_path : ℕ → FloatOps → Tree → Ref → List Ref
unfolding greedy_gt keep is_live max_from
greedy_path zero ops t r = r ∷ []
greedy_path (suc rounds) ops t r = elim (keep (λ c. is_live (t.cell c)) (t.cell r).children) [
  | [] ↦ r ∷ []
  | c ∷ cs ↦ r ∷ greedy_path rounds ops t (max_from (greedy_gt ops t) c cs)
]

-- A child is younger than its parent, so the greedy descent takes fewer rounds than there are
-- nodes.
unfoldable pub best_path : FloatOps → Tree → List Ref
unfolding best_terminal greedy_path path_from_root
best_path ops t = elim (best_terminal ops t) [
  | some r ↦ path_from_root t r
  | none ↦ greedy_path t.size ops t t.root
]
