-- ===== src/Tree/Payload.antt =====
-- `to_dict` and `from_dict` of cognitivetree/node.py and cognitivetree/tree.py: a tree as a nested
-- document, without addresses. A payload is a document of the right form; what JSON makes of it,
-- and the refusal of other documents, are left out.
pub mod Written
pub mod Restored
pub mod RoundTrip
pub mod Ids
use cognitive_tree_ai.Prelude.{
  ℕ, zero, suc, ◌+◌, ◌==◌, Float, FloatOps, Text, Bool, true, false, Option, none, some, List, [],
  ◌∷◌, ◌++◌, reverse, if◌then◌else◌,
}
use cognitive_tree_ai.Faults.{Fault, Result, ok, raise}
use cognitive_tree_ai.Node.{Node, Ref, NodeStatus, Metadata, no_metadata}
use cognitive_tree_ai.Tree.{Tree, walk, index_insert, len}

-- The entries of a payload but its children; the metadata is there if it was asked for.
pub record Bare : Type 0 where
  pub id : Text
  pub content : Text
  pub status : NodeStatus
  pub depth : ℕ
  pub visits : ℕ
  pub value_sum : Float
  pub score : Float
  pub rationale : Text
  pub metadata : Option Metadata

mutual
  pub data Payload : Type 0 where
    payload : Bare → Payloads → Payload

  pub data Payloads : Type 0 where
    empty : Payloads
    also : Payload → Payloads → Payloads

unfoldable pub bare_of : FloatOps → Bool → Node → Bare
bare_of ops include_metadata n = record {
  id = n.id;
  content = n.content;
  status = n.status;
  depth = n.depth;
  visits = n.visits;
  value_sum = ops.round 6 n.value_sum;
  score = ops.round 6 n.score;
  rationale = n.rationale;
  metadata = if include_metadata then some n.metadata else none;
}

-- `payloads[id(node)]`
unfoldable pub found : Ref → List (Ref × Payload) → Result Payload
found r [] = raise Fault.key_error
found r ((x, p) ∷ table) = if x == r then ok p else found r table

add_first : Result Payload → Result Payloads → Result Payloads
add_first (ok p) (ok ps) = ok (also p ps)
add_first (ok p) (raise e) = raise e
add_first (raise e) ps = raise e

-- `[payloads[id(child)] for child in node.children]`
unfoldable pub collect : List (Ref × Payload) → List Ref → Result Payloads
unfolding found add_first
collect table [] = ok empty
collect table (c ∷ cs) = add_first (found c table) (collect table cs)

module _ (ops : FloatOps) (include_metadata : Bool) where
  -- The loop over the nodes, each after its children.
  unfoldable pub fill : Tree → List Ref → List (Ref × Payload) → Result (List (Ref × Payload))
  unfolding collect bare_of
  fill t [] table = ok table
  fill t (r ∷ rs) table = elim (collect table (t.cell r).children) [
    | raise e ↦ raise e
    | ok ps ↦ fill t rs ((r, payload (bare_of ops include_metadata (t.cell r)) ps) ∷ table)
  ]

  look_up : Ref → Result (List (Ref × Payload)) → Result Payload
  unfolding found
  look_up r (raise e) = raise e
  look_up r (ok table) = found r table

  -- `node.to_dict(include_metadata)`
  unfoldable pub node_to_dict : Tree → Ref → Result Payload
  unfolding fill look_up
  node_to_dict t r = look_up r (fill t (reverse (walk t r)) [])

pub record Snapshot : Type 0 where
  pub size : ℕ
  pub root : Payload

sized : ℕ → Result Payload → Result Snapshot
sized size (ok p) = ok (record { size = size; root = p })
sized size (raise e) = raise e

-- `tree.to_dict(include_metadata)`
unfoldable pub tree_to_dict : FloatOps → Bool → Tree → Result Snapshot
unfolding node_to_dict sized
tree_to_dict ops include_metadata t = sized (len t) (node_to_dict ops include_metadata t t.root)

metadata_of : Option Metadata → Metadata
metadata_of none = no_metadata
metadata_of (some m) = m

-- `_bare_from_payload(payload, parent)`
unfoldable pub bare_from : Bare → Option Ref → Node
unfolding metadata_of
bare_from b parent = record {
  content = b.content;
  parent = parent;
  depth = b.depth;
  id = b.id;
  status = b.status;
  children = [];
  visits = b.visits;
  value_sum = b.value_sum;
  score = b.score;
  rationale = b.rationale;
  metadata = metadata_of b.metadata;
}

-- `child = cls._bare_from_payload(child_payload, node)`, `node.children.append(child)`
unfoldable pub append_child : Ref → Bare → Tree → Tree
unfolding bare_from
append_child r b t = record t {
  cell = λ x.
      if x == t.size
      then bare_from b (some r)
      else if x == r
      then record (t.cell r) { children = (t.cell r).children ++ t.size ∷ [] }
      else t.cell x;
  size = suc t.size;
}

-- The loop over the children of a payload; the head of the list is the end of `pending`.
unfoldable pub attach : Ref → Payloads → Tree → List (Ref × Payloads) → Tree × List (Ref × Payloads)
unfolding append_child
attach r empty t pending = (t, pending)
attach r (also (payload b ps) rest) t pending =
    attach r rest (append_child r b t) ((t.size, ps) ∷ pending)

-- The `while pending` loop in rounds.
unfoldable pub rebuild : ℕ → Tree → List (Ref × Payloads) → Tree
unfolding attach
rebuild zero t pending = t
rebuild (suc rounds) t [] = t
rebuild (suc rounds) t ((r, ps) ∷ pending) =
    let (t', pending') = attach r ps t pending in rebuild rounds t' pending'

-- How many payloads there are.
mutual
  pub count : Payload → ℕ
  count (payload b ps) = suc (count_all ps)

  pub count_all : Payloads → ℕ
  count_all empty = 0
  count_all (also p ps) = count p + count_all ps

-- `ThoughtNode.from_dict(payload)`, with a store of its own. Each round takes one node off the
-- list, so there are as many rounds as nodes.
unfoldable pub node_from_dict : Payload → Tree
unfolding rebuild bare_from
node_from_dict (payload b ps) =
    rebuild (suc (count_all ps))
      (record { cell = λ _. bare_from b none; size = 1; root = 0; index = [] }) ((0, ps) ∷ [])

-- `{node.id: node for node in tree._root.walk()}`
unfoldable pub index_of : Tree → List Ref → List (Text × Ref) → List (Text × Ref)
unfolding index_insert
index_of t [] index = index
index_of t (r ∷ rs) index = index_of t rs (index_insert (t.cell r).id r index)

-- `ThoughtTree.from_dict(payload)`
unfoldable pub tree_from_dict : Snapshot → Tree
unfolding node_from_dict index_of
tree_from_dict s = let t = node_from_dict s.root in record t { index = index_of t (walk t 0) [] }
