-- ===== src/Selection.antt =====
-- `_select` of cognitivetree/search.py: the descent by UCT from the root to the next node to
-- expand, with the pruning of dead ends and the restarts.
pub mod Control
mod Choice
pub mod Termination
pub mod Selects
use cognitive_tree_ai.Prelude.{
  ℕ, zero, suc, ◌+◌, Float, FloatOps, Text, Bool, true, false, Option, none, some, List, [], ◌∷◌,
  if◌then◌else◌, keep, ltb, max_from,
}
use cognitive_tree_ai.Faults.{Fault, Result, ok, raise}
use cognitive_tree_ai.Node.{Node, Ref, Metadata, is_live, uct_score}
use cognitive_tree_ai.Tree.{Tree, prune_subtree}
use cognitive_tree_ai.Config.{SearchConfig}
use cognitive_tree_ai.Policies.{Policies}
use cognitive_tree_ai.Exec.{Run, Exec, pure, throw, world_call, node_call, ◌>>=◌, ◌>>◌}

-- A live child with its key: the UCT score and the random number that breaks ties.
pub record Keyed : Type 0 where
  pub child : Ref
  pub uct : Float
  pub tie : Float

-- Python compares two tuples at the first place where they differ.
unfoldable pub key_gt : FloatOps → Keyed → Keyed → Bool
key_gt ops a b = if ops.eq a.uct b.uct then ops.lt b.tie a.tie else ops.lt b.uct a.uct

-- How a descent from the root ends.
pub data Descent : Type 0 where
  found : Ref → Descent
  revived : Ref → Descent
  restart : Descent

parent_node : Tree → Option Ref → Option Node
parent_node t none = none
parent_node t (some p) = some (t.cell p)

-- The live children of the node at `r`.
unfoldable pub live_children : Tree → Ref → List Ref
live_children t r = keep (λ c. is_live (t.cell c)) (t.cell r).children

unfoldable pub is_leaf : List Ref → Bool
is_leaf [] = true
is_leaf (c ∷ cs) = false

module _ {W : Type 0} where
  unfoldable pub prune : Ref → Exec W (Unit {0})
  prune r s = (ok tt, record s { tree = (prune_subtree r s.tree).1 })

module _ {W : Type 0} (p : Policies W) (cfg : SearchConfig) where
  uct_of : Ref → Exec W Float
  uct_of c s =
      let t = s.tree in
      (uct_score p.ops cfg.exploration_weight (parent_node t (t.cell c).parent) (t.cell c), s)

  key_of : Ref → Exec W Keyed
  key_of c = do
    uct ← uct_of c
    tie ← world_call p.random
    pure (record { child = c; uct = uct; tie = tie })

  -- `max` calls its key once for each child, in order.
  key_children : List Ref → Exec W (List Keyed)
  key_children [] = pure []
  key_children (c ∷ cs) = do k ← key_of c; ks ← key_children cs; pure (k ∷ ks)

  -- The first of the greatest keys of a list that is not empty.
  greatest : List Keyed → Exec W Ref
  greatest [] = throw Fault.value_error
  greatest (k ∷ ks) = pure (Keyed.child (max_from (key_gt p.ops) k ks))

  -- `max(live_children, key=...)`
  pub choose : List Ref → Exec W Ref
  choose cs = do keys ← key_children cs; greatest keys

  -- A dead end is pruned, and the descent starts again from the root.
  collapse : Ref → Exec W Descent
  collapse r = do prune r; pure restart

  reopen : Ref → Bool → Exec W Descent
  reopen r true = pure (revived r)
  reopen r false = collapse r

  -- What becomes of a saturated node: the revision policy may reopen it.
  saturated : Option (Tree → Ref → W → Result Bool × Metadata × W) → Ref → Exec W Descent
  saturated none r s = collapse r s
  saturated (some revise) r s = (node_call r (revise s.tree r) >>= reopen r) s

  -- A node without children: it is the selection unless it lies at the depth cap.
  leaf : Ref → Exec W Descent
  leaf r s = if ltb (s.tree.cell r).depth cfg.max_depth then (ok (found r), s) else collapse r s

  -- One round at the node `r`, by whether it has no children and by its live children.
  at_node : (Ref → Exec W Descent) → Ref → Bool → List Ref → Exec W Descent
  at_node go r true live = leaf r
  at_node go r false [] = saturated p.revise r
  at_node go r false (c ∷ cs) = choose (c ∷ cs) >>= go

  -- The inner `while True` loop, in rounds: each round goes one level down.
  pub descend : ℕ → Ref → Exec W Descent
  descend zero r s = (raise Fault.no_fuel, s)
  descend (suc rounds) r s =
      at_node (descend rounds) r (is_leaf (s.tree.cell r).children) (live_children s.tree r) s

  -- What a selection yields: the node, if there is one, and the identifiers put on `revived`.
  abbrev pub Selected : Type 0
  Selected = Option Ref × List Text

  -- Selects the node that a descent ended at, or starts `again`.
  pub settle : Exec W Selected → Descent → Exec W Selected
  settle again (found r) s = (ok (some r, []), s)
  settle again (revived r) s = (ok (some r, (s.tree.cell r).id ∷ []), s)
  settle again restart s = again s

  pub from_root : Exec W Selected → Bool → Exec W Selected
  from_root again false s = (ok (none, []), s)
  from_root again true s = (descend s.tree.size s.tree.root >>= settle again) s

  -- The outer loop, in rounds: each restart has pruned a live node. An address is younger than
  -- its parent's, so a descent takes fewer rounds than there are nodes.
  pub select_from : ℕ → Exec W Selected
  select_from zero s = (raise Fault.no_fuel, s)
  select_from (suc rounds) s = from_root (select_from rounds) (is_live (s.tree.cell s.tree.root)) s

  -- Every restart prunes a node, so more rounds than nodes are enough.
  unfoldable pub select : Exec W Selected
  select s = select_from (suc s.tree.size) s
