-- ===== src/Node.antt =====
-- cognitivetree/node.py: the thought node, its statuses and the methods that touch one node, with
-- the payloads that the program keeps in a node's metadata (critique, revision notes, reward).
use cognitive_tree_ai.Prelude.{
  ℕ, ◌+◌, Float, FloatOps, zero_f, Text, Bool, true, false, Option, none, some, List, [], ◌==◌,
  if◌then◌else◌, max,
}
use cognitive_tree_ai.Faults.{Fault, Result, ok, raise}

pub data NodeStatus : Type 0 where
  pending evaluated terminal pruned failed : NodeStatus

pub data FailureClass : Type 0 where
  no_execution timeout syntax assertion exception : FailureClass

-- policies.py. `to_dict` keeps the fields, with the severity rounded.
pub record Critique : Type 0 where
  pub failure_class : FailureClass
  pub summary : Text
  pub guidance : Text
  pub severity : Float

pub record RewardRecord : Type 0 where
  pub base_score : Float
  pub critique_term : Float
  pub depth_term : Float
  pub shaped : Float

-- The keys of `node.metadata` that the core writes; `extra` stands for all other payloads.
pub record Metadata : Type 0 where
  pub critique : Option Critique
  pub revision_notes : Option Text
  pub revision_attempts : Option ℕ
  pub reward : Option RewardRecord
  pub extra : List Text

abbrev pub no_metadata : Metadata
no_metadata = record {
  critique = none;
  revision_notes = none;
  revision_attempts = none;
  reward = none;
  extra = [];
}

-- A reference to a node object: its address in the store.
abbrev pub Ref : Type 0
Ref = ℕ

pub record Node : Type 0 where
  pub content : Text
  pub parent : Option Ref
  pub depth : ℕ
  pub id : Text
  pub status : NodeStatus
  pub children : List Ref
  pub visits : ℕ
  pub value_sum : Float
  pub score : Float
  pub rationale : Text
  pub metadata : Metadata

-- `ThoughtNode(content=..., parent=..., depth=...)`, with the defaults of the other fields.
abbrev pub make_node : Text → Option Ref → ℕ → Text → Node
make_node content parent depth id = record {
  content = content;
  parent = parent;
  depth = depth;
  id = id;
  status = NodeStatus.pending;
  children = [];
  visits = 0;
  value_sum = zero_f;
  score = zero_f;
  rationale = [];
  metadata = no_metadata;
}

unfoldable pub is_live_status : NodeStatus → Bool
is_live_status NodeStatus.pending = true
is_live_status NodeStatus.evaluated = true
is_live_status _ = false

unfoldable pub is_terminal_status : NodeStatus → Bool
is_terminal_status NodeStatus.terminal = true
is_terminal_status _ = false

unfoldable pub is_live : Node → Bool
unfolding is_live_status
is_live n = is_live_status n.status

unfoldable pub record_visit : FloatOps → Float → Node → Node
record_visit ops value n = record n { visits = n.visits + 1; value_sum = ops.add n.value_sum value }

unfoldable pub apply_evaluation : Float → NodeStatus → Text → Node → Node
apply_evaluation score status rationale n = record n {
  score = score;
  status = status;
  rationale = rationale;
}

unfoldable pub mean_value : FloatOps → Node → Float
mean_value ops n = if n.visits == 0 then zero_f else ops.div n.value_sum (ops.of_nat n.visits)

-- `parent` is the node that `self.parent` refers to.
unfoldable pub uct_score : FloatOps → Float → Option Node → Node → Result Float
unfolding mean_value
uct_score ops weight none n = raise Fault.value_error
uct_score ops weight (some parent) n =
    if n.visits == 0
    then ok ops.inf
    else ok (
        ops.add (mean_value ops n) (
          ops.mul weight (
            ops.sqrt (ops.div (ops.log (ops.of_nat (max parent.visits 1))) (ops.of_nat n.visits)))))
