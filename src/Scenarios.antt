-- ===== src/Scenarios.antt =====
-- Inputs on which the theorems apply: concrete policies, trees and machines.
use cognitive_tree_ai.Prelude.{
  ℕ, zero, suc, ◌+◌, ◌*◌, ◌<◌, zero_f, true, Option, Text, ◌≡◌, ◌≢◌, refl, Float, FloatOps, none,
  some, [], ◌∷◌, leb, ltb, ◌==◌, arith, if◌then◌else◌, text_eq, is_space, All, inl, ◌++◌,
}
use cognitive_tree_ai.Observability.Metrics.Counted.{Noted}
use cognitive_tree_ai.Phases.{Phase, Outcome}
use cognitive_tree_ai.Search.{SearchResult}
use cognitive_tree_ai.Faults.{Note, Fault, Result, ok, raise}
use cognitive_tree_ai.Node.{Ref, no_metadata, FailureClass, Critique}
use cognitive_tree_ai.Tree.{Tree, attach_child, index_lookup, add_child, new_tree}
use cognitive_tree_ai.Tree.WellFormed.{IsWellFormed}
use cognitive_tree_ai.Tree.Growth.{add_child-IsWellFormed, new_tree-IsWellFormed}
use cognitive_tree_ai.Search.Invariant.{Known}
use cognitive_tree_ai.Expansion.{is_empty}
use cognitive_tree_ai.Expansion.Siblings.{IsFilled, AllSiblings}
use cognitive_tree_ai.Evaluation.Order.{CoversUpTo}
use mathlib.Core.List.{Memᴰ}
use cognitive_tree_ai.Llm.Keys.{IsKeyTest}
use cognitive_tree_ai.Llm.Equality.{same_request-IsKeyTest}
use cognitive_tree_ai.Llm.{
  same_request, same_messages, same_role, Role, CompletionRequest, CompletionResponse, Client,
  Cache,
}
use cognitive_tree_ai.Llm.Store.{IsCache}
use cognitive_tree_ai.Observability.{TokenBudget, no_usage}
use cognitive_tree_ai.Feedback.{BoundedRevisionPolicy}
use cognitive_tree_ai.Critic.{ExecutionRecord}
use cognitive_tree_ai.Critic.Wording.{assertion_error}
use cognitive_tree_ai.Sandbox.{ExecutionStatus, exited}
use cognitive_tree_ai.Llm.Parsing.{
  Parsed, object, balanced, scan_char, closes, prefix, attempt, decode, dict_of, within_string,
  between_strings, extract_json_object,
}
use cognitive_tree_ai.Sandbox.Bounded.{Child}
use cognitive_tree_ai.Config.{SearchConfig}
use cognitive_tree_ai.Policies.{Policies, Evaluation}
use cognitive_tree_ai.Exec.{Run}
use cognitive_tree_ai.State.{Machine, new, transition}

abbrev pub number : ℕ → Float
number n = record { bits = n }

-- Numbers in place of floats: what computes with them only needs functions.
abbrev pub numbers : FloatOps
numbers = record {
  add = λ a b. number (a.bits + b.bits);
  sub = λ a b. a;
  mul = λ a b. number (a.bits * b.bits);
  div = λ a b. a;
  of_nat = λ n. number n;
  le = λ a b. leb a.bits b.bits;
  lt = λ a b. ltb a.bits b.bits;
  sqrt = λ a. a;
  log = λ a. a;
  inf = number 1000;
  eq = λ a b. a.bits == b.bits;
  round = λ n a. a;
}

abbrev pub verdict : Ref → Evaluation
verdict r = record { score = number r; is_terminal = r == 2; rationale = [] }

abbrev pub fails : Ref → Result Evaluation
fails r = if r == 1 then raise (Fault.raised (7 ∷ [])) else ok (verdict r)

abbrev pub diagnosis : Critique
diagnosis = record {
  failure_class = FailureClass.assertion;
  summary = 9 ∷ [];
  guidance = [];
  severity = number 3;
}

-- A generator of two candidates, an evaluator that accepts the node at address 2, a critic, and a
-- revision policy that reopens a node as long as the world allows it.
abbrev pub policies : Policies ℕ
policies = record {
  ops = numbers;
  ids = λ r. r ∷ [];
  generate = λ t r k w. (ok ((65 ∷ []) ∷ (66 ∷ 32 ∷ []) ∷ []), w + 1);
  evaluate = λ t r w. (ok (verdict r), no_metadata, w + 1);
  critique = some (λ t r w. (ok (some diagnosis), w));
  revise = some (λ t r w. (ok (leb w 3), no_metadata, w + 1));
  shape = none;
  check = none;
  cancelled = none;
  on_event = some (λ e t w. (ok tt, w));
  monotonic = λ w. (number w, w + 1);
  random = λ w. (number w, w + 1);
  pool_order = λ rs w. (rs, w);
}

abbrev pub config : SearchConfig
config = record {
  max_iterations = 4;
  max_depth = 3;
  branching_factor = 2;
  exploration_weight = number 1;
  accept_threshold = number 2;
  prune_threshold = number 1;
  max_wall_seconds = some (number 50);
  evaluation_workers = 2;
}

-- A root with one child.
abbrev pub pair : Tree
pair = (add_child (1 ∷ []) 0 (65 ∷ []) (new_tree (0 ∷ []) (80 ∷ []))).1

pub pair-IsWellFormed : IsWellFormed pair
pair-IsWellFormed =
    add_child-IsWellFormed (1 ∷ []) 0 (65 ∷ []) (new_tree (0 ∷ []) (80 ∷ []))
      (new_tree-IsWellFormed (0 ∷ []) (80 ∷ [])) (unfold new_tree in omega arith)

pub pair-holds_one : 1 < pair.size
unfolding add_child new_tree text_eq
pair-holds_one = omega arith

abbrev pub state_of : Tree → Run ℕ
state_of t = record { tree = t; machine = new; world = 0; iteration = 0 }

-- A machine after its first transition.
abbrev pub started : Machine
started = (transition (number 5) Phase.selection Note.search_started new).1

-- None of the sample policies raises a fault, and `no_fuel` is no fault of the program.
pub policies-Known : Known (λ e. e ≢ Fault.no_fuel) policies
policies-Known = record {
  generate = λ t r k w e q. absurd (cc);
  evaluators = record {
    evaluate = λ t r w e q. absurd (cc);
    critique = λ t r w e q. absurd (cc);
    shape = tt;
    key_error = λ q. cc;
    value_error = λ q. cc;
  };
  revise = λ t r w e q. absurd (cc);
  check = tt;
  on_event = λ x t w e q. absurd (cc);
  invalid_transition = λ a b q. cc;
}

pub pair-AllSiblings : AllSiblings pair
unfolding add_child new_tree text_eq attach_child index_lookup is_empty is_space
pair-AllSiblings zero lt = record {
  distinct = ((λ m. elim m [ ]), tt);
  filled = (IsFilled.here 65 [] refl, tt);
}
pair-AllSiblings (suc zero) lt = record { distinct = tt; filled = tt }
pair-AllSiblings (suc (suc x)) lt = absurd (omega arith)

-- The pool of the sample policies carries out the candidates in order.
pub pool_covers : CoversUpTo (λ r. ok (verdict r)) (1 ∷ 2 ∷ []) (1 ∷ 2 ∷ [])
unfolding CoversUpTo
pool_covers = (Memᴰ.head refl, λ v q. (Memᴰ.tail (Memᴰ.head refl), λ v q. tt))

-- A request, a client that answers it, and an empty store for two completions.
abbrev pub request : CompletionRequest
request = record {
  messages = record { role = Role.user; content = 72 ∷ [] } ∷ [];
  temperature = zero_f;
  max_tokens = 16;
}

abbrev pub reply : CompletionResponse
reply = record { text = 79 ∷ []; model = []; prompt_tokens = 3; completion_tokens = 5 }

abbrev pub backend : Client ℕ
backend r w = (ok reply, w + 1)

abbrev pub store : Cache
store = record { max_entries = 2; entries = []; hits = 0; misses = 0 }

pub store-IsCache : IsCache numbers store
store-IsCache = record { bound = omega arith; capacity = omega arith; keys = tt }

abbrev pub budget : TokenBudget
budget = record { max_total_tokens = some 10; max_calls = none; baseline = no_usage }

abbrev pub revisions : BoundedRevisionPolicy
revisions = record { max_attempts = 1; require_guidance = true }

pub numbers-IsKeyTest : IsKeyTest numbers
numbers-IsKeyTest =
    same_request-IsKeyTest numbers
      (record { symmetric = λ a b h. ground arith; transitive = λ a b c h k. ground arith })

pub request_self : same_request numbers request request ≡ true
unfolding same_request same_messages same_role text_eq
request_self = refl

-- A machine that went back from a dead end and reopened a node.
abbrev pub backtracked : Machine
backtracked = record {
  phase = Phase.selection;
  history =
      started.history
      ++ record {
        source = Phase.selection;
        target = Phase.backtracking;
        note = Note.reopened;
        timestamp = number 6;
      }
        ∷ record {
          source = Phase.backtracking;
          target = Phase.selection;
          note = Note.notes_prepared;
          timestamp = number 7;
        }
        ∷ [];
}

-- The result of a run that has found the node of the pair.
abbrev pub finished : SearchResult
finished = record {
  outcome = Outcome.succeeded;
  best_path = 0 ∷ 1 ∷ [];
  iterations = 1;
  node_count = 2;
  phase_history = backtracked.history;
  tree = pair;
  error = none;
}

pub finished-Noted : All Noted finished.phase_history
unfolding transition
finished-Noted = (λ q. absurd (cc), (λ q. inl refl, (λ q. absurd (cc), tt)))

-- A payload that failed an assertion.
abbrev pub crashed : ExecutionRecord
crashed = record {
  status = ExecutionStatus.completed;
  exit_code = some (exited 1);
  stderr = assertion_error;
}

-- A parser that takes any text for the object 7, and a text with an object in prose.
abbrev pub parses : Text → Option (Parsed ℕ)
parses slice = some (object 7)

abbrev pub reply_text : Text
reply_text = 97 ∷ 123 ∷ 34 ∷ 125 ∷ 34 ∷ 125 ∷ 98 ∷ []

pub reply_parses : extract_json_object parses reply_text ≡ some 7
unfolding extract_json_object balanced scan_char closes prefix attempt decode dict_of within_string
    between_strings
reply_parses = refl

-- A child that writes three bytes in two chunks.
abbrev pub talker : ℕ → Result Child × ℕ
talker w = (
  ok (record {
    returncode = some (exited 0);
    stdout_chunks = (1 ∷ 2 ∷ []) ∷ (3 ∷ []) ∷ [];
    stderr_chunks = [];
  }),
  w + 1,
)
