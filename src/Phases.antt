-- ===== src/Phases.antt =====
-- The phases of the search state machine, the outcomes of a run and the transition table
-- (cognitivetree/state.py and cognitivetree/search.py).
use cognitive_tree_ai.Prelude.{ℕ, List, [], ◌∷◌, Bool, false, ◌==◌, ◌||◌}

pub data Phase : Type 0 where
  idle selection expansion evaluation backpropagation backtracking : Phase
  succeeded exhausted failed timed_out budget_exhausted cancelled : Phase

pub data Outcome : Type 0 where
  succeeded exhausted failed timed_out budget_exhausted cancelled : Outcome

-- The place of a member in the enumeration, by which members are compared.
abbrev pub ordinal : Phase → ℕ
ordinal Phase.idle = 0
ordinal Phase.selection = 1
ordinal Phase.expansion = 2
ordinal Phase.evaluation = 3
ordinal Phase.backpropagation = 4
ordinal Phase.backtracking = 5
ordinal Phase.succeeded = 6
ordinal Phase.exhausted = 7
ordinal Phase.failed = 8
ordinal Phase.timed_out = 9
ordinal Phase.budget_exhausted = 10
ordinal Phase.cancelled = 11

-- `target in phases`
unfoldable pub contains : List Phase → Phase → Bool
contains [] target = false
contains (p ∷ phases) target = (ordinal p == ordinal target) || contains phases target

abbrev pub terminal_phases : List Phase
terminal_phases =
    Phase.succeeded ∷ Phase.exhausted ∷ Phase.failed ∷ Phase.timed_out ∷ Phase.budget_exhausted
    ∷ Phase.cancelled ∷ []

-- The four phases that every row of a phase in progress ends with.
abbrev constraints : List Phase
constraints = Phase.failed ∷ Phase.timed_out ∷ Phase.budget_exhausted ∷ Phase.cancelled ∷ []

unfoldable pub transitions : Phase → List Phase
transitions Phase.idle = Phase.selection ∷ constraints
transitions Phase.selection = Phase.expansion ∷ Phase.backtracking ∷ Phase.exhausted ∷ constraints
transitions Phase.expansion = Phase.evaluation ∷ Phase.backtracking ∷ constraints
transitions Phase.evaluation = Phase.backpropagation ∷ constraints
transitions Phase.backpropagation =
    Phase.selection ∷ Phase.succeeded ∷ Phase.exhausted ∷ constraints
transitions Phase.backtracking = Phase.selection ∷ Phase.exhausted ∷ constraints
transitions Phase.succeeded = []
transitions Phase.exhausted = []
transitions Phase.failed = []
transitions Phase.timed_out = []
transitions Phase.budget_exhausted = []
transitions Phase.cancelled = []
