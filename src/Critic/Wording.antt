-- ===== src/Critic/Wording.antt =====
-- The texts of cognitivetree/feedback/execution_critic.py, by their code points.
use cognitive_tree_ai.Prelude.{Text, List, [], ◌∷◌}

-- thought carries no executable payload
abbrev pub no_payload : Text
no_payload =
    116 ∷ 104 ∷ 111 ∷ 117 ∷ 103 ∷ 104 ∷ 116 ∷ 32 ∷ 99 ∷ 97 ∷ 114 ∷ 114 ∷ 105 ∷ 101 ∷ 115 ∷ 32 ∷ 110
    ∷ 111 ∷ 32 ∷ 101 ∷ 120 ∷ 101 ∷ 99 ∷ 117 ∷ 116 ∷ 97 ∷ 98 ∷ 108 ∷ 101 ∷ 32 ∷ 112 ∷ 97 ∷ 121 ∷ 108
    ∷ 111 ∷ 97 ∷ 100 ∷ []

-- Produce a complete implementation inside a fenced ```python``` block.
abbrev pub produce_payload : Text
produce_payload =
    80 ∷ 114 ∷ 111 ∷ 100 ∷ 117 ∷ 99 ∷ 101 ∷ 32 ∷ 97 ∷ 32 ∷ 99 ∷ 111 ∷ 109 ∷ 112 ∷ 108 ∷ 101 ∷ 116
    ∷ 101 ∷ 32 ∷ 105 ∷ 109 ∷ 112 ∷ 108 ∷ 101 ∷ 109 ∷ 101 ∷ 110 ∷ 116 ∷ 97 ∷ 116 ∷ 105 ∷ 111 ∷ 110
    ∷ 32 ∷ 105 ∷ 110 ∷ 115 ∷ 105 ∷ 100 ∷ 101 ∷ 32 ∷ 97 ∷ 32 ∷ 102 ∷ 101 ∷ 110 ∷ 99 ∷ 101 ∷ 100 ∷ 32
    ∷ 96 ∷ 96 ∷ 96 ∷ 112 ∷ 121 ∷ 116 ∷ 104 ∷ 111 ∷ 110 ∷ 96 ∷ 96 ∷ 96 ∷ 32 ∷ 98 ∷ 108 ∷ 111 ∷ 99
    ∷ 107 ∷ 46 ∷ []

-- payload exceeded its execution deadline
abbrev pub deadline_exceeded : Text
deadline_exceeded =
    112 ∷ 97 ∷ 121 ∷ 108 ∷ 111 ∷ 97 ∷ 100 ∷ 32 ∷ 101 ∷ 120 ∷ 99 ∷ 101 ∷ 101 ∷ 100 ∷ 101 ∷ 100 ∷ 32
    ∷ 105 ∷ 116 ∷ 115 ∷ 32 ∷ 101 ∷ 120 ∷ 101 ∷ 99 ∷ 117 ∷ 116 ∷ 105 ∷ 111 ∷ 110 ∷ 32 ∷ 100 ∷ 101
    ∷ 97 ∷ 100 ∷ 108 ∷ 105 ∷ 110 ∷ 101 ∷ []

-- Remove unbounded loops or reduce algorithmic complexity; the payload must terminate within its time budget.
abbrev pub remove_loops : Text
remove_loops =
    82 ∷ 101 ∷ 109 ∷ 111 ∷ 118 ∷ 101 ∷ 32 ∷ 117 ∷ 110 ∷ 98 ∷ 111 ∷ 117 ∷ 110 ∷ 100 ∷ 101 ∷ 100 ∷ 32
    ∷ 108 ∷ 111 ∷ 111 ∷ 112 ∷ 115 ∷ 32 ∷ 111 ∷ 114 ∷ 32 ∷ 114 ∷ 101 ∷ 100 ∷ 117 ∷ 99 ∷ 101 ∷ 32 ∷ 97
    ∷ 108 ∷ 103 ∷ 111 ∷ 114 ∷ 105 ∷ 116 ∷ 104 ∷ 109 ∷ 105 ∷ 99 ∷ 32 ∷ 99 ∷ 111 ∷ 109 ∷ 112 ∷ 108
    ∷ 101 ∷ 120 ∷ 105 ∷ 116 ∷ 121 ∷ 59 ∷ 32 ∷ 116 ∷ 104 ∷ 101 ∷ 32 ∷ 112 ∷ 97 ∷ 121 ∷ 108 ∷ 111 ∷ 97
    ∷ 100 ∷ 32 ∷ 109 ∷ 117 ∷ 115 ∷ 116 ∷ 32 ∷ 116 ∷ 101 ∷ 114 ∷ 109 ∷ 105 ∷ 110 ∷ 97 ∷ 116 ∷ 101
    ∷ 32 ∷ 119 ∷ 105 ∷ 116 ∷ 104 ∷ 105 ∷ 110 ∷ 32 ∷ 105 ∷ 116 ∷ 115 ∷ 32 ∷ 116 ∷ 105 ∷ 109 ∷ 101
    ∷ 32 ∷ 98 ∷ 117 ∷ 100 ∷ 103 ∷ 101 ∷ 116 ∷ 46 ∷ []

-- Revise the implementation so the payload exits cleanly.
abbrev pub revise_exit : Text
revise_exit =
    82 ∷ 101 ∷ 118 ∷ 105 ∷ 115 ∷ 101 ∷ 32 ∷ 116 ∷ 104 ∷ 101 ∷ 32 ∷ 105 ∷ 109 ∷ 112 ∷ 108 ∷ 101 ∷ 109
    ∷ 101 ∷ 110 ∷ 116 ∷ 97 ∷ 116 ∷ 105 ∷ 111 ∷ 110 ∷ 32 ∷ 115 ∷ 111 ∷ 32 ∷ 116 ∷ 104 ∷ 101 ∷ 32
    ∷ 112 ∷ 97 ∷ 121 ∷ 108 ∷ 111 ∷ 97 ∷ 100 ∷ 32 ∷ 101 ∷ 120 ∷ 105 ∷ 116 ∷ 115 ∷ 32 ∷ 99 ∷ 108 ∷ 101
    ∷ 97 ∷ 110 ∷ 108 ∷ 121 ∷ 46 ∷ []

-- Inspect the failure output and revise the implementation to exit cleanly:
abbrev pub inspect_output : Text
inspect_output =
    73 ∷ 110 ∷ 115 ∷ 112 ∷ 101 ∷ 99 ∷ 116 ∷ 32 ∷ 116 ∷ 104 ∷ 101 ∷ 32 ∷ 102 ∷ 97 ∷ 105 ∷ 108 ∷ 117
    ∷ 114 ∷ 101 ∷ 32 ∷ 111 ∷ 117 ∷ 116 ∷ 112 ∷ 117 ∷ 116 ∷ 32 ∷ 97 ∷ 110 ∷ 100 ∷ 32 ∷ 114 ∷ 101
    ∷ 118 ∷ 105 ∷ 115 ∷ 101 ∷ 32 ∷ 116 ∷ 104 ∷ 101 ∷ 32 ∷ 105 ∷ 109 ∷ 112 ∷ 108 ∷ 101 ∷ 109 ∷ 101
    ∷ 110 ∷ 116 ∷ 97 ∷ 116 ∷ 105 ∷ 111 ∷ 110 ∷ 32 ∷ 116 ∷ 111 ∷ 32 ∷ 101 ∷ 120 ∷ 105 ∷ 116 ∷ 32 ∷ 99
    ∷ 108 ∷ 101 ∷ 97 ∷ 110 ∷ 108 ∷ 121 ∷ 58 ∷ 32 ∷ []

-- payload exited with code
abbrev pub exited_with : Text
exited_with =
    112 ∷ 97 ∷ 121 ∷ 108 ∷ 111 ∷ 97 ∷ 100 ∷ 32 ∷ 101 ∷ 120 ∷ 105 ∷ 116 ∷ 101 ∷ 100 ∷ 32 ∷ 119 ∷ 105
    ∷ 116 ∷ 104 ∷ 32 ∷ 99 ∷ 111 ∷ 100 ∷ 101 ∷ 32 ∷ []

-- validation check failed:
abbrev pub check_failed : Text
check_failed =
    118 ∷ 97 ∷ 108 ∷ 105 ∷ 100 ∷ 97 ∷ 116 ∷ 105 ∷ 111 ∷ 110 ∷ 32 ∷ 99 ∷ 104 ∷ 101 ∷ 99 ∷ 107 ∷ 32
    ∷ 102 ∷ 97 ∷ 105 ∷ 108 ∷ 101 ∷ 100 ∷ 58 ∷ 32 ∷ []

-- Revise the implementation so that this requirement holds:
abbrev pub revise_requirement : Text
revise_requirement =
    82 ∷ 101 ∷ 118 ∷ 105 ∷ 115 ∷ 101 ∷ 32 ∷ 116 ∷ 104 ∷ 101 ∷ 32 ∷ 105 ∷ 109 ∷ 112 ∷ 108 ∷ 101 ∷ 109
    ∷ 101 ∷ 110 ∷ 116 ∷ 97 ∷ 116 ∷ 105 ∷ 111 ∷ 110 ∷ 32 ∷ 115 ∷ 111 ∷ 32 ∷ 116 ∷ 104 ∷ 97 ∷ 116 ∷ 32
    ∷ 116 ∷ 104 ∷ 105 ∷ 115 ∷ 32 ∷ 114 ∷ 101 ∷ 113 ∷ 117 ∷ 105 ∷ 114 ∷ 101 ∷ 109 ∷ 101 ∷ 110 ∷ 116
    ∷ 32 ∷ 104 ∷ 111 ∷ 108 ∷ 100 ∷ 115 ∷ 58 ∷ 32 ∷ []

-- a validation check failed without a message
abbrev pub check_failed_silently : Text
check_failed_silently =
    97 ∷ 32 ∷ 118 ∷ 97 ∷ 108 ∷ 105 ∷ 100 ∷ 97 ∷ 116 ∷ 105 ∷ 111 ∷ 110 ∷ 32 ∷ 99 ∷ 104 ∷ 101 ∷ 99
    ∷ 107 ∷ 32 ∷ 102 ∷ 97 ∷ 105 ∷ 108 ∷ 101 ∷ 100 ∷ 32 ∷ 119 ∷ 105 ∷ 116 ∷ 104 ∷ 111 ∷ 117 ∷ 116
    ∷ 32 ∷ 97 ∷ 32 ∷ 109 ∷ 101 ∷ 115 ∷ 115 ∷ 97 ∷ 103 ∷ 101 ∷ []

-- Revise the implementation until every validation assertion passes.
abbrev pub revise_assertions : Text
revise_assertions =
    82 ∷ 101 ∷ 118 ∷ 105 ∷ 115 ∷ 101 ∷ 32 ∷ 116 ∷ 104 ∷ 101 ∷ 32 ∷ 105 ∷ 109 ∷ 112 ∷ 108 ∷ 101 ∷ 109
    ∷ 101 ∷ 110 ∷ 116 ∷ 97 ∷ 116 ∷ 105 ∷ 111 ∷ 110 ∷ 32 ∷ 117 ∷ 110 ∷ 116 ∷ 105 ∷ 108 ∷ 32 ∷ 101
    ∷ 118 ∷ 101 ∷ 114 ∷ 121 ∷ 32 ∷ 118 ∷ 97 ∷ 108 ∷ 105 ∷ 100 ∷ 97 ∷ 116 ∷ 105 ∷ 111 ∷ 110 ∷ 32 ∷ 97
    ∷ 115 ∷ 115 ∷ 101 ∷ 114 ∷ 116 ∷ 105 ∷ 111 ∷ 110 ∷ 32 ∷ 112 ∷ 97 ∷ 115 ∷ 115 ∷ 101 ∷ 115 ∷ 46
    ∷ []

-- payload failed to parse:
abbrev pub parse_failed : Text
parse_failed =
    112 ∷ 97 ∷ 121 ∷ 108 ∷ 111 ∷ 97 ∷ 100 ∷ 32 ∷ 102 ∷ 97 ∷ 105 ∷ 108 ∷ 101 ∷ 100 ∷ 32 ∷ 116 ∷ 111
    ∷ 32 ∷ 112 ∷ 97 ∷ 114 ∷ 115 ∷ 101 ∷ 58 ∷ 32 ∷ []

-- Repair the syntax so the payload parses before resubmitting.
abbrev pub repair_syntax : Text
repair_syntax =
    82 ∷ 101 ∷ 112 ∷ 97 ∷ 105 ∷ 114 ∷ 32 ∷ 116 ∷ 104 ∷ 101 ∷ 32 ∷ 115 ∷ 121 ∷ 110 ∷ 116 ∷ 97 ∷ 120
    ∷ 32 ∷ 115 ∷ 111 ∷ 32 ∷ 116 ∷ 104 ∷ 101 ∷ 32 ∷ 112 ∷ 97 ∷ 121 ∷ 108 ∷ 111 ∷ 97 ∷ 100 ∷ 32 ∷ 112
    ∷ 97 ∷ 114 ∷ 115 ∷ 101 ∷ 115 ∷ 32 ∷ 98 ∷ 101 ∷ 102 ∷ 111 ∷ 114 ∷ 101 ∷ 32 ∷ 114 ∷ 101 ∷ 115
    ∷ 117 ∷ 98 ∷ 109 ∷ 105 ∷ 116 ∷ 116 ∷ 105 ∷ 110 ∷ 103 ∷ 46 ∷ []

-- payload raised
abbrev pub payload_raised : Text
payload_raised =
    112 ∷ 97 ∷ 121 ∷ 108 ∷ 111 ∷ 97 ∷ 100 ∷ 32 ∷ 114 ∷ 97 ∷ 105 ∷ 115 ∷ 101 ∷ 100 ∷ 32 ∷ []

-- Handle or eliminate the
abbrev pub handle_the : Text
handle_the =
    72 ∷ 97 ∷ 110 ∷ 100 ∷ 108 ∷ 101 ∷ 32 ∷ 111 ∷ 114 ∷ 32 ∷ 101 ∷ 108 ∷ 105 ∷ 109 ∷ 105 ∷ 110 ∷ 97
    ∷ 116 ∷ 101 ∷ 32 ∷ 116 ∷ 104 ∷ 101 ∷ 32 ∷ []

-- raised at runtime
abbrev pub raised_at_runtime : Text
raised_at_runtime =
    32 ∷ 114 ∷ 97 ∷ 105 ∷ 115 ∷ 101 ∷ 100 ∷ 32 ∷ 97 ∷ 116 ∷ 32 ∷ 114 ∷ 117 ∷ 110 ∷ 116 ∷ 105 ∷ 109
    ∷ 101 ∷ []

-- AssertionError
abbrev pub assertion_error : Text
assertion_error =
    65 ∷ 115 ∷ 115 ∷ 101 ∷ 114 ∷ 116 ∷ 105 ∷ 111 ∷ 110 ∷ 69 ∷ 114 ∷ 114 ∷ 111 ∷ 114 ∷ []

-- SyntaxError
abbrev pub syntax_error : Text
syntax_error = 83 ∷ 121 ∷ 110 ∷ 116 ∷ 97 ∷ 120 ∷ 69 ∷ 114 ∷ 114 ∷ 111 ∷ 114 ∷ []

-- IndentationError
abbrev pub indentation_error : Text
indentation_error =
    73 ∷ 110 ∷ 100 ∷ 101 ∷ 110 ∷ 116 ∷ 97 ∷ 116 ∷ 105 ∷ 111 ∷ 110 ∷ 69 ∷ 114 ∷ 114 ∷ 111 ∷ 114 ∷ []

-- TabError
abbrev pub tab_error : Text
tab_error = 84 ∷ 97 ∷ 98 ∷ 69 ∷ 114 ∷ 114 ∷ 111 ∷ 114 ∷ []

-- How the name of an error ends.
abbrev pub error_suffixes : List Text
error_suffixes =
    (69 ∷ 114 ∷ 114 ∷ 111 ∷ 114 ∷ [])
    ∷ (69 ∷ 120 ∷ 99 ∷ 101 ∷ 112 ∷ 116 ∷ 105 ∷ 111 ∷ 110 ∷ [])
    ∷ (69 ∷ 120 ∷ 105 ∷ 116 ∷ [])
    ∷ (73 ∷ 110 ∷ 116 ∷ 101 ∷ 114 ∷ 114 ∷ 117 ∷ 112 ∷ 116 ∷ [])
    ∷ (87 ∷ 97 ∷ 114 ∷ 110 ∷ 105 ∷ 110 ∷ 103 ∷ [])
    ∷ []
