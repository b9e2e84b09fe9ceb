-- ===== src/Critic.antt =====
-- cognitivetree/feedback/execution_critic.py: the diagnosis of an execution by its last error line.
-- The record that the evaluator leaves in a node's metadata is an argument.
pub mod Wording
pub mod Lines
pub mod Spelled
pub mod Named
pub mod Diagnosed
use cognitive_tree_ai.Prelude.{
  ℕ, ◌==◌, Text, text_eq, strip, mem_text, Float, Bool, true, false, Option, none, some, List, [],
  ◌∷◌, ◌++◌, reverse, ◌||◌, ◌&&◌, leb, if◌then◌else◌,
}
use cognitive_tree_ai.Node.{FailureClass, Critique}
use cognitive_tree_ai.Sandbox.{ExecutionStatus, ExitCode, exited, signalled}
use cognitive_tree_ai.Critic.Wording.*

-- The entries of the record that the critic reads.
pub record ExecutionRecord : Type 0 where
  pub status : ExecutionStatus
  pub exit_code : Option ExitCode
  pub stderr : Text

pub is_letter : ℕ → Bool
is_letter c = (leb 65 c && leb c 90) || (leb 97 c && leb c 122) || (c == 95)

pub is_name_part : ℕ → Bool
unfolding is_letter
is_name_part c = is_letter c || (leb 48 c && leb c 57)

-- The longest run of name characters, and what follows it.
pub name_run : Text → Text × Text
unfolding is_name_part
name_run [] = ([], [])
name_run (c ∷ s) =
    let (run, rest) = name_run s in if is_name_part c then (c ∷ run, rest) else ([], c ∷ s)

pub starts_with : Text → Text → Bool
starts_with [] s = true
starts_with (c ∷ p) [] = false
starts_with (c ∷ p) (d ∷ s) = (c == d) && starts_with p s

pub ends_with_any : List Text → Text → Bool
unfolding starts_with
ends_with_any [] s = false
ends_with_any (suffix ∷ rest) s = starts_with (reverse suffix) (reverse s) || ends_with_any rest s

-- The ending stands behind a first letter, and any characters of a name between.
pub is_error_name : Text → Bool
unfolding is_letter ends_with_any
is_error_name [] = false
is_error_name (c ∷ s) = is_letter c && ends_with_any error_suffixes s

after_name : Text → Text → Option (Text × Text)
after_name name [] = some (name, [])
after_name name (c ∷ rest) = if c == 58 then some (name, strip rest) else none

-- `_ERROR_LINE.match(line)` with the message stripped: the name is followed by a colon or the end,
-- so it is the longest run of name characters.
unfoldable pub error_line : Text → Option (Text × Text)
unfolding name_run is_error_name after_name
error_line line =
    let (name, rest) = name_run line in if is_error_name name then after_name name rest else none

is_break : ℕ → Bool
is_break c =
    (leb 10 c && leb c 13) || (leb 28 c && leb c 30) || (c == 133) || (c == 8232) || (c == 8233)

-- `text.splitlines()`; a carriage return with its newline leaves an empty line between, which the
-- search for a line with text passes over.
split_lines : Text → List Text
unfolding is_break
split_lines [] = []
split_lines (c ∷ s) = if is_break c then [] ∷ split_lines s else cons_first c (split_lines s)
  where
    cons_first : ℕ → List Text → List Text
    cons_first d [] = (d ∷ []) ∷ []
    cons_first d (line ∷ lines) = (d ∷ line) ∷ lines

first_text : List Text → Text
first_text [] = []
first_text (line ∷ lines) = elim (strip line) [ [] ↦ first_text lines | c ∷ s ↦ c ∷ s ]

-- `_last_meaningful_line(stderr)`
unfoldable pub last_meaningful_line : Text → Text
unfolding split_lines first_text
last_meaningful_line stderr = first_text (reverse (split_lines (strip stderr)))

-- `f"{name}: {message}" if message else name`
detail_of : Text → Text → Text
detail_of name [] = name
detail_of name (c ∷ message) = name ++ 58 ∷ 32 ∷ c ∷ message

suffix_of : Text → Text
suffix_of [] = []
suffix_of (c ∷ message) = 32 ∷ 40 ∷ c ∷ message ++ 41 ∷ []

unnamed : (Option ExitCode → Text) → Option ExitCode → Text → Critique
unnamed show code line = record {
  failure_class = FailureClass.exception;
  summary = exited_with ++ show code;
  guidance = elim line [ [] ↦ revise_exit | c ∷ s ↦ inspect_output ++ c ∷ s ];
  severity = record { bits = 0x3fe6666666666666 };
}

asserted : Text → Critique
asserted [] = record {
  failure_class = FailureClass.assertion;
  summary = check_failed_silently;
  guidance = revise_assertions;
  severity = record { bits = 0x3fe3333333333333 };
}
asserted (c ∷ message) = record {
  failure_class = FailureClass.assertion;
  summary = check_failed ++ c ∷ message;
  guidance = revise_requirement ++ c ∷ message;
  severity = record { bits = 0x3fe3333333333333 };
}

malformed : Text → Text → Critique
unfolding detail_of
malformed name message = record {
  failure_class = FailureClass.syntax;
  summary = parse_failed ++ detail_of name message;
  guidance = repair_syntax;
  severity = record { bits = 0x3fe999999999999a };
}

raised_error : Text → Text → Critique
unfolding detail_of suffix_of
raised_error name message = record {
  failure_class = FailureClass.exception;
  summary = payload_raised ++ detail_of name message;
  guidance = handle_the ++ name ++ raised_at_runtime ++ suffix_of message ++ 46 ∷ [];
  severity = record { bits = 0x3fe6666666666666 };
}

named : Text → Text → Critique
unfolding asserted malformed raised_error
named name message =
    if text_eq name assertion_error
    then asserted message
    else if mem_text name (syntax_error ∷ indentation_error ∷ tab_error ∷ [])
    then malformed name message
    else raised_error name message

-- `_diagnose_stderr(stderr, exit_code)`; `show` prints the exit code.
unfoldable pub diagnose_stderr : (Option ExitCode → Text) → Text → Option ExitCode → Critique
unfolding unnamed named
diagnose_stderr show stderr code =
    let line = last_meaningful_line stderr in
    elim (error_line line) [ none ↦ unnamed show code line | some found ↦ named found.0 found.1 ]

unfoldable pub is_timeout : ExecutionStatus → Bool
is_timeout ExecutionStatus.timeout = true
is_timeout _ = false

is_clean : Option ExitCode → Bool
is_clean none = false
is_clean (some (exited code)) = code == 0
is_clean (some (signalled n)) = false

abbrev unexecuted : Critique
unexecuted = record {
  failure_class = FailureClass.no_execution;
  summary = no_payload;
  guidance = produce_payload;
  severity = record { bits = 0x3fd999999999999a };
}

abbrev overrun : Critique
overrun = record {
  failure_class = FailureClass.timeout;
  summary = deadline_exceeded;
  guidance = remove_loops;
  severity = record { bits = 0x3feccccccccccccd };
}

-- `critique(node)`, on the record of the node's execution.
unfoldable pub critique_execution :
    (Option ExitCode → Text) → Option ExecutionRecord → Option Critique
unfolding is_timeout is_clean
critique_execution show none = some unexecuted
critique_execution show (some r) =
    if is_timeout r.status
    then some overrun
    else if is_clean r.exit_code
    then none
    else some (diagnose_stderr show r.stderr r.exit_code)
