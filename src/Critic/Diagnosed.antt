-- ===== src/Critic/Diagnosed.antt =====
-- Which executions get a diagnosis, and of which class (cognitivetree/feedback/execution_critic.py).
use cognitive_tree_ai.Prelude.{
  ℕ, ◌≡◌, ◌≢◌, ◌↔◌, refl, sym, subst, Text, codes, text_eq, text_eq_iff, true, Option, none, some,
  List, [], ◌∷◌, mem_text, mem_text-Memᴰ, Memᴰ-mem_text, Bool-cases, Option-cases, inl, inr, ==_iff,
  ap,
}
use mathlib.Core.List.{Memᴰ}
use cognitive_tree_ai.Node.{FailureClass, Critique}
use cognitive_tree_ai.Sandbox.{ExecutionStatus, ExitCode, exited, signalled}
use cognitive_tree_ai.Critic.{
  ExecutionRecord, asserted, malformed, raised_error, named, unnamed, error_line,
  last_meaningful_line, diagnose_stderr, is_timeout, is_clean, critique_execution,
}
use cognitive_tree_ai.Critic.Wording.{assertion_error}
use cognitive_tree_ai.Critic.Lines.{LastLine, last_meaningful_line-LastLine}
use cognitive_tree_ai.Critic.Spelled.{Names}
use cognitive_tree_ai.Critic.Named.{error_line-Names, Names-error_line}

-- The names of the errors of a text that does not parse.
abbrev pub parse_errors : List Text
parse_errors = codes "SyntaxError" ∷ codes "IndentationError" ∷ codes "TabError" ∷ []

-- The class of an error by its name.
pub data ClassOf : Text → FailureClass → Type 0 where
  assertion : (name : Text) → name ≡ codes "AssertionError" → ClassOf name FailureClass.assertion
  syntax : (name : Text) → Memᴰ name parse_errors → ClassOf name FailureClass.syntax
  exception :
      (name : Text)
      → name ≢ codes "AssertionError"
      → (Memᴰ name parse_errors → ⊥)
      → ClassOf name FailureClass.exception

-- The class of a failed execution by a line of its error output.
pub data Classed (line : Text) : FailureClass → Type 0 where
  by_name :
      {c : FailureClass} (name message : Text)
      → Names line name message
      → ClassOf name c
      → Classed line c
  nameless :
      ((name message : Text) → Names line name message → ⊥) → Classed line FailureClass.exception

asserted-class : (message : Text) → (asserted message).failure_class ≡ FailureClass.assertion
unfolding asserted
asserted-class [] = refl
asserted-class (c ∷ message) = refl

named-ClassOf : (name message : Text) → ClassOf name (named name message).failure_class
unfolding named malformed raised_error
named-ClassOf name message = elim (Bool-cases (text_eq name assertion_error)) [
  | inl e ↦ rw e (
      subst (ClassOf name) (sym (asserted-class message))
        (assertion name ((text_eq_iff name assertion_error).0 e)))
  | inr e ↦ elim (Bool-cases (mem_text name parse_errors)) [
    | inl q ↦ rw (e, q) (syntax name (Memᴰ-mem_text name parse_errors q))
    | inr q ↦
        rw (e, q)
          (exception name (λ i. cc (e, (text_eq_iff name assertion_error).1 i))
            (λ m. cc (q, mem_text-Memᴰ name parse_errors m)))
  ]
]

diagnose_stderr-Classed :
    (show : Option ExitCode → Text) (stderr : Text) (code : Option ExitCode)
    → Classed (last_meaningful_line stderr) (diagnose_stderr show stderr code).failure_class
unfolding diagnose_stderr unnamed
diagnose_stderr-Classed show stderr code =
    let line = last_meaningful_line stderr in
    elim (Option-cases (error_line line)) [
      | inl e ↦
          rw (e, diagnose_stderr)
            (nameless (λ name message n. cc (e, Names-error_line line name message n)))
      | inr (found, e) ↦
          rw (e, diagnose_stderr)
            (by_name found.0 found.1 (error_line-Names line found.0 found.1 e)
              (named-ClassOf found.0 found.1))
    ]

is_timeout_iff : (s : ExecutionStatus) → (is_timeout s ≡ true) ↔ (s ≡ ExecutionStatus.timeout)
unfolding is_timeout
is_timeout_iff ExecutionStatus.timeout = (λ q. refl, λ q. refl)
is_timeout_iff ExecutionStatus.completed = (λ q. absurd (cc), λ q. absurd (cc))
is_timeout_iff ExecutionStatus.sandbox_error = (λ q. absurd (cc), λ q. absurd (cc))

-- What the diagnosis of a record says.
abbrev pub Says : Option ExecutionRecord → Option Critique → Type 0
Says none o = (k : Critique) × (o ≡ some k) × (k.failure_class ≡ FailureClass.no_execution)
Says (some r) none = (r.status ≢ ExecutionStatus.timeout) × (r.exit_code ≡ some (exited 0))
Says (some r) (some k) =
    (r.status ≡ ExecutionStatus.timeout → k.failure_class ≡ FailureClass.timeout)
    × (r.status ≢ ExecutionStatus.timeout
        → (r.exit_code ≢ some (exited 0))
          × ((line : Text) × LastLine r.stderr line × Classed line k.failure_class))

clean_iff : (code : Option ExitCode) → (is_clean code ≡ true) ↔ (code ≡ some (exited 0))
unfolding is_clean
clean_iff none = (λ q. absurd (cc), λ q. absurd (cc))
clean_iff (some (exited n)) =
    (λ q. ap (λ m. some (exited m)) ((==_iff n 0).0 q), λ q. (==_iff n 0).1 (exited_of q))
  where
    exited_of : {m k : ℕ} → ◌≡◌ {A = Option ExitCode} (some (exited m)) (some (exited k)) → m ≡ k
    exited_of q = cc
clean_iff (some (signalled n)) = (λ q. absurd (cc), λ q. absurd (cc))

-- A thought without a record is told that it was not executed. An execution that did not time out
-- and exited with code zero gets no critique. Every other one does: a timeout is classed as such,
-- and else the class is that of the last line of the error output that is not blank. A line that
-- begins with the name of an error, and has nothing or a colon behind it, is classed by that name: an
-- AssertionError, an error of the parser, or another exception. A line of another form is an
-- exception too.
pub critique_execution-Says :
    (show : Option ExitCode → Text) (o : Option ExecutionRecord)
    → Says o (critique_execution show o)
unfolding critique_execution
critique_execution-Says show none = (_, refl, refl)
critique_execution-Says show (some r) = elim (Bool-cases (is_timeout r.status)) [
  | inl late ↦
      rw (late, critique_execution) (λ q. refl, λ q. absurd (q ((is_timeout_iff r.status).0 late)))
  | inr timely ↦
      let punctual : r.status ≢ ExecutionStatus.timeout =
        λ q. cc (timely, (is_timeout_iff r.status).1 q) in
      elim (Bool-cases (is_clean r.exit_code)) [
        | inl clean ↦
            rw (timely, clean, critique_execution) (punctual, (clean_iff r.exit_code).0 clean)
        | inr unclean ↦
            rw (timely, unclean, critique_execution)
              (
                λ q. absurd (punctual q),
                λ q. (
                  λ e. cc (unclean, (clean_iff r.exit_code).1 e),
                  (
                    last_meaningful_line r.stderr,
                    last_meaningful_line-LastLine r.stderr,
                    diagnose_stderr-Classed show r.stderr r.exit_code,
                  ),
                ),
              )
      ]
]
