-- ===== src/Sandbox/Grading/Graded.antt =====
-- What a thought gets for its payload, and that the critic of the execution agrees.
use cognitive_tree_ai.Prelude.{
  ℕ, ◌++◌, ◌==◌, ◌≡◌, ◌≢◌, ◌↔◌, refl, Text, codes, strip, zero_f, one_f, Float, FloatOps, Bool,
  true, false, Option, none, some, [], ◌∷◌, ◌&&◌, Bool-cases, inl, inr, if◌then◌else◌,
}
use cognitive_tree_ai.Prelude.Texts.Stripped.{strip-ne_nil}
use cognitive_tree_ai.Faults.{Result, ok, raise}
use cognitive_tree_ai.Policies.{Evaluation, make_evaluation}
use cognitive_tree_ai.Critic.{critique_execution, is_timeout}
use cognitive_tree_ai.Sandbox.{
  ExecutionStatus, ExecutionRequest, ExecutionResult, ExitCode, exited, signalled, make_execution,
  succeeded, is_completed, is_zero, no_code,
}
use cognitive_tree_ai.Sandbox.Fences.{extract_python_payload}
use cognitive_tree_ai.Sandbox.Fences.Payloads.{Sharp, extract_python_payload-Sharp}
use cognitive_tree_ai.Sandbox.Grading.{
  CodeExecutionEvaluator, to_dict, record_of, program_of, completed, grade, graded, submit,
  run_payload, evaluate_code,
}

-- The score is one that a verdict may have.
abbrev pub InUnit : FloatOps → Float → Type 0
InUnit ops s = (ops.le zero_f s ≡ true) × (ops.le s one_f ≡ true)

pub record Scored (ops : FloatOps) (v : CodeExecutionEvaluator) : Type 0 where
  pub success : InUnit ops v.success_score
  pub failure : InUnit ops v.failure_score
  pub timeout : InUnit ops v.timeout_score
  pub missing : InUnit ops v.missing_payload_score

make_evaluation-InUnit :
    (ops : FloatOps) (s : Float) (b : Bool) (t : Text)
    → InUnit ops s
    → make_evaluation ops s b t ≡ ok (record { score = s; is_terminal = b; rationale = t })
unfolding make_evaluation
make_evaluation-InUnit ops s b t (p, q) = rw (p, q) refl

-- What is submitted for a payload: the payload itself without a harness, and else the payload, an
-- empty line and the harness.
pub data Submits : (harness payload program : Text) → Type 0 where
  alone : (payload : Text) → Submits [] payload payload
  harnessed :
      (c : ℕ) (harness payload : Text)
      → Submits (c ∷ harness) payload (payload ++ (codes "\n\n" ++ (c ∷ harness)) ++ codes "\n")

program_of-Submits : (harness payload : Text) → Submits harness payload (program_of harness payload)
unfolding program_of
program_of-Submits [] payload = Submits.alone payload
program_of-Submits (c ∷ harness) payload = Submits.harnessed c harness payload

-- The score for an execution that the sandbox carried out.
pub score_for : CodeExecutionEvaluator → ExecutionResult → Float
score_for v r =
    if succeeded r
    then v.success_score
    else if is_timeout r.status
    then v.timeout_score
    else v.failure_score

-- What the verdict `x` says of the executor's answer `r`, with the record that is stored.
abbrev pub Judged :
    (Option ExitCode → Text)
    → CodeExecutionEvaluator
    → ExecutionResult
    → Result Evaluation
    → ExecutionResult
    → Type 0
Judged show v r (raise e) stored = r.status ≡ ExecutionStatus.sandbox_error
Judged show v r (ok x) stored =
    (r.status ≢ ExecutionStatus.sandbox_error)
    × (x.score ≡ score_for v r)
    × (x.is_terminal ≡ (succeeded r && v.terminal_on_success))
    × ((critique_execution show (some (record_of stored)) ≡ none) ↔ (succeeded r ≡ true))

critic-outcome :
    (show : Option ExitCode → Text) (status : ExecutionStatus) (code : Option ExitCode) (err : Text)
    → status ≢ ExecutionStatus.sandbox_error
    → (critique_execution show (some (record { status = status; exit_code = code; stderr = err }))
        ≡ none)
      ↔ ((is_completed status && is_zero code) ≡ true)
unfolding critique_execution is_completed is_zero
critic-outcome show ExecutionStatus.sandbox_error code err h = absurd (h refl)
critic-outcome show ExecutionStatus.timeout code err h = (λ q. absurd (cc), λ q. absurd (cc))
critic-outcome show ExecutionStatus.completed none err h = (λ q. absurd (cc), λ q. absurd (cc))
critic-outcome show ExecutionStatus.completed (some (signalled n)) err h =
    (λ q. absurd (cc), λ q. absurd (cc))
critic-outcome show ExecutionStatus.completed (some (exited n)) err h = elim (Bool-cases (n == 0)) [
  | inl e ↦ rw e (λ q. refl, λ q. refl)
  | inr e ↦ rw e (λ q. absurd (cc), λ q. absurd (cc))
]

critic-succeeded :
    (ops : FloatOps) (show : Option ExitCode → Text) (r : ExecutionResult)
    → r.status ≢ ExecutionStatus.sandbox_error
    → (critique_execution show (some (record_of (to_dict ops r))) ≡ none) ↔ (succeeded r ≡ true)
unfolding record_of to_dict succeeded
critic-succeeded ops show r h = critic-outcome show r.status r.exit_code r.stderr h

module _ {W : Type 0} (ops : FloatOps) (show : Option ExitCode → Text)
    (execute : ExecutionRequest → W → Result ExecutionResult × W) where
  verdict-Judged :
      (v : CodeExecutionEvaluator) (r : ExecutionResult) (s : Float) (b : Bool) (t : Text)
      → InUnit ops s
      → r.status ≢ ExecutionStatus.sandbox_error
      → s ≡ score_for v r
      → b ≡ (succeeded r && v.terminal_on_success)
      → Judged show v r (make_evaluation ops s b t) (to_dict ops r)
  verdict-Judged v r s b t unit h p q =
      rw (make_evaluation-InUnit ops s b t unit) (h, p, q, critic-succeeded ops show r h)

  completed-Judged :
      (v : CodeExecutionEvaluator) (r : ExecutionResult)
      → Scored ops v
      → r.status ≡ ExecutionStatus.completed
      → Judged show v r (completed ops show execute v r) (to_dict ops r)
  unfolding completed
  completed-Judged v r k e = elim (Bool-cases (succeeded r)) [
    | inl q ↦
        rw (q, completed)
          (verdict-Judged v r _ _ _ k.success (λ c. cc) (unfold score_for in rw q refl) (rw q refl))
    | inr q ↦
        rw (q, completed)
          (verdict-Judged v r _ _ _ k.failure (λ c. cc)
            (unfold score_for is_timeout in rw (q, e) refl) (rw q refl))
  ]

  grade-Judged :
      (v : CodeExecutionEvaluator) (status : ExecutionStatus) (r : ExecutionResult)
      → Scored ops v
      → r.status ≡ status
      → Judged show v r (grade ops show execute v status r) (to_dict ops r)
  unfolding grade
  grade-Judged v ExecutionStatus.sandbox_error r k e = e
  grade-Judged v ExecutionStatus.completed r k e = completed-Judged v r k e
  grade-Judged v ExecutionStatus.timeout r k e =
      let failed : succeeded r ≡ false = unfold succeeded is_completed in rw e refl in
      verdict-Judged v r _ _ _ k.timeout (λ c. cc)
        (unfold score_for is_timeout in rw (failed, e) refl) (rw failed refl)

  -- What the answer of the executor makes of the evaluation.
  abbrev pub Answered :
      CodeExecutionEvaluator
      → Result ExecutionResult × W
      → Result Evaluation × Option ExecutionResult × W
      → Type 0
  Answered v (raise e, w') x = x ≡ (raise e, none, w')
  Answered v (ok r, w') (x, stored, w'') =
      Judged show v r x (to_dict ops r) × (stored ≡ some (to_dict ops r)) × (w'' ≡ w')

  -- What an evaluation comes to, by the payload of the thought.
  abbrev pub Graded :
      CodeExecutionEvaluator
      → W
      → Option Text
      → Result Evaluation × Option ExecutionResult × W
      → Type 0
  Graded v w none x = x ≡ (
    ok (record {
      score = v.missing_payload_score;
      is_terminal = false;
      rationale = codes "no executable payload found";
    }),
    none,
    w,
  )
  Graded v w (some payload) x =
      (program : Text) × Submits v.harness payload program
      × Answered v (execute (record { code = program; stdin = []; timeout_seconds = none }) w) x

  graded-Answered :
      (v : CodeExecutionEvaluator) (y : Result ExecutionResult × W)
      → Scored ops v
      → Answered v y (graded ops show execute v y)
  unfolding graded
  graded-Answered v (raise e, w) k = refl
  graded-Answered v (ok r, w) k = (grade-Judged v r.status r k refl, refl, refl)

  program_of-Sharp : (harness payload : Text) → Sharp payload → Sharp (program_of harness payload)
  unfolding program_of
  program_of-Sharp [] payload h = h
  program_of-Sharp (d ∷ harness) [] h = absurd h
  program_of-Sharp (d ∷ harness) (c ∷ payload) h = h

  make_execution-Sharp :
      (code : Text)
      → Sharp code
      → make_execution ops (record { code = code; stdin = []; timeout_seconds = none })
        ≡ ok (record { code = code; stdin = []; timeout_seconds = none })
  unfolding make_execution no_code
  make_execution-Sharp [] h = absurd h
  make_execution-Sharp (c ∷ s) h = elim (Bool-cases (no_code (strip (c ∷ s)))) [
    | inl e ↦ absurd (strip-ne_nil c s h (nil_of (strip (c ∷ s)) e))
    | inr e ↦ rw e refl
  ]
    where
      nil_of : (t : Text) → no_code t ≡ true → t ≡ []
      nil_of [] q = refl
      nil_of (d ∷ t) q = absurd (cc)

  run_payload-Graded :
      (v : CodeExecutionEvaluator) (o : Option Text) (w : W)
      → Scored ops v
      → ((p : Text) → o ≡ some p → Sharp p)
      → Graded v w o (run_payload ops show execute v o w)
  unfolding run_payload submit
  run_payload-Graded v none w k h = rw (make_evaluation-InUnit ops _ false _ k.missing) refl
  run_payload-Graded v (some p) w k h = (
    program_of v.harness p,
    program_of-Submits v.harness p,
    rw (make_execution-Sharp _ (program_of-Sharp v.harness p (h p refl))) (graded-Answered v _ k),
  )

  -- Let the scores of the evaluator lie within [0, 1]. A thought without a payload gets the score
  -- for that, is not terminal, and the executor is not called. A payload is submitted with the
  -- harness behind it; a fault of the executor is raised, and its answer is stored. The evaluation
  -- of an answer raises exactly if the sandbox failed; otherwise the verdict is terminal exactly if
  -- the execution succeeded and success is terminal, its score is that of the outcome, and the
  -- critic has nothing to say of the stored record exactly if the execution succeeded.
  pub evaluate_code-Graded :
      (v : CodeExecutionEvaluator) (content : Text) (w : W)
      → Scored ops v
      → Graded v w (extract_python_payload content) (evaluate_code ops show execute v content w)
  unfolding evaluate_code
  evaluate_code-Graded v content w k =
      run_payload-Graded v (extract_python_payload content) w k
        (extract_python_payload-Sharp content)
