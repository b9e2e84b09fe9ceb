-- ===== src/Sandbox/Grading.antt =====
-- cognitivetree/sandbox/evaluation.py: the verdict on a thought by running its payload. The executor
-- and the printing of an exit code are parameters.
pub mod Graded
use cognitive_tree_ai.Prelude.{
  ℕ, ◌==◌, Text, codes, rstrip, Float, FloatOps, zero_f, one_f, Bool, true, false, Option, none,
  some, List, [], ◌∷◌, ◌++◌, not, ◌&&◌, take, if◌then◌else◌,
}
use cognitive_tree_ai.Faults.{Fault, Result, ok, raise}
use cognitive_tree_ai.Policies.{Evaluation, make_evaluation}
use cognitive_tree_ai.Critic.{ExecutionRecord, last_meaningful_line}
use cognitive_tree_ai.Sandbox.{
  ExecutionStatus, ExecutionRequest, ExecutionResult, ExitCode, make_execution, succeeded,
}
use cognitive_tree_ai.Sandbox.Fences.{extract_python_payload}

pub record CodeExecutionEvaluator : Type 0 where
  pub harness : Text
  pub success_score : Float
  pub failure_score : Float
  pub timeout_score : Float
  pub missing_payload_score : Float
  pub terminal_on_success : Bool

-- `CodeExecutionEvaluator(...)`
unfoldable pub make_evaluator : FloatOps → CodeExecutionEvaluator → Result CodeExecutionEvaluator
make_evaluator ops v =
    if not (
      ops.le zero_f v.failure_score
      && ops.le v.failure_score v.success_score
      && ops.le v.success_score one_f)
    then raise Fault.value_error
    else ok (record v { harness = rstrip v.harness })

-- `result.to_dict()`
unfoldable pub to_dict : FloatOps → ExecutionResult → ExecutionResult
to_dict ops r = record r { duration_seconds = ops.round 4 r.duration_seconds }

-- The entries that the critic reads.
unfoldable pub record_of : ExecutionResult → ExecutionRecord
record_of r = record { status = r.status; exit_code = r.exit_code; stderr = r.stderr }

-- `a or b`
unfoldable pub text_or : Text → Text → Text
text_or [] t = t
text_or (c ∷ s) t = c ∷ s

-- `payload if not self._harness else f"{payload}\n\n{self._harness}\n"`
unfoldable pub program_of : Text → Text → Text
program_of [] payload = payload
program_of (c ∷ harness) payload = payload ++ (10 ∷ 10 ∷ c ∷ harness) ++ 10 ∷ []

line_suffix : Text → Text
line_suffix [] = []
line_suffix (c ∷ line) = 58 ∷ 32 ∷ c ∷ line

module _ {W : Type 0} (ops : FloatOps) (show : Option ExitCode → Text)
    (execute : ExecutionRequest → W → Result ExecutionResult × W) where
  -- `_failure_rationale(exit_code, stderr)`
  unfoldable pub failure_rationale : Option ExitCode → Text → Text
  unfolding last_meaningful_line line_suffix
  failure_rationale code stderr =
      codes "payload failed with exit code "
      ++ (show code ++ line_suffix (last_meaningful_line stderr))

  -- The verdict on a payload that ran or was stopped.
  unfoldable pub completed : CodeExecutionEvaluator → ExecutionResult → Result Evaluation
  unfolding failure_rationale succeeded
  completed v r =
      if succeeded r
      then make_evaluation ops v.success_score v.terminal_on_success
          (codes "payload and validation harness executed cleanly")
      else make_evaluation ops v.failure_score false (failure_rationale r.exit_code r.stderr)

  unfoldable pub grade :
      CodeExecutionEvaluator → ExecutionStatus → ExecutionResult → Result Evaluation
  unfolding completed text_or
  grade v ExecutionStatus.sandbox_error r = raise (
      Fault.sandbox_error
        (codes "sandbox infrastructure fault: " ++ text_or r.detail (take 200 r.stderr)))
  grade v ExecutionStatus.timeout r =
      make_evaluation ops v.timeout_score false (text_or r.detail (codes "payload timed out"))
  grade v ExecutionStatus.completed r = completed v r

  -- What follows the call of the executor; the record is stored before the status is read.
  unfoldable pub graded :
      CodeExecutionEvaluator
      → Result ExecutionResult × W
      → Result Evaluation × Option ExecutionResult × W
  unfolding grade to_dict
  graded v (raise e, w) = (raise e, none, w)
  graded v (ok r, w) = (grade v r.status r, some (to_dict ops r), w)

  unfoldable pub submit :
      CodeExecutionEvaluator
      → Result ExecutionRequest
      → W
      → Result Evaluation × Option ExecutionResult × W
  unfolding graded
  submit v (raise e) w = (raise e, none, w)
  submit v (ok request) w = graded v (execute request w)

  unfoldable pub run_payload :
      CodeExecutionEvaluator → Option Text → W → Result Evaluation × Option ExecutionResult × W
  unfolding submit program_of make_execution
  run_payload v none w = (
    make_evaluation ops v.missing_payload_score false (codes "no executable payload found"),
    none,
    w,
  )
  run_payload v (some payload) w =
      submit v
        (make_execution ops
          (record { code = program_of v.harness payload; stdin = []; timeout_seconds = none }))
        w

  -- `evaluate(node)` on the content of the node: the verdict, the record for its metadata, and the
  -- world of the executor.
  unfoldable pub evaluate_code :
      CodeExecutionEvaluator → Text → W → Result Evaluation × Option ExecutionResult × W
  unfolding run_payload
  evaluate_code v content w = run_payload v (extract_python_payload content) w
