-- ===== src/Examples/Sandboxes.antt =====
-- The theorems on the sandboxes at concrete inputs.
use cognitive_tree_ai.Prelude.{
  ℕ, ◌+◌, ◌≡◌, refl, strip, Text, codes, Float, Bool, true, false, Option, none, some, List, [],
  ◌∷◌, arith,
}
use cognitive_tree_ai.Faults.{Result, ok}
use cognitive_tree_ai.Sandbox.{
  ExecutionStatus, ExecutionRequest, ExecutionResult, ExitCode, exited, ResourceLimits,
}
use cognitive_tree_ai.Sandbox.Bounded.{Child}
use cognitive_tree_ai.Sandbox.Framing.{frame_payload, unframe, unframe-frame_payload}
use cognitive_tree_ai.Sandbox.Fences.{
  opening, closes, is_python, splitlines, dedent, join_lines, extract_python_payload,
}
use cognitive_tree_ai.Sandbox.Fences.Payloads.{by_line, extract_python_payload-fenced}
use cognitive_tree_ai.Sandbox.Grading.{CodeExecutionEvaluator, evaluate_code}
use cognitive_tree_ai.Sandbox.Grading.Graded.{Graded, evaluate_code-Graded}
use cognitive_tree_ai.Sandbox.Executors.{
  Process, host_process, execute_host, Executed, execute_host-Executed,
}
use cognitive_tree_ai.Sandbox.Docker.{
  DockerConfig, Called, timeout_expired, docker_process, execute_docker,
}
use cognitive_tree_ai.Sandbox.Docker.Contained.{Contains, execute_docker-Contains}
use cognitive_tree_ai.Scenarios.{number, numbers, talker}

abbrev clock : ℕ → Float × ℕ
clock w = (number w, w + 1)

abbrev bytes : Text → List ℕ
bytes t = t

unframe-frame_payload_example :
    unframe (frame_payload bytes (codes "print(1)") (codes "5\n"))
    ≡ some (codes "print(1)", codes "5\n")
unframe-frame_payload_example = unframe-frame_payload bytes (codes "print(1)") (codes "5\n")

abbrev thought : Text
thought = codes "Try:\n```Python\n  x = 1\n```\nDone"

extract_python_payload-fenced_example : extract_python_payload thought ≡ some (codes "x = 1")
unfolding splitlines opening closes is_python dedent join_lines strip
extract_python_payload-fenced_example =
    extract_python_payload-fenced thought (codes "Try:" ∷ []) (codes "  x = 1" ∷ [])
      (codes "```" ∷ codes "Done" ∷ []) (codes "Done" ∷ []) (codes "```Python")
      (record { mark = 96; width = 3 }) (codes "Python") refl (refl, tt) refl refl (refl, tt)
      (by_line (codes "```") (codes "Done" ∷ []) refl) (λ q. cc)

abbrev evaluator : CodeExecutionEvaluator
evaluator = record {
  harness = codes "assert x";
  success_score = number 9;
  failure_score = number 1;
  timeout_score = number 0;
  missing_payload_score = number 3;
  terminal_on_success = true;
}

abbrev passes : ExecutionRequest → ℕ → Result ExecutionResult × ℕ
passes r w = (
  ok (record {
    status = ExecutionStatus.completed;
    exit_code = some (exited 0);
    stdout = [];
    stderr = [];
    duration_seconds = number 1;
    truncated = false;
    detail = [];
  }),
  w + 1,
)

abbrev shown : Option ExitCode → Text
shown code = []

evaluate_code-Graded_example :
    Graded numbers shown passes evaluator 0
      (extract_python_payload thought)
      (evaluate_code numbers shown passes evaluator thought 0)
evaluate_code-Graded_example =
    evaluate_code-Graded numbers shown passes evaluator thought 0 (record {
      success = (refl, refl);
      failure = (refl, refl);
      timeout = (refl, refl);
      missing = (refl, refl);
    })

abbrev limits : ResourceLimits
limits = record {
  memory_mb = 256;
  cpus = number 1;
  pids = 64;
  timeout_seconds = number 10;
  output_limit_chars = 2;
}

abbrev asked : ExecutionRequest
asked = record { code = codes "print(1)"; stdin = []; timeout_seconds = none }

abbrev secs : Float → Text
secs f = []

abbrev child : Process → ℕ → Result Child × ℕ
child p w = talker w

execute_host-Executed_example :
    Executed numbers bytes bytes secs [] clock child 2
      (child
        (host_process numbers bytes bytes secs [] clock child (codes "python") limits asked)
        1).0
      (execute_host numbers bytes bytes secs [] clock child (codes "python") limits asked 0).0
execute_host-Executed_example =
    execute_host-Executed numbers bytes bytes secs [] clock child (codes "python") limits asked 0
      (omega arith)

abbrev containers : DockerConfig
containers = record {
  image = codes "cognitivetree-sandbox:latest";
  docker_binary = codes "docker";
  limits = limits;
  tmpfs_mb = 16;
  kill_grace_seconds = number 10;
}

abbrev unique : ℕ → Text × ℕ
unique w = (codes "a1", w + 1)

abbrev missing : Text → Bool
missing t = false

abbrev silent : List Text → ℕ → ℕ → Called × ℕ
silent command seconds w = (timeout_expired, w)

execute_docker-Contains_example :
    Contains numbers bytes bytes bytes secs secs [] clock unique missing silent child containers
      (child
        (docker_process numbers bytes bytes bytes secs secs [] clock unique missing silent child
          containers
          (codes "ctree-sbx-a1")
          asked)
        2).0
      (execute_docker numbers bytes bytes bytes secs secs [] clock unique missing silent child
        containers asked 0).0
execute_docker-Contains_example =
    execute_docker-Contains numbers bytes bytes bytes secs secs [] clock unique missing silent child
      containers asked 0 (omega arith)
