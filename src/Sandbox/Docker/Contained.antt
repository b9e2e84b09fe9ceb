-- ===== src/Sandbox/Docker/Contained.antt =====
-- The Docker executor keeps the contract of an executor, and takes only an exit code of the command
-- line client for a fault of the sandbox.
use cognitive_tree_ai.Prelude.{
  ℕ, ◌≤◌, ◌<◌, ◌≡◌, ==_iff, refl, ap, Text, codes, Float, FloatOps, Bool, true, Option, none, some,
  List, Bool-cases, inl, inr, arith, ◌++◌,
}
use cognitive_tree_ai.Faults.{Result, ok, raise}
use cognitive_tree_ai.Sandbox.{
  ExecutionStatus, ExecutionRequest, ExecutionResult, ExitCode, exited, signalled,
  capture_bytes_for, decode_captured,
}
use cognitive_tree_ai.Sandbox.Bounded.{Child, BoundedRun, Runs, run_bounded-Runs}
use cognitive_tree_ai.Sandbox.Executors.{Process, Conforms, length-decode_captured_le}
use cognitive_tree_ai.Sandbox.Docker.{
  DockerConfig, Called, is_cli_fault, code_is, code_from_125, docker_process, docker_status,
  docker_result, docker_fault, docker_outcome, execute_docker,
}

-- The exit codes that the command line client keeps for itself.
pub data ClientCode : Option ExitCode → Type 0 where
  client_code :
      (n : ℕ) (code : Option ExitCode)
      → code ≡ some (exited n)
      → 125 ≤ n
      → n ≤ 127
      → ClientCode code

code_is-exited : (k : ℕ) (code : ExitCode) → code_is k code ≡ true → code ≡ exited k
unfolding code_is
code_is-exited k (exited m) h = ap exited ((==_iff m k).0 h)
code_is-exited k (signalled m) h = absurd (cc)

fault-ClientCode :
    (lower : Text → Text) (code : ExitCode) (stderr : Text)
    → is_cli_fault lower code stderr ≡ true
    → ClientCode (some code)
unfolding is_cli_fault
fault-ClientCode lower code stderr h = elim (Bool-cases (code_is 125 code)) [
  | inl a ↦ client_code 125 _ (ap some (code_is-exited 125 code a)) (omega arith) (omega arith)
  | inr a ↦ elim (Bool-cases (code_is 126 code)) [
    | inl b ↦ client_code 126 _ (ap some (code_is-exited 126 code b)) (omega arith) (omega arith)
    | inr b ↦ elim (Bool-cases (code_is 127 code)) [
      | inl c ↦ client_code 127 _ (ap some (code_is-exited 127 code c)) (omega arith) (omega arith)
      | inr c ↦ absurd (cc (rw (a, b, c) at h))
    ]
  ]
]

module _ {W : Type 0} (ops : FloatOps) (encode : Text → List ℕ) (decode : List ℕ → Text)
    (lower : Text → Text) (show_float show_seconds : Float → Text) (bootstrap : Text)
    (perf_counter : W → Float × W) (unique : W → Text × W) (is_missing : Text → Bool)
    (call : List Text → ℕ → W → Called × W) (spawn : Process → W → Result Child × W) where
  abbrev status_of :
      DockerConfig → ExecutionRequest → Option ExitCode → Text → ExecutionStatus × Text
  status_of =
      docker_status ops encode decode lower show_float show_seconds bootstrap perf_counter unique
        is_missing call spawn

  -- What the status of a run says of its exit code.
  record Fits (code : Option ExitCode) (status : ExecutionStatus) : Type 0 where
    timed :
        (code ≡ none → status ≡ ExecutionStatus.timeout)
        × (status ≡ ExecutionStatus.timeout → code ≡ none)
    faulty : status ≡ ExecutionStatus.sandbox_error → ClientCode code

  docker_status-Fits :
      (c : DockerConfig) (r : ExecutionRequest) (code : Option ExitCode) (stderr : Text)
      → Fits code (status_of c r code stderr).0
  unfolding docker_status
  docker_status-Fits c r none stderr = record {
    timed = (λ q. refl, λ q. refl);
    faulty = λ q. absurd (cc);
  }
  docker_status-Fits c r (some code) stderr = elim (Bool-cases (code_from_125 code)) [
    | inl e ↦ elim (Bool-cases (is_cli_fault lower code stderr)) [
      | inl q ↦
          rw (e, q)
            (record {
              timed = (λ x. absurd (cc), λ x. absurd (cc));
              faulty = λ x. fault-ClientCode lower code stderr q;
            })
      | inr q ↦
          rw (e, q)
            (record { timed = (λ x. absurd (cc), λ x. absurd (cc)); faulty = λ x. absurd (cc) })
    ]
    | inr e ↦
        rw e (record { timed = (λ x. absurd (cc), λ x. absurd (cc)); faulty = λ x. absurd (cc) })
  ]

  -- What the operating system's answer makes of an execution in a container.
  abbrev pub Contains : DockerConfig → Result Child → Result ExecutionResult → Type 0
  Contains c (raise e) x =
      x
      ≡ raise (
          docker_fault ops encode decode lower show_float show_seconds bootstrap perf_counter unique
            is_missing call spawn c e)
  Contains c (ok child) (ok r) =
      Conforms c.limits.output_limit_chars r
      × (r.exit_code ≡ child.returncode)
      × (r.status ≡ ExecutionStatus.sandbox_error → ClientCode r.exit_code)
  Contains c (ok child) (raise e) = ⊥

  docker_outcome-Contains :
      (c : DockerConfig) (name : Text) (r : ExecutionRequest) (started : Float)
      (x : Result Child × W) (y : Result BoundedRun × W)
      → Runs (capture_bytes_for c.limits.output_limit_chars) x y
      → Contains c x.0
          (docker_outcome ops encode decode lower show_float show_seconds bootstrap perf_counter
            unique is_missing call spawn c name r started y).0
  unfolding docker_outcome docker_result
  docker_outcome-Contains c name r started (ok child, v) (ok run, w) h =
      let fits =
        docker_status-Fits c r run.returncode
          (decode_captured decode run.stderr run.stderr_truncated c.limits.output_limit_chars).0 in
      (
        record {
          stdout = length-decode_captured_le decode run.stdout run.stdout_truncated _;
          stderr = length-decode_captured_le decode run.stderr run.stderr_truncated _;
          timed = fits.timed;
        },
        h.0,
        fits.faulty,
      )
  docker_outcome-Contains c name r started (ok child, v) (raise e, w) h = absurd h
  docker_outcome-Contains c name r started (raise e, v) (ok run, w) h = absurd h
  docker_outcome-Contains c name r started (raise e, v) (raise e', w) h = rw h refl

  -- With an output limit of at least one character, the Docker executor returns a result exactly
  -- if its client could be run, with the exit code of the client. The result has at most that many
  -- characters of either stream, and no exit code exactly if the execution timed out. It is a
  -- fault of the sandbox only where the exit code is one of the three of the client itself.
  pub execute_docker-Contains :
      (c : DockerConfig) (r : ExecutionRequest) (w : W)
      → 0 < c.limits.output_limit_chars
      → let (id, w1) = unique w in
        Contains c
          (spawn
            (docker_process ops encode decode lower show_float show_seconds bootstrap perf_counter
              unique is_missing call spawn c
              (codes "ctree-sbx-" ++ id)
              r)
            (perf_counter w1).1).0
          (execute_docker ops encode decode lower show_float show_seconds bootstrap perf_counter
            unique is_missing call spawn c r w).0
  unfolding execute_docker
  execute_docker-Contains c r w h =
      docker_outcome-Contains c _ r _ (spawn _ (perf_counter (unique w).1).1) _ (
        run_bounded-Runs (spawn _) (capture_bytes_for c.limits.output_limit_chars)
          (perf_counter (unique w).1).1 (unfold capture_bytes_for in ground arith))
