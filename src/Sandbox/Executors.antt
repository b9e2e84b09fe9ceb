-- ===== src/Sandbox/Executors.antt =====
-- cognitivetree/sandbox/subprocess_executor.py and the contract of cognitivetree/sandbox/executor.py:
-- what an executor promises of its results, and the executor that runs a payload as a child of the
-- host. The processes, the clock, the UTF-8 codec and the printing of floats are parameters; an
-- OSError of a process is the fault `raised`. `BOOTSTRAP` is the text `bootstrap`.
use cognitive_tree_ai.Prelude.{
  ℕ, suc, ◌≤◌, ◌==◌, ◌≡◌, ◌↔◌, refl, Text, codes, Float, FloatOps, zero_f, Bool, true, false, none,
  some, List, [], ◌∷◌, ◌++◌, ◌||◌, ◌&&◌, length, length-take_le, if◌then◌else◌, arith, inl, inr,
  Option-cases, ◌<◌, ◌∙◌,
}
use cognitive_tree_ai.Faults.{Fault, Result, ok, raise}
use cognitive_tree_ai.Sandbox.{
  ExecutionStatus, ResourceLimits, ExecutionRequest, ExecutionResult, clip_output,
  capture_bytes_for, decode_captured,
}
use cognitive_tree_ai.Sandbox.Bounded.{Child, BoundedRun, run_bounded, Runs, run_bounded-Runs}
use cognitive_tree_ai.Sandbox.Framing.{frame_payload}

-- A call of `run_bounded`: the command, its input and the deadline.
pub record Process : Type 0 where
  pub command : List Text
  pub stdin : List ℕ
  pub timeout : Float

-- `request.timeout_seconds or limits.timeout_seconds`
unfoldable pub timeout_of : FloatOps → ExecutionRequest → ResourceLimits → Float
timeout_of ops r limits = elim r.timeout_seconds [
  | none ↦ limits.timeout_seconds
  | some seconds ↦ if ops.eq seconds zero_f then limits.timeout_seconds else seconds
]

-- `text.replace("\r\n", "\n")`; the flag says that a carriage return is held back.
newlines_from : Bool → Text → Text
newlines_from held [] = if held then 13 ∷ [] else []
newlines_from held (c ∷ s) =
    let hold = newlines_from true s in
    let pass = c ∷ newlines_from false s in
    if c == 13
    then (if held then 13 ∷ hold else hold)
    else if held && not_newline c
    then 13 ∷ pass
    else pass
  where
    not_newline : ℕ → Bool
    not_newline d = if d == 10 then false else true

unfoldable pub newlines : Text → Text
unfolding newlines_from
newlines text = newlines_from false text

-- What an executor promises of a result: the output is bounded, and only an execution that ran out
-- of time has no exit code.
pub record Conforms (limit : ℕ) (r : ExecutionResult) : Type 0 where
  pub stdout : length r.stdout ≤ limit
  pub stderr : length r.stderr ≤ limit
  pub timed : (r.exit_code ≡ none) ↔ (r.status ≡ ExecutionStatus.timeout)

module _ {W : Type 0} (ops : FloatOps) (encode : Text → List ℕ) (decode : List ℕ → Text)
    (show_seconds : Float → Text) (bootstrap : Text) (perf_counter : W → Float × W)
    (spawn : Process → W → Result Child × W) where
  -- The command line of the child.
  unfoldable pub command_of : Text → List Text
  command_of python = python ∷ codes "-X" ∷ codes "utf8" ∷ codes "-I" ∷ codes "-c" ∷ bootstrap ∷ []

  unfoldable pub host_process : Text → ResourceLimits → ExecutionRequest → Process
  unfolding command_of timeout_of
  host_process python limits r = record {
    command = command_of python;
    stdin = frame_payload encode r.code r.stdin;
    timeout = timeout_of ops r limits;
  }

  -- The result of a run that ended or was killed.
  unfoldable pub host_result :
      ResourceLimits → ExecutionRequest → Float → BoundedRun → ExecutionResult
  unfolding newlines timeout_of
  host_result limits r duration run =
      let (stdout, out_dropped) =
        decode_captured decode run.stdout run.stdout_truncated limits.output_limit_chars in
      let (stderr, err_dropped) =
        decode_captured decode run.stderr run.stderr_truncated limits.output_limit_chars in
      elim run.returncode [
        | none ↦ record {
          status = ExecutionStatus.timeout;
          exit_code = none;
          stdout = newlines stdout;
          stderr = newlines stderr;
          duration_seconds = duration;
          truncated = out_dropped || err_dropped;
          detail =
              codes "payload exceeded "
              ++ (show_seconds (timeout_of ops r limits) ++ codes "s deadline");
        }
        | some code ↦ record {
          status = ExecutionStatus.completed;
          exit_code = some code;
          stdout = newlines stdout;
          stderr = newlines stderr;
          duration_seconds = duration;
          truncated = out_dropped || err_dropped;
          detail = [];
        }
      ]

  -- `except OSError`: the fault becomes a SandboxError.
  unfoldable pub spawn_fault : Fault → Fault
  spawn_fault (Fault.raised text) =
      Fault.sandbox_error (codes "failed to spawn interpreter: " ++ text)
  spawn_fault e = e

  unfoldable pub host_outcome :
      ResourceLimits → ExecutionRequest → Float → Result BoundedRun × W → Result ExecutionResult × W
  unfolding host_result spawn_fault
  host_outcome limits r started (raise e, w) = (raise (spawn_fault e), w)
  host_outcome limits r started (ok run, w) =
      let (now, w') = perf_counter w in (ok (host_result limits r (ops.sub now started) run), w')

  -- `SubprocessExecutor.execute(request)`
  unfoldable pub execute_host :
      Text → ResourceLimits → ExecutionRequest → W → Result ExecutionResult × W
  unfolding host_outcome host_process
  execute_host python limits r w =
      let (started, w1) = perf_counter w in
      host_outcome limits r started (
        run_bounded (spawn (host_process python limits r))
          (capture_bytes_for limits.output_limit_chars) w1)

length-newlines_from_le :
    (held : Bool) (s : Text)
    → length (newlines_from held s) ≤ (if held then suc (length s) else length s)
unfolding newlines_from
length-newlines_from_le true [] = omega arith
length-newlines_from_le false [] = omega arith
length-newlines_from_le true (c ∷ s) =
    ground (arith, length-newlines_from_le true s, length-newlines_from_le false s)
length-newlines_from_le false (c ∷ s) =
    ground (arith, length-newlines_from_le true s, length-newlines_from_le false s)

pub length-newlines_le : (s : Text) → length (newlines s) ≤ length s
unfolding newlines
length-newlines_le s = length-newlines_from_le false s

pub length-decode_captured_le :
    (decode : List ℕ → Text) (bytes : List ℕ) (b : Bool) (limit : ℕ)
    → length (decode_captured decode bytes b limit).0 ≤ limit
unfolding decode_captured clip_output
length-decode_captured_le decode bytes b limit = ground (arith, length-take_le limit (decode bytes))

module _ {W : Type 0} (ops : FloatOps) (encode : Text → List ℕ) (decode : List ℕ → Text)
    (show_seconds : Float → Text) (bootstrap : Text) (perf_counter : W → Float × W)
    (spawn : Process → W → Result Child × W) where
  host_result-Conforms :
      (limits : ResourceLimits) (r : ExecutionRequest) (d : Float) (run : BoundedRun)
      → Conforms limits.output_limit_chars
          (host_result ops encode decode show_seconds bootstrap perf_counter spawn limits r d run)
        × ((host_result ops encode decode show_seconds bootstrap perf_counter spawn limits r d
              run).exit_code
            ≡ run.returncode)
  unfolding host_result
  host_result-Conforms limits r d run =
      let out =
        length-decode_captured_le decode run.stdout run.stdout_truncated
          limits.output_limit_chars in
      let err =
        length-decode_captured_le decode run.stderr run.stderr_truncated
          limits.output_limit_chars in
      let out' =
        length-newlines_le
          (decode_captured decode run.stdout run.stdout_truncated limits.output_limit_chars).0 in
      let err' =
        length-newlines_le
          (decode_captured decode run.stderr run.stderr_truncated limits.output_limit_chars).0 in
      elim (Option-cases run.returncode) [
        | inl e ↦
            rw (e, host_result)
              (
                record {
                  stdout = omega (arith, out, out');
                  stderr = omega (arith, err, err');
                  timed = (λ q. refl, λ q. refl);
                },
                refl,
              )
        | inr (c, e) ↦
            rw (e, host_result)
              (
                record {
                  stdout = omega (arith, out, out');
                  stderr = omega (arith, err, err');
                  timed = (λ q. absurd (cc), λ q. absurd (cc));
                },
                refl,
              )
      ]

  -- What the operating system's answer makes of an execution.
  abbrev pub Executed : ℕ → Result Child → Result ExecutionResult → Type 0
  Executed limit (raise (Fault.raised text)) x =
      x ≡ raise (Fault.sandbox_error (codes "failed to spawn interpreter: " ++ text))
  Executed limit (raise e) x = x ≡ raise e
  Executed limit (ok child) (ok r) = Conforms limit r × (r.exit_code ≡ child.returncode)
  Executed limit (ok child) (raise e) = ⊥

  spawn_fault-Executed :
      (limit : ℕ) (e : Fault)
      → Executed limit
          (raise e)
          (raise (spawn_fault ops encode decode show_seconds bootstrap perf_counter spawn e))
  unfolding spawn_fault
  spawn_fault-Executed limit (Fault.raised text) = refl
  spawn_fault-Executed limit _ = refl

  host_outcome-Executed :
      (limits : ResourceLimits) (r : ExecutionRequest) (started : Float) (x : Result Child × W)
      (y : Result BoundedRun × W)
      → Runs (capture_bytes_for limits.output_limit_chars) x y
      → Executed limits.output_limit_chars x.0
          (host_outcome ops encode decode show_seconds bootstrap perf_counter spawn limits r started
            y).0
  unfolding host_outcome
  host_outcome-Executed limits r started (ok child, v) (ok run, w) h =
      let (conforms, code) = host_result-Conforms limits r _ run in (conforms, code ∙ h.0)
  host_outcome-Executed limits r started (ok child, v) (raise e, w) h = absurd h
  host_outcome-Executed limits r started (raise e, v) (ok run, w) h = absurd h
  host_outcome-Executed limits r started (raise e, v) (raise e', w) h =
      rw h (spawn_fault-Executed limits.output_limit_chars e)

  -- With an output limit of at least one character, the host executor returns a result exactly if
  -- the child could be run, with its exit code. The result has at most that many characters of
  -- either stream, and no exit code exactly if the execution timed out. An OSError of the child is
  -- raised as a SandboxError that tells its text, and any other exception as it is.
  pub execute_host-Executed :
      (python : Text) (limits : ResourceLimits) (r : ExecutionRequest) (w : W)
      → 0 < limits.output_limit_chars
      → Executed limits.output_limit_chars
          (spawn
            (host_process ops encode decode show_seconds bootstrap perf_counter spawn python limits
              r)
            (perf_counter w).1).0
          (execute_host ops encode decode show_seconds bootstrap perf_counter spawn python limits r
            w).0
  unfolding execute_host
  execute_host-Executed python limits r w h =
      host_outcome-Executed limits r _ (spawn _ (perf_counter w).1) _ (
        run_bounded-Runs (spawn _) (capture_bytes_for limits.output_limit_chars) (perf_counter w).1
          (unfold capture_bytes_for in ground arith))
