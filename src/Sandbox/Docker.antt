-- ===== src/Sandbox/Docker.antt =====
-- cognitivetree/sandbox/docker_executor.py: the executor that runs each payload in a container of
-- its own, and the image behind it. What the Docker command line answers is a parameter, as are the
-- clock, the codec, the identifiers, `str.lower` and the printing of floats.
pub mod Contained
use cognitive_tree_ai.Prelude.{
  ℕ, suc, ◌==◌, Text, codes, text_eq, strip, Float, FloatOps, zero_f, Bool, true, false, Option,
  none, some, List, [], ◌∷◌, ◌++◌, ◌||◌, ◌&&◌, ltb, leb, take, drop, length, ◌-◌, if◌then◌else◌,
}
use cognitive_tree_ai.Faults.{Fault, Result, ok, raise}
use cognitive_tree_ai.Sandbox.{
  ExecutionStatus, ResourceLimits, ExecutionRequest, ExecutionResult, ExitCode, exited, signalled,
  capture_bytes_for, decode_captured,
}
use cognitive_tree_ai.Sandbox.Bounded.{Child, BoundedRun, run_bounded}
use cognitive_tree_ai.Sandbox.Framing.{frame_payload, digits}
use cognitive_tree_ai.Sandbox.Executors.{Process, timeout_of}

pub record DockerConfig : Type 0 where
  pub image : Text
  pub docker_binary : Text
  pub limits : ResourceLimits
  pub tmpfs_mb : ℕ
  pub kill_grace_seconds : Float

-- `DockerSandboxConfig(...)`
unfoldable pub make_docker_config : FloatOps → DockerConfig → Result DockerConfig
make_docker_config ops c =
    if ltb c.tmpfs_mb 1
    then raise Fault.value_error
    else if ops.le c.kill_grace_seconds zero_f
    then raise Fault.value_error
    else ok c

-- What `subprocess.run` comes to: the command ended, or it could not be run or took too long.
pub data Called : Type 0 where
  ended : ExitCode → (stdout stderr : Text) → Called
  os_error : Text → Called
  timeout_expired : Called

unfoldable pub is_success : ExitCode → Bool
is_success (exited n) = n == 0
is_success (signalled n) = false

starts_with : Text → Text → Bool
starts_with [] s = true
starts_with (c ∷ p) [] = false
starts_with (c ∷ p) (d ∷ s) = (c == d) && starts_with p s

-- `p in s`
unfoldable pub occurs : Text → Text → Bool
unfolding starts_with
occurs p [] = starts_with p []
occurs p (c ∷ s) = starts_with p (c ∷ s) || occurs p s

any_occurs : List Text → Text → Bool
any_occurs [] s = false
any_occurs (p ∷ ps) s = occurs p s || any_occurs ps s

code_is : ℕ → ExitCode → Bool
code_is n (exited m) = m == n
code_is n (signalled m) = false

-- `returncode >= 125`
code_from_125 : ExitCode → Bool
code_from_125 (exited n) = leb 125 n
code_from_125 (signalled n) = false

module _ (lower : Text → Text) where
  -- `_is_cli_fault(returncode, stderr)`
  unfoldable pub is_cli_fault : ExitCode → Text → Bool
  unfolding any_occurs occurs code_is
  is_cli_fault code stderr =
      let lowered = lower stderr in
      let cli_fault =
        code_is 125 code
        && any_occurs
            (codes "docker:"
              ∷ codes "error during connect"
              ∷ codes "no such image"
              ∷ codes "unable to find image"
              ∷ [])
            lowered in
      let exec_fault = (code_is 126 code || code_is 127 code) && occurs (codes "docker") lowered in
      cli_fault || exec_fault

-- `text[-n:]`
unfoldable pub last : ℕ → Text → Text
last n t = drop (length t - n) t

module _ {W : Type 0} (lower : Text → Text) (call : List Text → ℕ → W → Called × W) where
  -- `DockerSandboxExecutor.is_available()`, with the timeout in seconds.
  unfoldable pub is_available : Text → ℕ → W → Bool × W
  unfolding is_success
  is_available docker_binary timeout w =
      let (answer, w') =
        call (docker_binary ∷ codes "info" ∷ codes "--format" ∷ codes "{{.OSType}}" ∷ []) timeout
          w in
      (linux answer, w')
    where
      linux : Called → Bool
      linux (ended code stdout stderr) =
          is_success code && text_eq (lower (strip stdout)) (codes "linux")
      linux (os_error text) = false
      linux timeout_expired = false

  -- `_force_remove(name)`, whatever comes of it.
  unfoldable pub force_remove : Text → Text → W → W
  force_remove docker_binary name w =
      (call (docker_binary ∷ codes "rm" ∷ codes "-f" ∷ name ∷ []) 30 w).1

  fault_called : Called → Fault
  fault_called (os_error text) = Fault.raised text
  fault_called _ = Fault.raised (codes "timeout expired")

  unfoldable pub build_answer : Called → Result Bool
  unfolding is_success last fault_called
  build_answer (ended code stdout stderr) =
      if is_success code
      then ok true
      else raise (Fault.raised (codes "sandbox image build failed: " ++ last 500 (strip stderr)))
  build_answer answer = raise (fault_called answer)

  build_image : DockerConfig → Text → ℕ → W → Result Bool × W
  unfolding build_answer
  build_image c context build_timeout w =
      let (answer, w') =
        call (c.docker_binary ∷ codes "build" ∷ codes "--tag" ∷ c.image ∷ context ∷ [])
          build_timeout w in
      (build_answer answer, w')

  inspected : DockerConfig → Bool → Text → ℕ → Called × W → Result Bool × W
  unfolding build_image is_success fault_called
  inspected c build_if_missing context build_timeout (ended code stdout stderr, w) =
      if is_success code
      then (ok true, w)
      else if build_if_missing
      then build_image c context build_timeout w
      else (ok false, w)
  inspected c build_if_missing context build_timeout (answer, w) = (raise (fault_called answer), w)

  -- `ensure_image(config, build_if_missing, build_timeout)`; `context` is the folder of the image.
  unfoldable pub ensure_image : DockerConfig → Bool → Text → ℕ → W → Result Bool × W
  unfolding inspected
  ensure_image c build_if_missing context build_timeout w =
      inspected c build_if_missing context build_timeout
        (call (c.docker_binary ∷ codes "image" ∷ codes "inspect" ∷ c.image ∷ []) 30 w)

module _ {W : Type 0} (ops : FloatOps) (encode : Text → List ℕ) (decode : List ℕ → Text)
    (lower : Text → Text) (show_float show_seconds : Float → Text) (bootstrap : Text)
    (perf_counter : W → Float × W) (unique : W → Text × W) (is_missing : Text → Bool)
    (call : List Text → ℕ → W → Called × W) (spawn : Process → W → Result Child × W) where
  -- `_build_command(name, request)`
  unfoldable pub build_command : DockerConfig → Text → List Text
  build_command c name =
      c.docker_binary
      ∷ codes "run"
      ∷ codes "--rm"
      ∷ codes "--interactive"
      ∷ codes "--name"
      ∷ name
      ∷ codes "--network"
      ∷ codes "none"
      ∷ codes "--memory"
      ∷ (digits c.limits.memory_mb ++ codes "m")
      ∷ codes "--memory-swap"
      ∷ (digits c.limits.memory_mb ++ codes "m")
      ∷ codes "--cpus"
      ∷ show_float c.limits.cpus
      ∷ codes "--pids-limit"
      ∷ digits c.limits.pids
      ∷ codes "--read-only"
      ∷ codes "--tmpfs"
      ∷ (codes "/tmp:rw,size=" ++ (digits c.tmpfs_mb ++ codes "m"))
      ∷ codes "--cap-drop"
      ∷ codes "ALL"
      ∷ codes "--security-opt"
      ∷ codes "no-new-privileges"
      ∷ codes "--user"
      ∷ codes "65534:65534"
      ∷ codes "--workdir"
      ∷ codes "/tmp"
      ∷ codes "--env"
      ∷ codes "PYTHONUNBUFFERED=1"
      ∷ c.image
      ∷ codes "python"
      ∷ codes "-I"
      ∷ codes "-c"
      ∷ bootstrap
      ∷ []

  unfoldable pub docker_process : DockerConfig → Text → ExecutionRequest → Process
  unfolding build_command timeout_of
  docker_process c name r = record {
    command = build_command c name;
    stdin = frame_payload encode r.code r.stdin;
    timeout = ops.add (timeout_of ops r c.limits) c.kill_grace_seconds;
  }

  -- The status and the detail of a run, by its exit code and its error output.
  unfoldable pub docker_status :
      DockerConfig → ExecutionRequest → Option ExitCode → Text → ExecutionStatus × Text
  unfolding is_cli_fault code_from_125 timeout_of
  docker_status c r none stderr = (
    ExecutionStatus.timeout,
    codes "payload exceeded "
        ++ (show_seconds (timeout_of ops r c.limits) ++ codes "s deadline; container removed"),
  )
  docker_status c r (some code) stderr =
      if code_from_125 code && is_cli_fault lower code stderr
      then (ExecutionStatus.sandbox_error, codes "docker CLI reported an infrastructure fault")
      else (ExecutionStatus.completed, [])

  unfoldable pub docker_result :
      DockerConfig → ExecutionRequest → Float → BoundedRun → ExecutionResult
  unfolding docker_status
  docker_result c r duration run =
      let limit = c.limits.output_limit_chars in
      let (stdout, out_dropped) = decode_captured decode run.stdout run.stdout_truncated limit in
      let (stderr, err_dropped) = decode_captured decode run.stderr run.stderr_truncated limit in
      let (status, detail) = docker_status c r run.returncode stderr in
      record {
        status = status;
        exit_code = run.returncode;
        stdout = stdout;
        stderr = stderr;
        duration_seconds = duration;
        truncated = out_dropped || err_dropped;
        detail = detail;
      }

  -- A container whose client was killed is still there, and is removed.
  unfoldable pub clean_up : DockerConfig → Text → Option ExitCode → W → W
  unfolding force_remove
  clean_up c name none w = force_remove lower call c.docker_binary name w
  clean_up c name (some code) w = w

  -- `except FileNotFoundError`
  unfoldable pub docker_fault : DockerConfig → Fault → Fault
  docker_fault c (Fault.raised text) =
      if is_missing text
      then Fault.sandbox_error (codes "docker binary '" ++ (c.docker_binary ++ codes "' not found"))
      else Fault.raised text
  docker_fault c e = e

  unfoldable pub docker_outcome :
      DockerConfig
      → Text
      → ExecutionRequest
      → Float
      → Result BoundedRun × W
      → Result ExecutionResult × W
  unfolding docker_result docker_fault clean_up
  docker_outcome c name r started (raise e, w) = (raise (docker_fault c e), w)
  docker_outcome c name r started (ok run, w) =
      let (now, w') = perf_counter w in
      (ok (docker_result c r (ops.sub now started) run), clean_up c name run.returncode w')

  -- `DockerSandboxExecutor.execute(request)`
  unfoldable pub execute_docker : DockerConfig → ExecutionRequest → W → Result ExecutionResult × W
  unfolding docker_outcome docker_process
  execute_docker c r w =
      let (id, w1) = unique w in
      let name = codes "ctree-sbx-" ++ id in
      let (started, w2) = perf_counter w1 in
      docker_outcome c name r started (
        run_bounded (spawn (docker_process c name r))
          (capture_bytes_for c.limits.output_limit_chars) w2)
