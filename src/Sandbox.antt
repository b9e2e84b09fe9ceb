-- ===== src/Sandbox.antt =====
-- cognitivetree/sandbox/spec.py and cognitivetree/sandbox/process.py: the limits and requests of an
-- execution, and the capture of its output. Bytes are numbers; the decoding of UTF-8 is a
-- parameter.
pub mod Capture
pub mod Bounded
pub mod Backends
pub mod Framing
pub mod Fences
pub mod Grading
pub mod Executors
pub mod Docker
use cognitive_tree_ai.Prelude.{
  ℕ, ◌+◌, ◌-◌, ◌*◌, ◌==◌, Text, strip, Float, FloatOps, zero_f, Bool, true, false, Option, none,
  some, List, [], ◌∷◌, ◌++◌, ◌||◌, ◌&&◌, leb, ltb, length, take, if◌then◌else◌,
}
use cognitive_tree_ai.Faults.{Fault, Result, ok, raise}

pub data ExecutionStatus : Type 0 where
  completed timeout sandbox_error : ExecutionStatus

pub record ResourceLimits : Type 0 where
  pub memory_mb : ℕ
  pub cpus : Float
  pub pids : ℕ
  pub timeout_seconds : Float
  pub output_limit_chars : ℕ

unfoldable pub make_limits : FloatOps → ResourceLimits → Result ResourceLimits
make_limits ops l =
    if ltb l.memory_mb 4
    then raise Fault.value_error
    else if ops.le l.cpus zero_f
    then raise Fault.value_error
    else if ltb l.pids 1
    then raise Fault.value_error
    else if ops.le l.timeout_seconds zero_f
    then raise Fault.value_error
    else if ltb l.output_limit_chars 1
    then raise Fault.value_error
    else ok l

pub record ExecutionRequest : Type 0 where
  pub code : Text
  pub stdin : Text
  pub timeout_seconds : Option Float

no_code : Text → Bool
no_code [] = true
no_code (c ∷ s) = false

not_positive : FloatOps → Option Float → Bool
not_positive ops none = false
not_positive ops (some seconds) = ops.le seconds zero_f

unfoldable pub make_execution : FloatOps → ExecutionRequest → Result ExecutionRequest
unfolding no_code not_positive
make_execution ops r =
    if no_code (strip r.code)
    then raise Fault.value_error
    else if not_positive ops r.timeout_seconds
    then raise Fault.value_error
    else ok r

-- An exit code, which is negative for a payload that a signal killed.
pub data ExitCode : Type 0 where
  exited : ℕ → ExitCode
  signalled : ℕ → ExitCode

pub record ExecutionResult : Type 0 where
  pub status : ExecutionStatus
  pub exit_code : Option ExitCode
  pub stdout : Text
  pub stderr : Text
  pub duration_seconds : Float
  pub truncated : Bool
  pub detail : Text

is_completed : ExecutionStatus → Bool
is_completed ExecutionStatus.completed = true
is_completed _ = false

is_zero : Option ExitCode → Bool
is_zero none = false
is_zero (some (exited code)) = code == 0
is_zero (some (signalled n)) = false

-- `result.ok`
unfoldable pub succeeded : ExecutionResult → Bool
unfolding is_completed is_zero
succeeded r = is_completed r.status && is_zero r.exit_code

unfoldable pub clip_output : Text → ℕ → Text × Bool
clip_output text limit = if leb (length text) limit then (text, false) else (take limit text, true)

unfoldable pub capture_bytes_for : ℕ → ℕ
capture_bytes_for limit_chars = limit_chars * 4

unfoldable pub decode_captured : (List ℕ → Text) → List ℕ → Bool → ℕ → Text × Bool
unfolding clip_output
decode_captured decode captured truncated limit_chars =
    let (text, clipped) = clip_output (decode captured) limit_chars in (text, clipped || truncated)

-- `_BoundedReader`: the chunks that it keeps, and how many bytes they hold.
pub record Reader : Type 0 where
  pub cap : ℕ
  pub chunks : List (List ℕ)
  pub kept : ℕ
  pub truncated : Bool

unfoldable pub new_reader : ℕ → Reader
new_reader cap = record { cap = cap; chunks = []; kept = 0; truncated = false }

keep_chunk : List ℕ → ℕ → Reader → Reader
keep_chunk chunk room s =
    if ltb 0 room
    then record s {
      chunks = s.chunks ++ take room chunk ∷ [];
      kept = s.kept + length (take room chunk);
    }
    else s

-- The body of the loop for one chunk. The difference `cap - kept` is never negative.
pub read_chunk : List ℕ → Reader → Reader
unfolding keep_chunk
read_chunk chunk s =
    let room = s.cap - s.kept in
    let s' = keep_chunk chunk room s in
    record s' { truncated = if ltb room (length chunk) then true else s'.truncated }

-- The loop over the chunks that the pipe yields until it ends or fails.
unfoldable pub drain : List (List ℕ) → Reader → Reader
unfolding read_chunk
drain [] s = s
drain (chunk ∷ rest) s = drain rest (read_chunk chunk s)

-- `b"".join(chunks)`
unfoldable pub join : List (List ℕ) → List ℕ
join [] = []
join (chunk ∷ chunks) = chunk ++ join chunks

-- `reader.data`
unfoldable pub data_of : Reader → List ℕ
unfolding join
data_of s = join s.chunks
