-- ===== src/Sandbox/Bounded.antt =====
-- `run_bounded` of cognitivetree/sandbox/process.py. The operating system is a parameter: it runs
-- the command, and it says how the child ended and what its pipes yielded while they were read.
use cognitive_tree_ai.Prelude.{
  ℕ, ◌≤◌, ◌<◌, ◌≡◌, ◌↔◌, refl, sym, subst, Bool, true, false, Option, none, some, List, ltb, take,
  length, length-take_le, if◌then◌else◌,
}
use cognitive_tree_ai.Faults.{Fault, Result, ok, raise}
use cognitive_tree_ai.Sandbox.{ExitCode, new_reader, drain, join, data_of}
use cognitive_tree_ai.Sandbox.Capture.{drain-take}

pub record BoundedRun : Type 0 where
  pub returncode : Option ExitCode
  pub stdout : List ℕ
  pub stderr : List ℕ
  pub stdout_truncated : Bool
  pub stderr_truncated : Bool

-- `run.timed_out`
unfoldable pub timed_out : BoundedRun → Bool
timed_out r = elim r.returncode [ none ↦ true | some code ↦ false ]

-- A child that has ended; without an exit code it was killed at the deadline.
pub record Child : Type 0 where
  pub returncode : Option ExitCode
  pub stdout_chunks : List (List ℕ)
  pub stderr_chunks : List (List ℕ)

unfoldable pub captured : ℕ → Child → BoundedRun
captured capture_bytes child =
    let out = drain child.stdout_chunks (new_reader capture_bytes) in
    let err = drain child.stderr_chunks (new_reader capture_bytes) in
    record {
      returncode = child.returncode;
      stdout = data_of out;
      stderr = data_of err;
      stdout_truncated = out.truncated;
      stderr_truncated = err.truncated;
    }

module _ {W : Type 0} (execute : W → Result Child × W) where
  collect : ℕ → Result Child × W → Result BoundedRun × W
  unfolding captured
  collect capture_bytes (ok child, w) = (ok (captured capture_bytes child), w)
  collect capture_bytes (raise e, w) = (raise e, w)

  unfoldable pub run_bounded : ℕ → W → Result BoundedRun × W
  unfolding collect
  run_bounded capture_bytes w =
      if ltb capture_bytes 1
      then (raise Fault.value_error, w)
      else collect capture_bytes (execute w)

-- A stream that was captured: its first bytes, at most `n` of them, and whether there were more.
abbrev pub Captures : ℕ → List (List ℕ) → List ℕ → Bool → Type 0
Captures n chunks bytes truncated =
    (bytes ≡ take n (join chunks))
    × (length bytes ≤ n)
    × ((truncated ≡ true) ↔ (n < length (join chunks)))

captured-Captures :
    (n : ℕ) (child : Child)
    → Captures n child.stdout_chunks (captured n child).stdout (captured n child).stdout_truncated
      × Captures n child.stderr_chunks (captured n child).stderr (captured n child).stderr_truncated
unfolding captured
captured-Captures n child =
    let out = drain-take n child.stdout_chunks in
    let err = drain-take n child.stderr_chunks in
    (
      (
        out.0,
        subst (λ (bs : List ℕ). length bs ≤ n) (sym out.0)
            (length-take_le n (join child.stdout_chunks)),
        out.1,
      ),
      (
        err.0,
        subst (λ (bs : List ℕ). length bs ≤ n) (sym err.0)
            (length-take_le n (join child.stderr_chunks)),
        err.1,
      ),
    )

-- How a bounded run ends.
abbrev pub Runs : {W : Type 0} → ℕ → Result Child × W → Result BoundedRun × W → Type 0
Runs n (ok child, w) (ok r, w') =
    (r.returncode ≡ child.returncode)
    × Captures n child.stdout_chunks r.stdout r.stdout_truncated
    × Captures n child.stderr_chunks r.stderr r.stderr_truncated
Runs n (ok child, w) (raise e, w') = ⊥
Runs n (raise e, w) (ok r, w') = ⊥
Runs n (raise e, w) (raise e', w') = e' ≡ e

-- With a cap of at least one byte, `run_bounded` returns if the child could be run, and raises the
-- fault of the operating system if not. It hands on the exit code, and of each stream exactly the
-- first bytes up to the cap, with a mark that tells whether there were more.
pub run_bounded-Runs :
    {W : Type 0} (execute : W → Result Child × W) (n : ℕ) (w : W)
    → ltb n 1 ≡ false
    → Runs n (execute w) (run_bounded execute n w)
unfolding run_bounded collect
run_bounded-Runs {W = W} execute n w h = rw (h, run_bounded) (collected (execute w))
  where
    collected : (x : Result Child × W) → Runs n x (collect execute n x)
    collected (ok child, v) = let both = captured-Captures n child in (refl, both.0, both.1)
    collected (raise e, v) = refl
