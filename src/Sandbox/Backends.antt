-- ===== src/Sandbox/Backends.antt =====
-- cognitivetree/sandbox/backends.py: the choice of an executor, with its cached probe of the Docker
-- daemon. The globals of the module are a record; the clock, the probe and the build of the image
-- are parameters. A call of `select_executor` is modelled as it runs alone: the source takes no lock
-- around the test and the build of the image, so that calls in several threads may interleave.
use cognitive_tree_ai.Prelude.{
  Text, Float, FloatOps, zero_f, Bool, true, false, Option, none, some, if◌then◌else◌,
}
use cognitive_tree_ai.Faults.{Fault, Result, ok, raise}

record Globals : Type 0 where
  probe_expiry : Float
  probe_result : Bool
  image_ready : Bool
  image_error : Option Text

abbrev fresh : Globals
fresh = record {
  probe_expiry = zero_f;
  probe_result = false;
  image_ready = false;
  image_error = none;
}

-- What `ensure_image` comes to: the image is there, DockerUnavailableError, or another exception.
data Ensured : Type 0 where
  built : Ensured
  unavailable : Text → Ensured
  broken : Fault → Ensured

-- The executor, and for the host executor the reason of its description.
data Executor : Type 0 where
  docker : Executor
  image_unavailable : Executor
  daemon_unreachable : Executor

module _ {W : Type 0} (ops : FloatOps) (ttl : Float) (monotonic : W → Float × W)
    (is_available : W → Bool × W) (ensure_image : W → Ensured × W) where
  -- `docker_available()`
  unfoldable docker_available : Globals × W → Bool × Globals × W
  docker_available (g, w) =
      let (now, w1) = monotonic w in
      let (result, w2) = is_available w1 in
      let (later, w3) = monotonic w2 in
      if ops.lt now g.probe_expiry
      then (g.probe_result, g, w1)
      else (result, record g { probe_result = result; probe_expiry = ops.add later ttl }, w3)

  -- The end of the function: the host executor.
  unfoldable fallback : Globals → Executor
  fallback g = elim g.image_error [ none ↦ daemon_unreachable | some e ↦ image_unavailable ]

  unfoldable after_build : Globals → Ensured × W → Result Executor × Globals × W
  unfolding fallback
  after_build g (built, w) = (ok docker, record g { image_ready = true }, w)
  after_build g (unavailable text, w) =
      let g' = record g { image_error = some text } in (ok (fallback g'), g', w)
  after_build g (broken e, w) = (raise e, g, w)

  unfoldable image_or_build : Bool → Globals → W → Result Executor × Globals × W
  unfolding after_build
  image_or_build true g w = (ok docker, g, w)
  image_or_build false g w = after_build g (ensure_image w)

  unfoldable with_daemon : Bool → Option Text → Globals → W → Result Executor × Globals × W
  unfolding image_or_build fallback
  with_daemon true none g w = image_or_build g.image_ready g w
  with_daemon _ _ g w = (ok (fallback g), g, w)

  -- `select_executor()`
  unfoldable select_executor : Globals × W → Result Executor × Globals × W
  unfolding docker_available with_daemon
  select_executor s =
      let (available, g, w) = docker_available s in with_daemon available g.image_error g w
