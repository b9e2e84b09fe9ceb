-- ===== src/Search/Kept.antt =====
-- Relations between the states of a run that works at a node, which the statements of
-- cognitivetree/search.py keep, if the transitions, the calls of the policies and the changes of the
-- tree do.
use cognitive_tree_ai.Prelude.{
  ℕ, zero, suc, ◌+◌, Float, Text, Bool, true, false, Option, none, some, List, [], ◌∷◌, inl, inr,
}
use cognitive_tree_ai.Phases.{Phase}
use cognitive_tree_ai.Faults.{Note, Fault, Result, Result-cases, ok, raise}
use cognitive_tree_ai.State.{is_terminal}
use cognitive_tree_ai.Node.{Ref}
use cognitive_tree_ai.Config.{SearchConfig}
use cognitive_tree_ai.Policies.{Policies}
use cognitive_tree_ai.Exec.{Run, Exec, pure, world_call, policy_call, ◌>>=◌}
use cognitive_tree_ai.Exec.Calm.{OnSome}
use cognitive_tree_ai.Exec.Keeps.{Keeps, IsPreorder, Keeps-bind}
use cognitive_tree_ai.Selection.{prune, select}
use cognitive_tree_ai.Expansion.{expand}
use cognitive_tree_ai.Evaluation.{evaluate}
use cognitive_tree_ai.Search.{
  advance, is_cancelled, is_late, stop_reason, halt, on_reason, on_late, on_cancelled, boundary,
  advance_node, count_iteration, announce, dead_end, succeed, conclude, propagate, rescue, guarded,
  close_if, close, report, outcome_by_phase, run_from, deadline_of, score_batch, grow, work_on,
  iteration, attempt, proceed, loop, deadline_from,
}

-- `R r` relates the states of a run that works at the node `r`; between two rounds it works at the
-- root.
pub record Driven {W : Type 0} (R : Ref → Run W → Run W → Type 0) (p : Policies W)
    (cfg : SearchConfig) : Type 0 where
  pub order : (r : Ref) → IsPreorder (R r)
  pub advance :
      (r : Ref) (target : Phase) (id : Option Text) (d : Note) → Keeps (R r) (advance p target id d)
  pub count : (r : Ref) (s : Run W) (n : ℕ) → R r s (record s { iteration = n })
  pub monotonic : (r : Ref) (s : Run W) → R r s (record s { world = (p.monotonic s.world).1 })
  pub check :
      (r : Ref) → OnSome (λ f. (s : Run W) → R r s (record s { world = (f s.world).1 })) p.check
  pub cancelled :
      (r : Ref) → OnSome (λ f. (s : Run W) → R r s (record s { world = (f s.world).1 })) p.cancelled
  pub prune : (r : Ref) → Keeps (R r) (prune r)
  pub propagate : (r : Ref) (valued : List (Ref × Float)) → Keeps (R r) (propagate p valued)
  pub evaluate : (r : Ref) (children : List Ref) → Keeps (R r) (evaluate p cfg children)
  pub expand : (r : Ref) → Keeps (R r) (expand p cfg r)
  pub select_then :
      (f : Option Ref × List Text → Exec W Bool)
      → ((revived : List Text) → Keeps (R 0) (f (none, revived)))
      → ((r : Ref) (revived : List Text) → Keeps (R r) (f (some r, revived)))
      → Keeps (R 0) (select p cfg >>= f)

module _ {W : Type 0} (R : Ref → Run W → Run W → Type 0) (p : Policies W) (cfg : SearchConfig)
    (driven : Driven R p cfg) where
  module _ (x : Ref) where
    abbrev then_more :
        {A B : Type 0} (m : Exec W A) (f : A → Exec W B)
        → Keeps (R x) m
        → ((a : A) → Keeps (R x) (f a))
        → Keeps (R x) (m >>= f)
    then_more m f = Keeps-bind (R x) (driven.order x) m f

    pure-Keeps : {A : Type 0} (a : A) → Keeps (R x) (pure {W = W} a)
    unfolding pure
    pure-Keeps a = record { at = (driven.order x).reflexive }

    is_cancelled-Keeps : Keeps (R x) (is_cancelled p)
    unfolding is_cancelled world_call
    is_cancelled-Keeps = of p.cancelled (driven.cancelled x)
      where
        of :
            (o : Option (W → Bool × W))
            → OnSome (λ f. (s : Run W) → R x s (record s { world = (f s.world).1 })) o
            → Keeps (R x) (elim o [ none ↦ pure false | some f ↦ world_call f ])
        of none h = pure-Keeps false
        of (some f) h = record { at = h }

    stop_reason-Keeps : Keeps (R x) (stop_reason p)
    unfolding stop_reason policy_call
    stop_reason-Keeps = of p.check (driven.check x)
      where
        of :
            (o : Option (W → Result (Option Text) × W))
            → OnSome (λ f. (s : Run W) → R x s (record s { world = (f s.world).1 })) o
            → Keeps (R x) (elim o [ none ↦ pure {A = Option Text} none | some f ↦ policy_call f ])
        of none h = pure-Keeps none
        of (some f) h = record { at = h }

    is_late-Keeps : (o : Option Float) → Keeps (R x) (is_late p o)
    unfolding is_late
    is_late-Keeps none = record { at = (driven.order x).reflexive }
    is_late-Keeps (some limit) = record { at = driven.monotonic x }

    halt-Keeps : (target : Phase) (d : Note) → Keeps (R x) (halt p target d)
    unfolding halt
    halt-Keeps target d = then_more _ _ (driven.advance x target none d) λ _. pure-Keeps false

    on_reason-Keeps : (o : Option Text) → Keeps (R x) (on_reason p o)
    unfolding on_reason
    on_reason-Keeps none = pure-Keeps true
    on_reason-Keeps (some []) = pure-Keeps true
    on_reason-Keeps (some (c ∷ text)) = halt-Keeps _ _

    on_late-Keeps : (l : Float) (late : Bool) → Keeps (R x) (on_late p l late)
    unfolding on_late
    on_late-Keeps l true = halt-Keeps _ _
    on_late-Keeps l false = then_more _ _ stop_reason-Keeps on_reason-Keeps

    on_cancelled-Keeps :
        (o : Option Float) (l : Float) (cancelled : Bool)
        → Keeps (R x) (on_cancelled p o l cancelled)
    unfolding on_cancelled
    on_cancelled-Keeps o l true = halt-Keeps _ _
    on_cancelled-Keeps o l false = then_more _ _ (is_late-Keeps o) (on_late-Keeps l)

    boundary-Keeps : (o : Option Float) (l : Float) → Keeps (R x) (boundary p o l)
    unfolding boundary
    boundary-Keeps o l = then_more _ _ is_cancelled-Keeps (on_cancelled-Keeps o l)

    advance_node-Keeps :
        (target : Phase) (r : Ref) (d : Note) → Keeps (R x) (advance_node p target r d)
    unfolding advance_node
    advance_node-Keeps target r d = record {
      at = λ s. (driven.advance x target (some (s.tree.cell r).id) d).at s;
    }

    count_iteration-Keeps : Keeps (R x) (count_iteration p)
    unfolding count_iteration
    count_iteration-Keeps = record { at = λ s. driven.count x s (s.iteration + 1) }

    announce-Keeps : (r : Ref) (revived : List Text) → Keeps (R x) (announce p r revived)
    unfolding announce
    announce-Keeps r [] = pure-Keeps tt
    announce-Keeps r (id ∷ ids) =
        then_more _ _ (advance_node-Keeps _ r _)
          λ _. then_more _ _ (advance_node-Keeps _ r _) λ _. pure-Keeps tt

    succeed-Keeps : (c : Ref) → Keeps (R x) (succeed p c)
    unfolding succeed
    succeed-Keeps c = record {
      at = λ s. (advance_node-Keeps Phase.succeeded c (Note.accepted (s.tree.cell c).score)).at s;
    }

    conclude-Keeps : (o : Option Ref) → Keeps (R x) (conclude p o)
    unfolding conclude
    conclude-Keeps (some c) = then_more _ _ (succeed-Keeps c) λ _. pure-Keeps false
    conclude-Keeps none = then_more _ _ (driven.advance x _ none _) λ _. pure-Keeps true

    rescue-Keeps : (r : Result (Unit {0})) → Keeps (R x) (rescue p r)
    unfolding rescue
    rescue-Keeps (ok u) = record { at = (driven.order x).reflexive }
    rescue-Keeps (raise e) = record {
      at = λ s.
          (then_more _ _ (driven.advance x Phase.failed none (Note.fault e))
              λ _. pure-Keeps (some e)).at
            s;
    }

    guarded-Keeps : (body : Exec W (Unit {0})) → Keeps (R x) body → Keeps (R x) (guarded p body)
    unfolding guarded
    guarded-Keeps body k = record {
      at = λ s.
          (driven.order x).transitive s (body s).1 _ (k.at s)
            ((rescue-Keeps (body s).0).at (body s).1);
    }

    close_if-Keeps : (b : Bool) → Keeps (R x) (close_if p b)
    unfolding close_if
    close_if-Keeps true = pure-Keeps tt
    close_if-Keeps false = driven.advance x _ none _

    close-Keeps : Keeps (R x) (close p)
    unfolding close
    close-Keeps = record { at = λ s. (close_if-Keeps (is_terminal s.machine)).at s }

    dead_end-Keeps : Keeps (R x) (dead_end p x)
    unfolding dead_end
    dead_end-Keeps = then_more _ _ (advance_node-Keeps _ x _) λ _.
        then_more _ _ (driven.prune x)
          λ _. then_more _ _ (driven.advance x _ none _) λ _. pure-Keeps true

    score_batch-Keeps : (children : List Ref) → Keeps (R x) (score_batch p cfg x children)
    unfolding score_batch
    score_batch-Keeps children = then_more _ _ (advance_node-Keeps _ x _) λ _.
        then_more _ _ (driven.evaluate x children) λ result.
          then_more _ _ (advance_node-Keeps _ x _)
            λ _. then_more _ _ (driven.propagate x result.1) λ _. conclude-Keeps result.0

    grow-Keeps : (children : List Ref) → Keeps (R x) (grow p cfg x children)
    unfolding grow
    grow-Keeps [] = dead_end-Keeps
    grow-Keeps (c ∷ cs) = score_batch-Keeps (c ∷ cs)

    work_on-Keeps : (revived : List Text) → Keeps (R x) (work_on p cfg (some x) revived)
    unfolding work_on
    work_on-Keeps revived = then_more _ _ (announce-Keeps x revived) λ _.
        then_more _ _ (advance_node-Keeps _ x _) λ _. then_more _ _ (driven.expand x) grow-Keeps

  nothing_left : (revived : List Text) → Keeps (R 0) (work_on p cfg none revived)
  unfolding work_on
  nothing_left revived = then_more 0 _ _ (driven.advance 0 _ none _) λ _. pure-Keeps 0 false

  iteration-Keeps : Keeps (R 0) (iteration p cfg)
  unfolding iteration
  iteration-Keeps =
      then_more 0 _ _ (count_iteration-Keeps 0) λ _. driven.select_then _ nothing_left work_on-Keeps

  attempt-Keeps : (b : Bool) → Keeps (R 0) (attempt p cfg b)
  unfolding attempt
  attempt-Keeps true = iteration-Keeps
  attempt-Keeps false = pure-Keeps 0 false

  proceed-Keeps :
      (rest : Exec W (Unit {0})) (b : Bool) → Keeps (R 0) rest → Keeps (R 0) (proceed p cfg rest b)
  unfolding proceed
  proceed-Keeps rest true k = k
  proceed-Keeps rest false k = pure-Keeps 0 tt

  loop-Keeps : (n : ℕ) (o : Option Float) (l : Float) → Keeps (R 0) (loop p cfg n o l)
  unfolding loop
  loop-Keeps zero o l = record { at = (driven.order 0).reflexive }
  loop-Keeps (suc n) o l = record {
    at = λ s.
        (then_more 0 _ _ (boundary-Keeps 0 o l) λ go.
            then_more 0 _ _ (attempt-Keeps go)
              λ again. proceed-Keeps (loop p cfg n o l) again (loop-Keeps n o l)).at
          s;
  }

  deadline_from-Keeps : (o : Option Float) → Keeps (R 0) (deadline_from p cfg o)
  unfolding deadline_from
  deadline_from-Keeps none = record { at = (driven.order 0).reflexive }
  deadline_from-Keeps (some x) = record { at = driven.monotonic 0 }

  report-Keeps : (o : Option Fault) → Keeps (R 0) (report p o)
  unfolding report
  report-Keeps o = record {
    at = λ s. elim (Result-cases (outcome_by_phase s.machine.phase)) [
      | inl (outcome, e) ↦ rw (e, report) ((driven.order 0).reflexive s)
      | inr (x, e) ↦ rw (e, report) ((driven.order 0).reflexive s)
    ];
  }

  -- A whole run.
  pub run_from-Keeps : Keeps (R 0) (run_from p cfg)
  unfolding run_from deadline_of
  run_from-Keeps = then_more 0 _ _ (deadline_from-Keeps cfg.max_wall_seconds) λ deadline.
      then_more 0 _ _ (driven.advance 0 _ none _) λ _.
        then_more 0 _ _ (guarded-Keeps 0 _ (loop-Keeps cfg.max_iterations deadline _))
          λ error. then_more 0 _ _ (close-Keeps 0) λ _. report-Keeps error
