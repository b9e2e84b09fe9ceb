-- ===== src/Search/Iterations.antt =====
-- Each part of an iteration lands in the phase that the loop expects, whatever the policies do.
use cognitive_tree_ai.Prelude.{
  ℕ, ◌+◌, ◌≡◌, refl, ap, Text, Float, Bool, true, false, Option, none, some, List, [], ◌∷◌,
}
use cognitive_tree_ai.Phases.{Phase, contains}
use cognitive_tree_ai.Faults.{Note, Result, ok, raise}
use cognitive_tree_ai.State.Graph.{Edge, InProgress}
use cognitive_tree_ai.Node.{Ref}
use cognitive_tree_ai.Config.{SearchConfig}
use cognitive_tree_ai.Policies.{Policies}
use cognitive_tree_ai.Exec.{Run, pure, ◌>>=◌, bind_rule}
use cognitive_tree_ai.Exec.Keeps.{Quiet}
use cognitive_tree_ai.Selection.{select, prune}
use cognitive_tree_ai.Selection.Control.{select-Quiet, prune-Quiet}
use cognitive_tree_ai.Expansion.{expand}
use cognitive_tree_ai.Expansion.Control.{expand-Quiet}
use cognitive_tree_ai.Evaluation.{evaluate}
use cognitive_tree_ai.Evaluation.Control.{evaluate-Quiet}
use cognitive_tree_ai.Search.{
  advance_node, succeed, count_iteration, announce, dead_end, conclude, propagate, score_batch,
  grow, work_on, iteration,
}
use cognitive_tree_ai.Search.Phasing.{
  At, Stops, At-working, At-stopped, SinkReturns, quiet_rule, advance_rule, advance_node_rule,
}

-- How a part of an iteration may end: in the selection phase if the loop goes on, in a terminal
-- phase if it stops, and in a phase in progress if a fault is under way. `n` counts iterations.
abbrev pub Lands : {W : Type 0} → ℕ → Result Bool × Run W → Type 0
Lands n (ok true, t) = (t.machine.phase ≡ Phase.selection) × (t.iteration ≡ n)
Lands n (ok false, t) = Stops t.machine.phase × (t.iteration ≡ n)
Lands n (raise e, t) = InProgress t.machine.phase × (t.iteration ≡ n)

module _ {W : Type 0} (p : Policies W) (silent : SinkReturns p.on_event) where
  conclude-Lands :
      (o : Option Ref) (n : ℕ) (s : Run W) → At Phase.backpropagation n s → Lands n (conclude p o s)
  unfolding conclude succeed pure contains ◌>>=◌
  conclude-Lands (some c) n s a =
      advance_node_rule p silent (Lands n) Phase.succeeded _ _ _ s a Edge.solve
        λ t b. At-stopped b Stops.succeeded
  conclude-Lands none n s a =
      advance_rule p silent (Lands n) Phase.selection _ _ _ s a Edge.next λ t b. (b.phase, b.count)

  dead_end-Lands : (r : Ref) (n : ℕ) (s : Run W) → At Phase.expansion n s → Lands n (dead_end p r s)
  unfolding dead_end pure
  dead_end-Lands r n s a =
      advance_node_rule p silent (Lands n) Phase.backtracking _ _ _ s a Edge.dead_end λ t b.
        quiet_rule (Lands n) (prune r) _ t b (prune-Quiet r)
          (λ _ u c.
            advance_rule p silent (Lands n) Phase.selection _ _ _ u c Edge.return
              λ v d. (d.phase, d.count))
          (λ e u c. At-working c InProgress.backtracking)

  propagate-Quiet : (valued : List (Ref × Float)) → Quiet (propagate p valued)
  unfolding propagate
  propagate-Quiet valued = record { at = λ s. record { machine = refl; iteration = refl } }

  -- Announcing a revival returns, in the selection phase.
  announce-At :
      (r : Ref) (revived : List Text) (n : ℕ) (s : Run W)
      → At Phase.selection n s
      → ((announce p r revived s).0 ≡ ok tt) × At Phase.selection n (announce p r revived s).1
  unfolding announce pure
  announce-At r [] n s a = (refl, a)
  announce-At r (x ∷ xs) n s a =
      let Back = λ (y : Result (Unit {0}) × Run W). (y.0 ≡ ok tt) × At Phase.selection n y.1 in
      advance_node_rule p silent Back Phase.backtracking _ _ _ s a Edge.revive λ t b.
        advance_node_rule p silent Back Phase.selection _ _ _ t b Edge.return λ u c. (refl, c)

  module _ (cfg : SearchConfig) where
    score_batch-Lands :
        (r : Ref) (children : List Ref) (n : ℕ) (s : Run W)
        → At Phase.expansion n s
        → Lands n (score_batch p cfg r children s)
    unfolding score_batch
    score_batch-Lands r children n s a =
        advance_node_rule p silent (Lands n) Phase.evaluation _ _ _ s a Edge.evaluate λ t b.
          quiet_rule (Lands n) (evaluate p cfg children) _ t b (evaluate-Quiet p cfg children)
            (λ result u c.
              advance_node_rule p silent (Lands n) Phase.backpropagation _ _ _ u c
                Edge.backpropagate
                λ v d.
                  quiet_rule (Lands n) (propagate p result.1) _ v d (propagate-Quiet result.1)
                    (λ _ x e. conclude-Lands result.0 n x e)
                    (λ e x f. At-working f InProgress.backpropagation))
            (λ e u c. At-working c InProgress.evaluation)

    grow-Lands :
        (r : Ref) (children : List Ref) (n : ℕ) (s : Run W)
        → At Phase.expansion n s
        → Lands n (grow p cfg r children s)
    unfolding grow
    grow-Lands r [] n s a = dead_end-Lands r n s a
    grow-Lands r (c ∷ cs) n s a = score_batch-Lands r (c ∷ cs) n s a

    expand_from :
        (r : Ref) (n : ℕ) (t : Run W)
        → At Phase.selection n t
        → Lands n (
            (advance_node p Phase.expansion r Note.blank >>= λ _.
            expand p cfg r >>= λ children. grow p cfg r children)
              t)
    expand_from r n t b =
        advance_node_rule p silent (Lands n) Phase.expansion _ _ _ t b Edge.expand λ u c.
          quiet_rule (Lands n) (expand p cfg r) _ u c (expand-Quiet p cfg r)
            (λ children v d. grow-Lands r children n v d)
            (λ e v d. At-working d InProgress.expansion)

    work_on-Lands :
        (o : Option Ref) (revived : List Text) (n : ℕ) (s : Run W)
        → At Phase.selection n s
        → Lands n (work_on p cfg o revived s)
    unfolding work_on pure contains
    work_on-Lands none revived n s a =
        advance_rule p silent (Lands n) Phase.exhausted _ _ _ s a Edge.empty
          λ t b. At-stopped b Stops.exhausted
    work_on-Lands (some r) revived n s a =
        let (done, here) = announce-At r revived n s a in
        bind_rule (Lands n) (announce p r revived) _ s
          (λ _ _. expand_from r n (announce p r revived s).1 here) (λ e raised. cc)

    pub iteration-Lands :
        (n : ℕ) (s : Run W) → At Phase.selection n s → Lands (n + 1) (iteration p cfg s)
    unfolding iteration count_iteration ◌>>=◌
    iteration-Lands n s a =
        let t : Run W = record s { iteration = s.iteration + 1 } in
        let b : At Phase.selection (n + 1) t = record {
          phase = a.phase;
          count = ap (λ (k : ℕ). k + 1) a.count;
        } in
        quiet_rule (Lands (n + 1)) (select p cfg) (λ x. work_on p cfg x.0 x.1) t b
          (select-Quiet p cfg) (λ x u c. work_on-Lands x.0 x.1 (n + 1) u c)
          (λ e u c. At-working c InProgress.selection)
