-- ===== src/Evaluation/Verdicts.antt =====
-- What `_evaluate` makes of the verdicts.
use cognitive_tree_ai.Prelude.{
  ◌≡◌, ◌∙◌, inl, inr, refl, sym, ap, subst, Float, FloatOps, Bool, true, false, Option, none, some,
  List, [], ◌∷◌, map, ◌&&◌, if◌then◌else◌, Bool-cases,
}
use cognitive_tree_ai.Faults.{Result, ok, raise}
use cognitive_tree_ai.Node.{NodeStatus, Critique, Ref, is_terminal_status}
use cognitive_tree_ai.Tree.{Tree}
use cognitive_tree_ai.Config.{SearchConfig}
use cognitive_tree_ai.Policies.{Policies, Evaluation}
use cognitive_tree_ai.Exec.{Run, pure, throw, bind_rule}
use cognitive_tree_ai.Evaluation.Order.{in_order, CoversUpTo, collect_verdicts-in_order}
use cognitive_tree_ai.Evaluation.{
  collect_verdicts, evaluate, classify, apply_verdict, criticise, shaped_value, judge,
  first_solution, apply_verdicts, Evaluated, is_pruned_status,
}

-- A verdict is accepted if it is terminal with a score of at least the threshold.
pub accepted : FloatOps → SearchConfig → Evaluation → Bool
accepted ops cfg v = v.is_terminal && ops.le cfg.accept_threshold v.score

-- The first child with an accepted verdict.
pub first_accepted : FloatOps → SearchConfig → List Ref → List Evaluation → Option Ref
unfolding accepted
first_accepted ops cfg (c ∷ cs) (v ∷ vs) =
    if accepted ops cfg v then some c else first_accepted ops cfg cs vs
first_accepted ops cfg _ _ = none

pub or_else : Option Ref → Option Ref → Option Ref
or_else none o = o
or_else (some r) o = some r

classify-accepted :
    (ops : FloatOps) (cfg : SearchConfig) (v : Evaluation)
    → is_terminal_status (classify ops cfg v) ≡ accepted ops cfg v
unfolding classify accepted is_terminal_status
classify-accepted ops cfg v =
    elim (Bool-cases (v.is_terminal && ops.le cfg.accept_threshold v.score)) [
      | inl e ↦ rw e refl
      | inr e ↦ rw e (pruned_or_evaluated _)
    ]
  where
    pruned_or_evaluated :
        (b : Bool)
        → is_terminal_status (if b then NodeStatus.pruned else NodeStatus.evaluated) ≡ false
    pruned_or_evaluated true = unfold is_terminal_status in refl
    pruned_or_evaluated false = unfold is_terminal_status in refl

first_solution-accepted :
    (ops : FloatOps) (cfg : SearchConfig) (v : Evaluation) (c : Ref) (o rest : Option Ref)
    → or_else (first_solution (classify ops cfg v) c o) rest
      ≡ or_else o (if accepted ops cfg v then some c else rest)
unfolding first_solution or_else
first_solution-accepted ops cfg v c (some s) rest = refl
first_solution-accepted ops cfg v c none rest =
    rw (classify-accepted ops cfg v) (branch (accepted ops cfg v))
  where
    branch : (b : Bool) → or_else (if b then some c else none) rest ≡ (if b then some c else rest)
    branch true = unfold or_else in refl
    branch false = unfold or_else in refl

module _ {W : Type 0} (p : Policies W) (cfg : SearchConfig) where
  -- How the loop over the verdicts ends.
  abbrev pub Judges :
      Option Ref → List Ref → List Evaluation → Result (Evaluated p cfg) × Run W → Type 0
  Judges o cs vs (ok (solution, valued), u) =
      (solution ≡ or_else o (first_accepted p.ops cfg cs vs))
      × (map (λ (e : Ref × Float). e.0) valued ≡ cs)
      × (p.shape ≡ none
          → map (λ (e : Ref × Float). e.1) valued ≡ map (λ (v : Evaluation). v.score) vs)
  Judges o cs vs (raise e, u) = Unit

  abbrev JudgedAs : Evaluation → Result (NodeStatus × Float) → Type 0
  JudgedAs v (ok (status, value)) =
      (status ≡ classify p.ops cfg v) × (p.shape ≡ none → value ≡ v.score)
  JudgedAs v (raise e) = Unit

  shaped_value-unshaped :
      (c : Ref) (score value : Float) (k : Option Critique) (s : Run W)
      → (shaped_value p cfg p.shape c score k s).0 ≡ ok value
      → p.shape ≡ none
      → value ≡ score
  unfolding shaped_value
  shaped_value-unshaped c score value k s q e = cc (rw e at q)

  judge-JudgedAs : (c : Ref) (v : Evaluation) (s : Run W) → JudgedAs v (judge p cfg c v s).0
  unfolding judge apply_verdict pure
  judge-JudgedAs c v s =
      let status = classify p.ops cfg v in
      bind_rule (λ x. JudgedAs v x.0) (apply_verdict p cfg c v) _ s
        (λ st q.
          let u = (apply_verdict p cfg c v s).1 in
          bind_rule (λ x. JudgedAs v x.0) (criticise p cfg p.critique c (is_pruned_status st)) _ u
            (λ k i.
              let w = (criticise p cfg p.critique c (is_pruned_status st) u).1 in
              bind_rule (λ x. JudgedAs v x.0) (shaped_value p cfg p.shape c v.score k) _ w
                (λ value j. (cc, shaped_value-unshaped c v.score value k w j)) (λ e j. tt))
            (λ e i. tt))
        (λ e q. tt)

  apply_verdicts-Judges :
      (o : Option Ref) (cs : List Ref) (vs : List Evaluation) (s : Run W)
      → Judges o cs vs (apply_verdicts p cfg o cs vs s)
  unfolding apply_verdicts pure throw first_accepted or_else
  apply_verdicts-Judges none [] [] s = (refl, refl, λ e. refl)
  apply_verdicts-Judges (some r) [] [] s = (refl, refl, λ e. refl)
  apply_verdicts-Judges o [] (v ∷ vs) s = tt
  apply_verdicts-Judges o (c ∷ cs) [] s = tt
  apply_verdicts-Judges o (c ∷ cs) (v ∷ vs) s =
      let all = Judges o (c ∷ cs) (v ∷ vs) in
      let judged = judge-JudgedAs c v s in
      let u = (judge p cfg c v s).1 in
      bind_rule all (judge p cfg c v) _ s
        (λ j q.
          let (status, plain) = subst (JudgedAs v) q judged in
          let next = first_solution j.0 c o in
          let rest = apply_verdicts-Judges next cs vs u in
          bind_rule all (apply_verdicts p cfg next cs vs) _ u
            (λ r i.
              extend o c cs v vs j r s status plain
                (subst (λ y. Judges next cs vs (y, (apply_verdicts p cfg next cs vs u).1)) i rest))
            (λ e i. tt))
        (λ e q. tt)
    where
      extend :
          (o : Option Ref) (c : Ref) (cs : List Ref) (v : Evaluation) (vs : List Evaluation)
          (j : NodeStatus × Float) (r : Evaluated p cfg) (w : Run W)
          → j.0 ≡ classify p.ops cfg v
          → (p.shape ≡ none → j.1 ≡ v.score)
          → Judges (first_solution j.0 c o) cs vs (ok r, w)
          → Judges o (c ∷ cs) (v ∷ vs) (ok (r.0, (c, j.1) ∷ r.1), w)
      extend o c cs v vs j r w status plain (sol, order, values) = (
        sol
            ∙ ap (λ st. or_else (first_solution st c o) (first_accepted p.ops cfg cs vs)) status
            ∙ first_solution-accepted p.ops cfg v c o (first_accepted p.ops cfg cs vs),
        ap (λ rs. c ∷ rs) order,
        λ e. rw (plain e, values e) refl,
      )

-- What `_evaluate` returns for children with the verdicts of `verdict`.
abbrev pub Scores :
    {W : Type 0} (p : Policies W) (cfg : SearchConfig)
    → (Ref → Result Evaluation)
    → List Ref
    → Result (Evaluated p cfg) × Run W
    → Type 0
Scores p cfg verdict children (ok result, u) =
    (vs : List Evaluation) × (in_order verdict children ≡ ok vs)
    × Judges p cfg none children vs (ok result, u)
Scores p cfg verdict children (raise e, u) = Unit

Scores-in_order :
    {W : Type 0} (p : Policies W) (cfg : SearchConfig) (verdict : Ref → Result Evaluation)
    (children : List Ref) (vs : List Evaluation) (x : Result (Evaluated p cfg) × Run W)
    → in_order verdict children ≡ ok vs
    → Judges p cfg none children vs x
    → Scores p cfg verdict children x
Scores-in_order p cfg verdict children vs (ok r, u) e h = (vs, e, h)
Scores-in_order p cfg verdict children vs (raise e, u) i h = tt

-- Let the evaluator's answer depend on the candidate alone, and let the pool carry out each
-- candidate up to the first that fails. If `_evaluate` returns, then, whatever the number of
-- workers, its solution is the first candidate in order with an accepted verdict, or nothing where
-- none is accepted; it gives a value for each candidate in order; and without a reward model the
-- values are the raw scores.
pub evaluate-Scores :
    {W : Type 0} (p : Policies W) (cfg : SearchConfig) (verdict : Ref → Result Evaluation)
    (children : List Ref) (s : Run W)
    → ((t : Tree) (c : Ref) (w : W) → (p.evaluate t c w).0 ≡ verdict c)
    → CoversUpTo verdict children (p.pool_order children s.world).0
    → Scores p cfg verdict children (evaluate p cfg children s)
unfolding evaluate or_else
evaluate-Scores p cfg verdict children s steady covers =
    let u = (collect_verdicts p cfg children s).1 in
    let known = collect_verdicts-in_order p cfg verdict steady children s covers in
    bind_rule (Scores p cfg verdict children) (collect_verdicts p cfg children) _ s
      (λ vs q.
        Scores-in_order p cfg verdict children vs _ (sym known ∙ q)
          (apply_verdicts-Judges p cfg none children vs u))
      (λ e q. tt)
