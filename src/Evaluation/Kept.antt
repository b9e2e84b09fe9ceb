-- ===== src/Evaluation/Kept.antt =====
-- Relations between the states of a run that `_evaluate` (cognitivetree/search.py) keeps.
use cognitive_tree_ai.Prelude.{
  Float, Bool, true, false, Bool-cases, inl, inr, Option, none, some, List, [], ◌∷◌, leb, min,
  length, refl,
}
use cognitive_tree_ai.Faults.{Result}
use cognitive_tree_ai.Node.{Ref, Critique, Metadata, apply_evaluation}
use cognitive_tree_ai.Tree.{Tree, modify}
use cognitive_tree_ai.Config.{SearchConfig}
use cognitive_tree_ai.Policies.{Policies, Evaluation}
use cognitive_tree_ai.Exec.{Run}
use cognitive_tree_ai.Exec.Calm.{OnSome}
use cognitive_tree_ai.Exec.Keeps.{Keeps}
use cognitive_tree_ai.Exec.Closed.{
  Closed, stays, Keeps-then, Keeps-pure, Keeps-throw, Keeps-world_call, Keeps-policy_call,
  Keeps-node_call, Keeps-tree,
}
use cognitive_tree_ai.Evaluation.{
  classify, is_pruned_status, first_solution, evaluate_one, in_sequence, carry_out, pooled, in_pool,
  collect_verdicts, apply_verdict, store_critique, criticise, shaped_value, judge, apply_verdicts,
  evaluate,
}

module _ {W : Type 0} (R : Run W → Run W → Type 0) (p : Policies W) (closed : Closed R p)
    (cfg : SearchConfig) where
  evaluate_one-Keeps : (c : Ref) → Keeps R (evaluate_one p cfg c)
  unfolding evaluate_one
  evaluate_one-Keeps c = record {
    at = λ s. (Keeps-node_call R p closed c (p.evaluate s.tree c) (closed.evaluate s.tree c)).at s;
  }

  in_sequence-Keeps : (cs : List Ref) → Keeps R (in_sequence p cfg cs)
  unfolding in_sequence
  in_sequence-Keeps [] = Keeps-pure R p closed []
  in_sequence-Keeps (c ∷ cs) =
      Keeps-then R p closed _ _ (evaluate_one-Keeps c)
        λ v. Keeps-then R p closed _ _ (in_sequence-Keeps cs) λ vs. Keeps-pure R p closed _

  carry_out-Keeps : (cs : List Ref) (s : Run W) → R s (carry_out p cfg cs s).1
  unfolding carry_out
  carry_out-Keeps [] s = stays R p closed s
  carry_out-Keeps (c ∷ cs) s =
      closed.order.transitive s (evaluate_one p cfg c s).1 _ ((evaluate_one-Keeps c).at s)
        (carry_out-Keeps cs (evaluate_one p cfg c s).1)

  pooled-Keeps : (cs order : List Ref) → Keeps R (pooled p cfg cs order)
  unfolding pooled
  pooled-Keeps cs order = record { at = carry_out-Keeps order }

  collect_verdicts-Keeps : (cs : List Ref) → Keeps R (collect_verdicts p cfg cs)
  unfolding collect_verdicts in_pool
  collect_verdicts-Keeps cs = elim (Bool-cases (leb (min cfg.evaluation_workers (length cs)) 1)) [
    | inl e ↦ rw e (in_sequence-Keeps cs)
    | inr e ↦ rw e (
        Keeps-then R p closed _ _
          (Keeps-world_call R p closed (p.pool_order cs) (closed.pool_order cs)) (pooled-Keeps cs))
  ]

  apply_verdict-Keeps : (c : Ref) (v : Evaluation) → Keeps R (apply_verdict p cfg c v)
  apply_verdict-Keeps c v =
      unfold apply_verdict in
      Keeps-tree R p closed (apply_verdict p cfg c v)
        (λ s. modify c (apply_evaluation v.score (classify p.ops cfg v) v.rationale) s.tree)
        (λ s. refl)

  store_critique-Keeps : (c : Ref) (k : Option Critique) → Keeps R (store_critique p cfg c k)
  unfolding store_critique
  store_critique-Keeps c none = record { at = stays R p closed }
  store_critique-Keeps c (some k) = record { at = λ s. closed.trees s _ }

  criticise-Keeps :
      (o : Option (Tree → Ref → W → Result (Option Critique) × W)) (c : Ref) (b : Bool)
      → OnSome
          (λ f. (t : Tree) (r : Ref) (s : Run W) → R s (record s { world = (f t r s.world).1 }))
          o
      → Keeps R (criticise p cfg o c b)
  unfolding criticise
  criticise-Keeps none c b h = record { at = stays R p closed }
  criticise-Keeps (some critique) c false h = record { at = stays R p closed }
  criticise-Keeps (some critique) c true h = record {
    at = λ s.
        (Keeps-then R p closed _ _ (Keeps-policy_call R p closed (critique s.tree c) (h s.tree c))
            (store_critique-Keeps c)).at
          s;
  }

  shaped_value-Keeps :
      (o : Option (Tree → Ref → Float → Option Critique → W → Result Float × Metadata × W))
      (c : Ref) (score : Float) (k : Option Critique)
      → OnSome
          (λ f.
            (t : Tree) (r : Ref) (x : Float) (k : Option Critique) (s : Run W)
            → R s (record s { world = (f t r x k s.world).2 }))
          o
      → Keeps R (shaped_value p cfg o c score k)
  unfolding shaped_value
  shaped_value-Keeps none c score k h = record { at = stays R p closed }
  shaped_value-Keeps (some shape) c score k h = record {
    at = λ s. (Keeps-node_call R p closed c (shape s.tree c score k) (h s.tree c score k)).at s;
  }

  judge-Keeps : (c : Ref) (v : Evaluation) → Keeps R (judge p cfg c v)
  unfolding judge
  judge-Keeps c v = Keeps-then R p closed _ _ (apply_verdict-Keeps c v) λ status.
      Keeps-then R p closed _ _
        (criticise-Keeps p.critique c (is_pruned_status status) closed.critique)
        λ k.
          Keeps-then R p closed _ _ (shaped_value-Keeps p.shape c v.score k closed.shape)
            λ value. Keeps-pure R p closed _

  apply_verdicts-Keeps :
      (o : Option Ref) (cs : List Ref) (vs : List Evaluation)
      → Keeps R (apply_verdicts p cfg o cs vs)
  unfolding apply_verdicts
  apply_verdicts-Keeps o [] [] = Keeps-pure R p closed _
  apply_verdicts-Keeps o [] (v ∷ vs) = Keeps-throw R p closed _
  apply_verdicts-Keeps o (c ∷ cs) [] = Keeps-throw R p closed _
  apply_verdicts-Keeps o (c ∷ cs) (v ∷ vs) = Keeps-then R p closed _ _ (judge-Keeps c v) λ judged.
      Keeps-then R p closed _ _ (apply_verdicts-Keeps (first_solution judged.0 c o) cs vs)
        λ rest. Keeps-pure R p closed _

  pub evaluate-Keeps : (cs : List Ref) → Keeps R (evaluate p cfg cs)
  unfolding evaluate
  evaluate-Keeps cs =
      Keeps-then R p closed _ _ (collect_verdicts-Keeps cs) (apply_verdicts-Keeps none cs)
