-- ===== src/Evaluation/Control.antt =====
-- An evaluation leaves the state machine, the iteration count and the links of the tree alone, and
-- its faults are those of the policies, or of a batch that does not fit together.
use cognitive_tree_ai.Prelude.{
  Float, Bool, true, false, Option, none, some, List, [], ◌∷◌, refl, ◌≡◌,
}
use cognitive_tree_ai.Faults.{Fault, Result, raise}
use cognitive_tree_ai.Node.{Ref, Critique, Metadata}
use cognitive_tree_ai.Tree.{Tree}
use cognitive_tree_ai.Config.{SearchConfig}
use cognitive_tree_ai.Policies.{Policies, Evaluation}
use cognitive_tree_ai.Exec.{Run, policy_call, ◌>>=◌}
use cognitive_tree_ai.Tree.Updates.{
  modify-SameShape, metadata-SameLinks, apply_evaluation-SameLinks,
}
use cognitive_tree_ai.Exec.Keeps.{Quiet}
use cognitive_tree_ai.Exec.Calm.{
  Calm, Calm→Quiet, Steady-refl, OnSome, Calm-bind, Calm-pure, Calm-throw, Calm-policy_call,
  Calm-node_call,
}
use cognitive_tree_ai.Evaluation.{
  apply_verdict, store_critique, criticise, shaped_value, judge, first_solution, apply_verdicts,
  evaluate, is_pruned_status,
}
use cognitive_tree_ai.Evaluation.Workers.{Evaluators, collect_verdicts-Calm}

module _ {W : Type 0} (p : Policies W) (cfg : SearchConfig) (E : Fault → Type 0)
    (known : Evaluators E p) where
  apply_verdict-Calm : (c : Ref) (v : Evaluation) → Calm E (apply_verdict p cfg c v)
  unfolding apply_verdict
  apply_verdict-Calm c v = record {
    at = λ s. record {
      control = record { machine = refl; iteration = refl };
      shape = modify-SameShape c _ s.tree (apply_evaluation-SameLinks v.score _ v.rationale _);
    };
    faults = λ s e q. cc;
  }

  store_critique-Calm : (c : Ref) (k : Option Critique) → Calm E (store_critique p cfg c k)
  unfolding store_critique
  store_critique-Calm c none = record { at = Steady-refl; faults = λ s e q. cc }
  store_critique-Calm c (some k) = record {
    at = λ s. record {
      control = record { machine = refl; iteration = refl };
      shape = modify-SameShape c _ s.tree (metadata-SameLinks _ (s.tree.cell c));
    };
    faults = λ s e q. cc;
  }

  criticise-Calm :
      (o : Option (Tree → Ref → W → Result (Option Critique) × W)) (c : Ref) (b : Bool)
      → OnSome (λ f. (t : Tree) (r : Ref) (w : W) (e : Fault) → (f t r w).0 ≡ raise e → E e) o
      → Calm E (criticise p cfg o c b)
  unfolding criticise
  criticise-Calm none c b h = record { at = Steady-refl; faults = λ s e q. cc }
  criticise-Calm (some critique) c false h = record { at = Steady-refl; faults = λ s e q. cc }
  criticise-Calm (some critique) c true h = record {
    at = λ s. (both s).at s;
    faults = λ s. (both s).faults s;
  }
    where
      both : (s : Run W) → Calm E (policy_call (critique s.tree c) >>= store_critique p cfg c)
      both s =
          Calm-bind E _ _ (Calm-policy_call E (critique s.tree c) (h s.tree c))
            (store_critique-Calm c)

  shaped_value-Calm :
      (o : Option (Tree → Ref → Float → Option Critique → W → Result Float × Metadata × W))
      (c : Ref) (score : Float) (k : Option Critique)
      → OnSome
          (λ f.
            (t : Tree) (r : Ref) (x : Float) (k : Option Critique) (w : W) (e : Fault)
            → (f t r x k w).0 ≡ raise e
            → E e)
          o
      → Calm E (shaped_value p cfg o c score k)
  unfolding shaped_value
  shaped_value-Calm none c score k h = record { at = Steady-refl; faults = λ s e q. cc }
  shaped_value-Calm (some shape) c score k h = record {
    at = λ s. (Calm-node_call E c (shape s.tree c score k) (h s.tree c score k)).at s;
    faults = λ s. (Calm-node_call E c (shape s.tree c score k) (h s.tree c score k)).faults s;
  }

  judge-Calm : (c : Ref) (v : Evaluation) → Calm E (judge p cfg c v)
  unfolding judge
  judge-Calm c v = Calm-bind E _ _ (apply_verdict-Calm c v) λ status.
      Calm-bind E _ _ (criticise-Calm p.critique c (is_pruned_status status) known.critique) λ k.
        Calm-bind E _ _ (shaped_value-Calm p.shape c v.score k known.shape) λ value. Calm-pure E _

  apply_verdicts-Calm :
      (o : Option Ref) (cs : List Ref) (vs : List Evaluation)
      → Calm E (apply_verdicts p cfg o cs vs)
  unfolding apply_verdicts
  apply_verdicts-Calm o [] [] = Calm-pure E _
  apply_verdicts-Calm o [] (v ∷ vs) = Calm-throw E _ known.value_error
  apply_verdicts-Calm o (c ∷ cs) [] = Calm-throw E _ known.value_error
  apply_verdicts-Calm o (c ∷ cs) (v ∷ vs) = Calm-bind E _ _ (judge-Calm c v) λ judged.
      Calm-bind E _ _ (apply_verdicts-Calm (first_solution judged.0 c o) cs vs)
        λ rest. Calm-pure E _

  pub evaluate-Calm : (cs : List Ref) → Calm E (evaluate p cfg cs)
  unfolding evaluate
  evaluate-Calm cs =
      Calm-bind E _ _ (collect_verdicts-Calm p cfg E known cs) (apply_verdicts-Calm none cs)

module _ {W : Type 0} (p : Policies W) where
  any_critique :
      (o : Option (Tree → Ref → W → Result (Option Critique) × W))
      → OnSome (λ f. (t : Tree) (r : Ref) (w : W) (e : Fault) → (f t r w).0 ≡ raise e → Unit {0}) o
  any_critique none = tt
  any_critique (some f) = λ t r w e q. tt

  any_shape :
      (o : Option (Tree → Ref → Float → Option Critique → W → Result Float × Metadata × W))
      → OnSome
          (λ f.
            (t : Tree) (r : Ref) (x : Float) (k : Option Critique) (w : W) (e : Fault)
            → (f t r x k w).0 ≡ raise e
            → Unit {0})
          o
  any_shape none = tt
  any_shape (some f) = λ t r x k w e q. tt

  pub any_Evaluators : Evaluators (λ e. Unit {0}) p
  any_Evaluators = record {
    evaluate = λ t r w e q. tt;
    critique = any_critique p.critique;
    shape = any_shape p.shape;
    key_error = tt;
    value_error = tt;
  }

  pub evaluate-Quiet : (cfg : SearchConfig) (cs : List Ref) → Quiet (evaluate p cfg cs)
  evaluate-Quiet cfg cs = Calm→Quiet (evaluate-Calm p cfg (λ e. Unit) any_Evaluators cs)
