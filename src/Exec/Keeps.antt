-- ===== src/Exec/Keeps.antt =====
-- Statements that lead from a state to one related to it, whether they return or raise.
use cognitive_tree_ai.Prelude.{◌≡◌, refl, ◌∙◌}
use cognitive_tree_ai.Faults.{Fault, Result}
use cognitive_tree_ai.Exec.{
  Run, Exec, pure, throw, world_call, policy_call, node_call, ◌>>=◌, bind_rule,
}
use cognitive_tree_ai.Node.{Ref, Metadata}

pub record Keeps {W A : Type 0} (R : Run W → Run W → Type 0) (m : Exec W A) : Type 0 where
  pub at : (s : Run W) → R s (m s).1

pub record IsPreorder {W : Type 0} (R : Run W → Run W → Type 0) : Type 0 where
  pub reflexive : (s : Run W) → R s s
  pub transitive : (s t u : Run W) → R s t → R t u → R s u

module _ {W : Type 0} (R : Run W → Run W → Type 0) (order : IsPreorder R) where
  pub Keeps-bind :
      {A B : Type 0} (m : Exec W A) (f : A → Exec W B)
      → Keeps R m
      → ((a : A) → Keeps R (f a))
      → Keeps R (m >>= f)
  Keeps-bind {A} {B} m f km kf = record {
    at = λ s.
        bind_rule (λ x. R s x.1) m f s
          (λ a e. order.transitive s (m s).1 (f a (m s).1).1 (km.at s) ((kf a).at (m s).1))
          (λ e _. km.at s);
  }

-- The state machine and the iteration count are as they were.
pub record SameControl {W : Type 0} (s t : Run W) : Type 0 where
  pub machine : t.machine ≡ s.machine
  pub iteration : t.iteration ≡ s.iteration

pub SameControl-refl : {W : Type 0} (s : Run W) → SameControl s s
SameControl-refl s = record { machine = refl; iteration = refl }

pub SameControl-order : {W : Type 0} → IsPreorder (SameControl {W = W})
SameControl-order = record {
  reflexive = λ s. record { machine = refl; iteration = refl };
  transitive = λ s t u p q. record {
    machine = q.machine ∙ p.machine;
    iteration = q.iteration ∙ p.iteration;
  };
}

-- A statement that leaves the control state alone.
abbrev pub Quiet : {W A : Type 0} → Exec W A → Type 0
Quiet m = Keeps SameControl m

module _ {W A : Type 0} where
  pub Quiet-pure : (a : A) → Quiet (pure {W = W} a)
  unfolding pure
  Quiet-pure a = record { at = λ s. record { machine = refl; iteration = refl } }

  pub Quiet-throw : (e : Fault) → Quiet (throw {W = W} {A = A} e)
  unfolding throw
  Quiet-throw e = record { at = λ s. record { machine = refl; iteration = refl } }

  pub Quiet-world_call : (f : W → A × W) → Quiet (world_call f)
  unfolding world_call
  Quiet-world_call f = record { at = λ s. record { machine = refl; iteration = refl } }

  pub Quiet-policy_call : (f : W → Result A × W) → Quiet (policy_call f)
  unfolding policy_call
  Quiet-policy_call f = record { at = λ s. record { machine = refl; iteration = refl } }

  pub Quiet-node_call : (r : Ref) (f : W → Result A × Metadata × W) → Quiet (node_call r f)
  unfolding node_call
  Quiet-node_call r f = record { at = λ s. record { machine = refl; iteration = refl } }

pub Quiet-bind :
    {W A B : Type 0} (m : Exec W A) (f : A → Exec W B)
    → Quiet m
    → ((a : A) → Quiet (f a))
    → Quiet (m >>= f)
Quiet-bind m f = Keeps-bind SameControl SameControl-order m f

pub ruleset quiet_rules =
    (Quiet-pure, Quiet-throw, Quiet-world_call, Quiet-policy_call, Quiet-node_call, Quiet-bind)
