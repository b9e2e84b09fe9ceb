-- ===== src/Exec/Calm.antt =====
-- Statements that keep the control state and the shape of the tree, and whose faults are known.
use cognitive_tree_ai.Prelude.{◌≡◌, refl, subst, Option, none, some}
use cognitive_tree_ai.Faults.{Fault, Result, raise, fault_of}
use cognitive_tree_ai.Exec.{
  Run, Exec, pure, throw, world_call, policy_call, node_call, ◌>>=◌, bind_rule,
}
use cognitive_tree_ai.Exec.Keeps.{SameControl, SameControl-refl, SameControl-order, Quiet}
use cognitive_tree_ai.Node.{Ref, Metadata}
use cognitive_tree_ai.Tree.Updates.{
  SameShape, SameShape-refl, SameShape-trans, modify-SameShape, metadata-SameLinks,
}

-- The control state is as it was, and so are the links of the tree.
pub record Steady {W : Type 0} (s t : Run W) : Type 0 where
  pub control : SameControl s t
  pub shape : SameShape s.tree t.tree

pub Steady-refl : {W : Type 0} (s : Run W) → Steady s s
Steady-refl s = record { control = SameControl-refl s; shape = SameShape-refl s.tree }

pub Steady-trans : {W : Type 0} (s t u : Run W) → Steady s t → Steady t u → Steady s u
Steady-trans s t u p q = record {
  control = SameControl-order.transitive s t u p.control q.control;
  shape = SameShape-trans p.shape q.shape;
}

-- Whatever way the statement ends, the state is steady; and `E` holds of each fault that it raises.
pub record Calm {W A : Type 0} (E : Fault → Type 0) (m : Exec W A) : Type 0 where
  pub at : (s : Run W) → Steady s (m s).1
  pub faults : (s : Run W) (e : Fault) → (m s).0 ≡ raise e → E e

-- A part that may be missing.
abbrev pub OnSome : {F : Type 0} → (F → Type 0) → Option F → Type 0
OnSome P none = Unit
OnSome P (some f) = P f

pub Calm→Quiet : {W A : Type 0} {E : Fault → Type 0} {m : Exec W A} → Calm E m → Quiet m
Calm→Quiet c = record { at = λ s. (c.at s).control }

module _ {W A : Type 0} (E : Fault → Type 0) where
  pub Calm-pure : (a : A) → Calm {W = W} E (pure a)
  unfolding pure
  Calm-pure a = record { at = Steady-refl; faults = λ s e q. cc }

  pub Calm-throw : (e : Fault) → E e → Calm {W = W} {A = A} E (throw e)
  unfolding throw
  Calm-throw e h = record { at = Steady-refl; faults = λ s x q. subst E (fault_of q) h }

  pub Calm-world_call : (f : W → A × W) → Calm E (world_call f)
  unfolding world_call
  Calm-world_call f = record {
    at = λ s. record {
      control = record { machine = refl; iteration = refl };
      shape = SameShape-refl s.tree;
    };
    faults = λ s e q. cc;
  }

  pub Calm-policy_call :
      (f : W → Result A × W)
      → ((w : W) (e : Fault) → (f w).0 ≡ raise e → E e)
      → Calm E (policy_call f)
  unfolding policy_call
  Calm-policy_call f h = record {
    at = λ s. record {
      control = record { machine = refl; iteration = refl };
      shape = SameShape-refl s.tree;
    };
    faults = λ s e q. h s.world e q;
  }

  pub Calm-node_call :
      (r : Ref) (f : W → Result A × Metadata × W)
      → ((w : W) (e : Fault) → (f w).0 ≡ raise e → E e)
      → Calm E (node_call r f)
  unfolding node_call
  Calm-node_call r f h = record {
    at = λ s. record {
      control = record { machine = refl; iteration = refl };
      shape =
          modify-SameShape r (λ n. record n { metadata = (f s.world).1 }) s.tree
            (metadata-SameLinks (f s.world).1 (s.tree.cell r));
    };
    faults = λ s e q. h s.world e q;
  }

  pub Calm-bind :
      {B : Type 0} (m : Exec W B) (f : B → Exec W A)
      → Calm E m
      → ((b : B) → Calm E (f b))
      → Calm E (m >>= f)
  Calm-bind m f c k = record {
    at = λ s.
        bind_rule (λ x. Steady s x.1) m f s
          (λ b e. Steady-trans s (m s).1 (f b (m s).1).1 (c.at s) ((k b).at (m s).1))
          (λ e _. c.at s);
    faults = λ s x.
        bind_rule (λ y. y.0 ≡ raise x → E x) m f s (λ b e q. (k b).faults (m s).1 x q)
          (λ e q h. subst E (fault_of h) (c.faults s e q));
  }

-- `E` holds of the faults of a statement.
pub record Raising {W A : Type 0} (E : Fault → Type 0) (m : Exec W A) : Type 0 where
  pub faults : (s : Run W) (e : Fault) → (m s).0 ≡ raise e → E e

pub Raising-bind :
    {W A B : Type 0} (E : Fault → Type 0) (m : Exec W B) (f : B → Exec W A)
    → Raising E m
    → ((b : B) → Raising E (f b))
    → Raising E (m >>= f)
Raising-bind E m f c k = record {
  faults = λ s x.
      bind_rule (λ y. y.0 ≡ raise x → E x) m f s (λ b e q. (k b).faults (m s).1 x q)
        (λ e q h. subst E (fault_of h) (c.faults s e q));
}

pub Raising-Calm : {W A : Type 0} (E : Fault → Type 0) (m : Exec W A) → Calm E m → Raising E m
Raising-Calm E m c = record { faults = c.faults }
