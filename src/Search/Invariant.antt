-- ===== src/Search/Invariant.antt =====
-- What a run keeps: a well-formed tree, distinct siblings, a replayable history; and the faults
-- that it may meet.
use cognitive_tree_ai.Prelude.{
  ℕ, ◌<◌, ◌≡◌, ◌∙◌, refl, sym, ap, subst, Text, Option, none, some, List, [], ◌∷◌, map, arith,
}
use cognitive_tree_ai.Phases.{Phase}
use cognitive_tree_ai.Faults.{Fault, Result, raise, fault_of}
use cognitive_tree_ai.State.Trace.{IsReplayable}
use cognitive_tree_ai.Node.{Ref}
use cognitive_tree_ai.Tree.{Tree}
use cognitive_tree_ai.Tree.Updates.{SameShape, prune_subtree-SameShape}
use cognitive_tree_ai.Tree.WellFormed.{IsWellFormed, IsWellFormed-shape}
use cognitive_tree_ai.Policies.{Policies, SearchEvent}
use cognitive_tree_ai.Exec.{Run, Exec, pure, ◌>>=◌, bind_rule}
use cognitive_tree_ai.Exec.Calm.{Calm, Calm-pure}
use cognitive_tree_ai.Selection.{prune}
use cognitive_tree_ai.Selection.Termination.{Raises}
use cognitive_tree_ai.Expansion.{child_contents}
use cognitive_tree_ai.Expansion.Siblings.{AllSiblings}
use cognitive_tree_ai.Evaluation.Workers.{Evaluators}

abbrev pub CheckFaults :
    {W : Type 0} → (Fault → Type 0) → Option (W → Result (Option Text) × W) → Type 0
CheckFaults E none = Unit
CheckFaults {W} E (some f) = (w : W) (e : Fault) → (f w).0 ≡ raise e → E e

abbrev pub SinkFaults :
    {W : Type 0}
    → (Fault → Type 0)
    → Option (SearchEvent → Tree → W → Result (Unit {0}) × W)
    → Type 0
SinkFaults E none = Unit
SinkFaults {W} E (some f) =
    (x : SearchEvent) (t : Tree) (w : W) (e : Fault) → (f x t w).0 ≡ raise e → E e

-- `E` holds of the faults that the policies may raise, and of those of the program itself.
pub record Known {W : Type 0} (E : Fault → Type 0) (p : Policies W) : Type 0 where
  pub generate :
      (t : Tree) (r : Ref) (k : ℕ) (w : W) (e : Fault) → (p.generate t r k w).0 ≡ raise e → E e
  pub evaluators : Evaluators E p
  pub revise : Raises E p.revise
  pub check : CheckFaults E p.check
  pub on_event : SinkFaults E p.on_event
  pub invalid_transition : (s t : Phase) → E (Fault.invalid_transition s t)

-- The invariant of a run that works at the node `r`.
pub record Holds {W : Type 0} (r : Ref) (s : Run W) : Type 0 where
  pub fits : IsWellFormed s.tree
  pub inside : r < s.tree.size
  pub siblings : AllSiblings s.tree
  pub replay : IsReplayable s.machine

-- A statement that keeps the invariant, and whose faults satisfy `E`.
pub record Sound {W A : Type 0} (E : Fault → Type 0) (r : Ref) (m : Exec W A) : Type 0 where
  pub at : (s : Run W) → Holds r s → Holds r (m s).1
  pub faults : (s : Run W) → Holds r s → (e : Fault) → (m s).0 ≡ raise e → E e

contents-shape :
    (t u : Tree) (cs : List Ref)
    → SameShape t u
    → map (λ c. (u.cell c).content) cs ≡ map (λ c. (t.cell c).content) cs
contents-shape t u [] h = refl
contents-shape t u (c ∷ cs) h = rw ((h.cells c).content, contents-shape t u cs h) refl

child_contents-shape :
    (t u : Tree) (x : Ref) → SameShape t u → child_contents u x ≡ child_contents t x
child_contents-shape t u x h =
    ap (map (λ c. (u.cell c).content)) (sym (h.cells x).children)
    ∙ contents-shape t u (t.cell x).children h

AllSiblings-shape : {t u : Tree} → SameShape t u → AllSiblings t → AllSiblings u
AllSiblings-shape {t} {u} h a x lt =
    let old = a x (omega (arith, h.size)) in
    let same = child_contents-shape t u x h in
    record { distinct = rw same old.distinct; filled = rw same old.filled }

-- The invariant rests on the shape of the tree and on the machine.
pub Holds-same :
    {W : Type 0} {r : Ref} {s t : Run W}
    → SameShape s.tree t.tree
    → t.machine ≡ s.machine
    → Holds r s
    → Holds r t
Holds-same {s = s} {t = t} shape machine h = record {
  fits = IsWellFormed-shape shape h.fits;
  inside = omega (arith, h.inside, shape.size);
  siblings = AllSiblings-shape shape h.siblings;
  replay = subst IsReplayable (sym machine) h.replay;
}

module _ {W : Type 0} (E : Fault → Type 0) (r : Ref) where
  pub Sound-Calm : {A : Type 0} (m : Exec W A) → Calm E m → Sound E r m
  Sound-Calm m c = record {
    at = λ s h. Holds-same (c.at s).shape (c.at s).control.machine h;
    faults = λ s h. c.faults s;
  }

  pub Sound-pure : {A : Type 0} (a : A) → Sound {W = W} E r (pure a)
  Sound-pure a = Sound-Calm (pure a) (Calm-pure E a)

  pub Sound-bind :
      {A B : Type 0} (m : Exec W A) (f : A → Exec W B)
      → Sound E r m
      → ((a : A) → Sound E r (f a))
      → Sound E r (m >>= f)
  Sound-bind m f c k = record {
    at = λ s h.
        bind_rule (λ x. Holds r x.1) m f s (λ a e. (k a).at (m s).1 (c.at s h)) (λ e _. c.at s h);
    faults = λ s h x.
        bind_rule (λ y. y.0 ≡ raise x → E x) m f s (λ a e q. (k a).faults (m s).1 (c.at s h) x q)
          (λ e q i. subst E (fault_of i) (c.faults s h e q));
  }

  pub Sound-prune : (x : Ref) → Sound {W = W} E r (prune x)
  unfolding prune
  Sound-prune x = record {
    at = λ s h. Holds-same (prune_subtree-SameShape x s.tree) refl h;
    faults = λ s h e q. cc;
  }
