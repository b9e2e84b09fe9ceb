-- ===== src/Session/Untouched.antt =====
-- The queue of a streamed run beside its tree: what a transition does to it (`_advance` of
-- cognitivetree/search.py with the sink of cognitivetree/session.py), and the calls that leave it
-- alone.
use cognitive_tree_ai.Prelude.{
  ◌≡◌, ◌∙◌, ◌<◌, refl, sym, subst, arith, Float, Text, Bool, Bool-cases, inl, inr, Option, none,
  some, [], ◌∷◌, ◌++◌,
}
use cognitive_tree_ai.Phases.{Phase}
use cognitive_tree_ai.Faults.{Note, Fault, Result, ok, raise}
use cognitive_tree_ai.State.{PhaseTransition, can_transition, transition}
use cognitive_tree_ai.State.Trace.{transition-allowed}
use cognitive_tree_ai.Node.{Ref, Metadata, Critique}
use cognitive_tree_ai.Tree.{Tree}
use cognitive_tree_ai.Tree.Updates.{SameShape}
use cognitive_tree_ai.Tree.WellFormed.{IsWellFormed, IsWellFormed-shape}
use cognitive_tree_ai.Tree.Earlier.{Earlier, SameShape→Earlier}
use cognitive_tree_ai.Exec.{Run, policy_call, ◌>>=◌}
use cognitive_tree_ai.Exec.Calm.{OnSome}
use cognitive_tree_ai.Exec.Keeps.{Keeps, IsPreorder}
use cognitive_tree_ai.Exec.Closed.{Closed}
use cognitive_tree_ai.Search.{move, notify, advance}
use cognitive_tree_ai.Session.{
  ReasoningSession, Stage, beside, beside_node, critic_beside, revision_beside, reward_beside,
  call_beside, streamed,
}
use cognitive_tree_ai.Session.Mirrored.{Queued, Queued-later, sink-Queued}

module _ {W : Type 0} (session : ReasoningSession W) where
  -- A run that works at the node `r`, with a queue that mirrors its history.
  pub record Good (r : Ref) (s : Run (Stage W)) : Type 0 where
    pub fits : IsWellFormed s.tree
    pub inside : r < s.tree.size
    pub queued : Queued session.p.ops s.tree s.world.queue s.machine.history

  abbrev pub Follows : Ref → Run (Stage W) → Run (Stage W) → Type 0
  Follows r s t = Good r s → Good r t

  pub Follows-order : (r : Ref) → IsPreorder (Follows r)
  Follows-order r = record { reflexive = λ s h. h; transitive = λ s t u f g h. g (f h) }

  -- The queue and the history are as they were.
  pub record SameQueue (s t : Run (Stage W)) : Type 0 where
    pub queue : t.world.queue ≡ s.world.queue
    pub history : t.machine.history ≡ s.machine.history

  pub SameQueue-refl : (s : Run (Stage W)) → SameQueue s s
  SameQueue-refl s = record { queue = refl; history = refl }

  SameQueue-order : IsPreorder SameQueue
  SameQueue-order = record {
    reflexive = SameQueue-refl;
    transitive = λ s t u f g. record { queue = g.queue ∙ f.queue; history = g.history ∙ f.history };
  }

  -- A change of the tree beside an untouched queue.
  pub later :
      {x r : Ref} (s t : Run (Stage W))
      → SameQueue s t
      → Good x s
      → IsWellFormed t.tree
      → r < t.tree.size
      → Earlier s.tree t.tree
      → Good r t
  later s t q h fits inside e = record {
    fits = fits;
    inside = inside;
    queued =
        subst (λ y. Queued session.p.ops t.tree y t.machine.history) (sym q.queue)
          (subst (Queued session.p.ops t.tree s.world.queue) (sym q.history)
            (Queued-later session.p.ops e h.queued));
  }

  -- A change that leaves the shape of the tree alone.
  pub reshaped :
      {x r : Ref} (s t : Run (Stage W))
      → SameQueue s t
      → SameShape s.tree t.tree
      → Good x s
      → r < s.tree.size
      → Good r t
  reshaped s t q same h lt =
      later s t q h (IsWellFormed-shape same h.fits) (omega (arith, lt, same.size))
        (SameShape→Earlier same)

  -- What a transition does to the machine: nothing where it is refused, and else one entry more.
  data Moved (target : Phase) (d : Note) (s : Run (Stage W))
      : Result (Unit {0}) × Run (Stage W) → Type 0 where
    refused : (e : Fault) → Moved target d s (raise e, s)
    accepted :
        (r : PhaseTransition) (w : W)
        → r.target ≡ target
        → r.note ≡ d
        → Moved target d s (
          ok tt,
          record s {
            machine = record { phase = target; history = s.machine.history ++ r ∷ [] };
            world = record s.world { world = w };
          },
        )

  move-Moved :
      (target : Phase) (d : Note) (s : Run (Stage W))
      → Moved target d s (move (streamed session) target d s)
  unfolding move streamed beside transition
  move-Moved target d s = elim (Bool-cases (can_transition s.machine target)) [
    | inl e ↦
        let made =
          transition-allowed ((streamed session).monotonic s.world).0 target d s.machine e in
        rw (made, move, made) (accepted _ (session.p.monotonic s.world.world).1 refl refl)
    | inr e ↦ rw (e, move, transition) (refused _)
  ]

  pub advance-Follows :
      (x : Ref) (target : Phase) (id : Option Text) (d : Note)
      → Keeps (Follows x) (advance (streamed session) target id d)
  unfolding advance ◌>>=◌ notify streamed policy_call
  advance-Follows x target id d = record { at = λ s. go s _ (move-Moved target d s) refl }
    where
      go :
          (s : Run (Stage W)) (y : Result (Unit {0}) × Run (Stage W))
          → Moved target d s y
          → move (streamed session) target d s ≡ y
          → Follows x s (advance (streamed session) target id d s).1
      go s _ (refused e) q h = rw (q, advance, ◌>>=◌) h
      go s _ (accepted r w t n) q h =
          rw (q, advance, ◌>>=◌)
            (record {
              fits = h.fits;
              inside = h.inside;
              queued =
                  sink-Queued session s.tree h.fits _ (record s.world { world = w })
                    s.machine.history r (record { phase = sym t; detail = sym n }) h.queued;
            })

  -- Nothing but a transition touches the queue or the history.
  pub streamed-Closed : Closed SameQueue (streamed session)
  unfolding streamed beside beside_node critic_beside revision_beside reward_beside
  streamed-Closed = record {
    order = SameQueue-order;
    trees = λ s t. record { queue = refl; history = refl };
    generate = λ t r k s. record { queue = refl; history = refl };
    evaluate = λ t r s. record { queue = refl; history = refl };
    critique = critique_of session.p.critique;
    revise = revise_of session.p.revise;
    shape = shape_of session.p.shape;
    random = λ s. record { queue = refl; history = refl };
    pool_order = λ rs s. record { queue = refl; history = refl };
  }
    where
      critique_of :
          (o : Option (Tree → Ref → W → Result (Option Critique) × W))
          → OnSome
              (λ f.
                (t : Tree) (r : Ref) (s : Run (Stage W))
                → SameQueue s (record s { world = (f t r s.world).1 }))
              (critic_beside session o)
      critique_of none = tt
      critique_of (some f) = λ t r s. record { queue = refl; history = refl }

      revise_of :
          (o : Option (Tree → Ref → W → Result Bool × Metadata × W))
          → OnSome
              (λ f.
                (t : Tree) (r : Ref) (s : Run (Stage W))
                → SameQueue s (record s { world = (f t r s.world).2 }))
              (revision_beside session o)
      revise_of none = tt
      revise_of (some f) = λ t r s. record { queue = refl; history = refl }

      shape_of :
          (o : Option (Tree → Ref → Float → Option Critique → W → Result Float × Metadata × W))
          → OnSome
              (λ f.
                (t : Tree) (r : Ref) (x : Float) (k : Option Critique) (s : Run (Stage W))
                → SameQueue s (record s { world = (f t r x k s.world).2 }))
              (reward_beside session o)
      shape_of none = tt
      shape_of (some f) = λ t r x k s. record { queue = refl; history = refl }

  module _ (r : Ref) where
    pub call_of :
        {A : Type 0} (o : Option (W → A × W))
        → OnSome
            (λ f. (s : Run (Stage W)) → Follows r s (record s { world = (f s.world).1 }))
            (call_beside session o)
    unfolding call_beside beside
    call_of none = tt
    call_of (some f) = λ s h. record { fits = h.fits; inside = h.inside; queued = h.queued }
