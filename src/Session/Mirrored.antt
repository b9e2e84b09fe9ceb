-- ===== src/Session/Mirrored.antt =====
-- The queue of a streamed run (`sink` of cognitivetree/session.py) beside the history of the state
-- machine.
use cognitive_tree_ai.Prelude.{
  ◌≡◌, refl, sym, ap, ◌∙◌, Float, FloatOps, true, false, Bool-cases, inl, inr, Option, some, List,
  [], ◌∷◌, ◌++◌,
}
use cognitive_tree_ai.Faults.{ok}
use cognitive_tree_ai.State.{PhaseTransition}
use cognitive_tree_ai.Tree.{Tree, len}
use cognitive_tree_ai.Tree.WellFormed.{IsWellFormed}
use cognitive_tree_ai.Tree.Earlier.{Earlier, Earlier-refl, Earlier-trans}
use cognitive_tree_ai.Tree.Payload.Written.{tree_to_dict-Describes}
use cognitive_tree_ai.Tree.Payload.{Snapshot, tree_to_dict}
use cognitive_tree_ai.Policies.{SearchEvent}
use cognitive_tree_ai.Envelopes.{Envelope, phase_envelope, snapshot_envelope}
use cognitive_tree_ai.Session.{ReasoningSession, Stage, is_snapshot_phase, put, put_snapshot, sink}

-- The envelope tells of the transition.
pub record Tells (event : SearchEvent) (r : PhaseTransition) : Type 0 where
  pub phase : event.phase ≡ r.target
  pub detail : event.detail ≡ r.note

-- What the stream carries of one transition: its envelope, and behind that, exactly where the phase
-- calls for it, a snapshot of a tree that `P` holds of.
pub data Announces (ops : FloatOps) (P : Tree → Type 0) (r : PhaseTransition)
    : List Envelope → Type 0 where
  plain :
      (event : SearchEvent) (now : Float)
      → Tells event r
      → is_snapshot_phase r.target ≡ false
      → Announces ops P r (phase_envelope event now ∷ [])
  pictured :
      (event : SearchEvent) (now later : Float) (t : Tree) (snapshot : Snapshot)
      → Tells event r
      → is_snapshot_phase r.target ≡ true
      → P t
      → tree_to_dict ops false t ≡ ok snapshot
      → Announces ops P r (phase_envelope event now ∷ snapshot_envelope snapshot later ∷ [])

-- The envelopes tell of the transitions one by one, in their order.
pub data Mirrors (ops : FloatOps) (P : Tree → Type 0)
    : List Envelope → List PhaseTransition → Type 0 where
  idle : Mirrors ops P [] []
  entered :
      {es new : List Envelope} {history : List PhaseTransition} (r : PhaseTransition)
      → Mirrors ops P es history
      → Announces ops P r new
      → Mirrors ops P (es ++ new) (history ++ r ∷ [])

module _ (ops : FloatOps) {P Q : Tree → Type 0} (weaker : (t : Tree) → P t → Q t) where
  Announces-map :
      {r : PhaseTransition} {es : List Envelope} → Announces ops P r es → Announces ops Q r es
  Announces-map (plain event now tells e) = plain event now tells e
  Announces-map (pictured event now later t snapshot tells e h q) =
      pictured event now later t snapshot tells e (weaker t h) q

  pub Mirrors-map :
      {es : List Envelope} {history : List PhaseTransition}
      → Mirrors ops P es history
      → Mirrors ops Q es history
  Mirrors-map idle = idle
  Mirrors-map (entered r m a) = entered r (Mirrors-map m) (Announces-map a)

-- The envelopes as they lie in the queue.
unfoldable pub wrap : List Envelope → List (Option Envelope)
wrap [] = []
wrap (e ∷ es) = some e ∷ wrap es

pub wrap-append : (xs ys : List Envelope) → wrap (xs ++ ys) ≡ wrap xs ++ wrap ys
unfolding wrap
wrap-append [] ys = refl
wrap-append (x ∷ xs) ys = ap (◌∷◌ (some x)) (wrap-append xs ys)

pub append_two : {A : Type 0} (xs : List A) (x y : A) → (xs ++ x ∷ []) ++ y ∷ [] ≡ xs ++ x ∷ y ∷ []
append_two [] x y = refl
append_two (z ∷ xs) x y = ap (◌∷◌ z) (append_two xs x y)

-- A well-formed tree that is an earlier form of `u`: its nodes are in `u`, at their places.
abbrev pub FormOf : Tree → Tree → Type 0
FormOf u t = IsWellFormed t × Earlier t u

-- The queue mirrors a history, with snapshots of earlier forms of the tree.
pub record Queued (ops : FloatOps) (u : Tree) (q : List (Option Envelope))
    (history : List PhaseTransition) : Type 0 where
  pub seen : List Envelope
  pub queued : q ≡ wrap seen
  pub mirrors : Mirrors ops (FormOf u) seen history

-- The queue as it is, beside a later form of the tree.
pub Queued-later :
    (ops : FloatOps) {t u : Tree} {q : List (Option Envelope)} {history : List PhaseTransition}
    → Earlier t u
    → Queued ops t q history
    → Queued ops u q history
Queued-later ops e h = record {
  seen = h.seen;
  queued = h.queued;
  mirrors = Mirrors-map ops (λ x k. (k.0, Earlier-trans k.1 e)) h.mirrors;
}

module _ {W : Type 0} (session : ReasoningSession W) (t : Tree) (fits : IsWellFormed t) where
  extend :
      (q : List (Option Envelope)) (history : List PhaseTransition) (r : PhaseTransition)
      (new : List Envelope)
      → Queued session.p.ops t q history
      → Announces session.p.ops (FormOf t) r new
      → Queued session.p.ops t (q ++ wrap new) (history ++ r ∷ [])
  extend q history r new h a = record {
    seen = h.seen ++ new;
    queued = ap (λ x. x ++ wrap new) h.queued ∙ sym (wrap-append h.seen new);
    mirrors = entered r h.mirrors a;
  }

  -- The sink announces the transition that it is told of.
  pub sink-Queued :
      (event : SearchEvent) (s : Stage W) (history : List PhaseTransition) (r : PhaseTransition)
      → Tells event r
      → Queued session.p.ops t s.queue history
      → Queued session.p.ops t (sink session event t s).1.queue (history ++ r ∷ [])
  unfolding sink put put_snapshot wrap
  sink-Queued event s history r tells h =
      let (now, w) = session.clock s.world in
      let later = (session.clock w).0 in
      elim (Bool-cases (is_snapshot_phase event.phase)) [
        | inr e ↦
            rw (e, sink)
              (extend s.queue history r (phase_envelope event now ∷ []) h
                (plain event now tells (ap is_snapshot_phase (sym tells.phase) ∙ e)))
        | inl e ↦
            let (root, good, d) = tree_to_dict-Describes session.p.ops false t fits in
            let snapshot : Snapshot = record { size = len t; root = root } in
            rw (e, sink, good, append_two s.queue _ _)
              (extend s.queue history r
                (phase_envelope event now ∷ snapshot_envelope snapshot later ∷ []) h
                (pictured event now later t snapshot tells
                  (ap is_snapshot_phase (sym tells.phase) ∙ e) (fits, Earlier-refl t) good))
      ]
