-- ===== src/Persistence/Replay/Retold.antt =====
-- The replay of an archive (cognitivetree/persistence/replay.py) beside the recorded history.
use cognitive_tree_ai.Prelude.{
  ℕ, ◌<◌, ◌≡◌, ◌∙◌, refl, sym, ap, subst, Float, FloatOps, Text, text_eq, Bool, true, false,
  Bool-cases, inl, inr, Option, none, some, List, [], ◌∷◌, ◌++◌, ◌==◌,
}
use mathlib.Core.List.{append_assoc, append-nil}
use cognitive_tree_ai.Faults.{Fault, Result, ok, raise}
use cognitive_tree_ai.State.{PhaseTransition}
use cognitive_tree_ai.Node.{Ref}
use cognitive_tree_ai.Tree.{Tree, len}
use cognitive_tree_ai.Policies.{SearchEvent}
use cognitive_tree_ai.Tree.Payload.{Snapshot, tree_to_dict, tree_from_dict}
use cognitive_tree_ai.Tree.Payload.Written.{node_to_dict-Describes}
use cognitive_tree_ai.Tree.Payload.Restored.{node_from_dict-Stands}
use cognitive_tree_ai.Envelopes.{
  Envelope, phase_envelope, snapshot_envelope, metrics_envelope, result_envelope,
}
use cognitive_tree_ai.Persistence.{
  ArchiveDocument, RunArchive, archive_format, archive_version, rehydrated, archive_from_document,
}
use cognitive_tree_ai.Session.{is_snapshot_phase}
use cognitive_tree_ai.Session.Mirrored.{Mirrors, entered, Tells, plain, pictured}
use cognitive_tree_ai.Persistence.Replay.{
  Yields, first, iteration_for, yield_snapshot, yield_picture, retell, archived_metrics,
  yield_closing, retell_all, replay,
}

-- A tree that is built of a document can be written again.
rewritten :
    (ops : FloatOps) (b : Bool) (s : Snapshot)
    → (p : Snapshot) × (tree_to_dict ops b (tree_from_dict s) ≡ ok p)
unfolding tree_to_dict tree_from_dict
rewritten ops b s =
    let u = tree_from_dict s in
    let (stands, root, inhabited, ascending) = node_from_dict-Stands s.root in
    let (p, e, d) =
      node_to_dict-Describes ops b u ascending u.root
        (subst (λ r. r < u.size) (sym root) inhabited) in
    (record { size = len u; root = p }, rw e refl)

-- The tree of a run that is read back is built of the document.
tree-archive_from_document :
    (d : ArchiveDocument) (a : RunArchive)
    → archive_from_document d ≡ ok a
    → a.result.tree ≡ tree_from_dict d.tree
unfolding archive_from_document
tree-archive_from_document d a e = elim (Bool-cases (text_eq d.format archive_format)) [
  | inr q ↦ absurd (cc (rw q at e))
  | inl q ↦ elim (Bool-cases (d.version == archive_version)) [
    | inr k ↦ absurd (cc (rw (q, k) at e))
    | inl k ↦ of _ (rw (q, k) at e)
  ]
]
  where
    of :
        (x : Result (List Ref))
        → rehydrated d (tree_from_dict d.tree) x ≡ ok a
        → a.result.tree ≡ tree_from_dict d.tree
    of (raise x) q = cc
    of (ok path) q = cc

module _ {W : Type 0} (ops : FloatOps) (clock : W → Float × W) (sleep : Float → W → W)
    (speed : Option Float) (payload : Snapshot) (rest : W → Yields W) where
  -- The tree that the archived document is read as.
  abbrev Archived : Tree → Type 0
  Archived t = t ≡ tree_from_dict payload

  -- What is yielded first, and then what follows.
  abbrev behind : List Envelope → Yields W → Yields W
  behind told (es, result, w) = (told ++ es, result, w)

  -- The loop yields envelopes that go on where those before it end, and then what follows it.
  record Goes (seen : List Envelope) (done history : List PhaseTransition) (y : Yields W)
      : Type 0 where
    told : List Envelope
    after : W
    yields : y ≡ behind told (rest after)
    mirrors : Mirrors ops Archived (seen ++ told) (done ++ history)

  -- One transition, with what the stream carries of it, and then the others.
  told_first :
      (r : PhaseTransition) (history : List PhaseTransition) (new seen : List Envelope)
      (done : List PhaseTransition) (y : Yields W)
      → Goes (seen ++ new) (done ++ r ∷ []) history y
      → Goes seen done (r ∷ history) (behind new y)
  told_first r history new seen done y g = record {
    told = new ++ g.told;
    after = g.after;
    yields =
        ap (behind new) g.yields
        ∙ ap (λ es. (es, (rest g.after).1, (rest g.after).2))
            (sym (append_assoc new g.told (rest g.after).0));
    mirrors =
        subst (λ es. Mirrors ops Archived es (done ++ r ∷ history)) (append_assoc seen new g.told)
          (subst (Mirrors ops Archived ((seen ++ new) ++ g.told))
            (append_assoc done (r ∷ []) history) g.mirrors);
  }

  announced :
      (r : PhaseTransition) (history : List PhaseTransition) (event : SearchEvent) (now : Float)
      (k : W → Yields W) (b : Bool) (w : W) (seen : List Envelope) (done : List PhaseTransition)
      → is_snapshot_phase r.target ≡ b
      → Tells event r
      → Mirrors ops Archived seen done
      → ((w : W) (seen : List Envelope) (done : List PhaseTransition)
          → Mirrors ops Archived seen done
          → Goes seen done history (k w))
      → Goes seen done
          (r ∷ history)
          (first (phase_envelope event now) (yield_picture ops clock sleep b payload k w))
  unfolding yield_picture
  announced r history event now k false w seen done e tells m onwards =
      told_first r history (phase_envelope event now ∷ []) seen done (k w) (
        onwards w (seen ++ phase_envelope event now ∷ []) (done ++ r ∷ [])
          (entered r m (plain event now tells e)))
  announced r history event now k true w seen done e tells m onwards =
      let (p, good) = rewritten ops false payload in
      let (later, w') = clock w in
      let new = phase_envelope event now ∷ snapshot_envelope p later ∷ [] in
      let g = told_first r history new seen done (k w') (
        onwards w' (seen ++ new) (done ++ r ∷ [])
          (entered r m (pictured event now later (tree_from_dict payload) p tells e refl good))) in
      subst
        (λ x.
          Goes seen done (r ∷ history)
            (first (phase_envelope event now) (yield_snapshot ops clock sleep x k w)))
        (sym good) (unfold yield_snapshot in g)

  retell-Goes :
      (previous : Option Float) (n : ℕ) (history : List PhaseTransition) (w : W)
      (seen : List Envelope) (done : List PhaseTransition)
      → Mirrors ops Archived seen done
      → Goes seen done history (retell ops clock sleep speed payload previous n history rest w)
  unfolding retell
  retell-Goes previous n [] w seen done m = record {
    told = [];
    after = w;
    yields = refl;
    mirrors =
        subst (λ es. Mirrors ops Archived es (done ++ [])) (sym (append-nil seen))
          (subst (Mirrors ops Archived seen) (sym (append-nil done)) m);
  }
  retell-Goes previous n (r ∷ history) w seen done m =
      announced r history _ _ _ _ _ seen done refl (record { phase = refl; detail = refl }) m
        (retell-Goes (some r.timestamp) (iteration_for r n) history)

-- The replay of a document that can be read ends without a fault. It tells of each transition of
-- the recorded history, in their order, and of nothing else. Behind exactly the phases that call
-- for one stands a snapshot of the tree that is rebuilt from the written tree of the archive. The
-- replay closes with the metrics and the result of the archived run.
pub replay-Retells :
    {W : Type 0} (ops : FloatOps) (clock : W → Float × W) (sleep : Float → W → W)
    (mentions : Text → Bool) (describe : Fault → Text) (d : ArchiveDocument) (a : RunArchive)
    (speed : Option Float) (w : W)
    → archive_from_document d ≡ ok a
    → (payload : Snapshot) × (es : List Envelope) × (now : Float) × (later : Float) × (after : W)
      × (replay ops clock sleep mentions describe (record { archive = a; speed = speed }) w ≡ (
        es
            ++ metrics_envelope
                (archived_metrics ops clock sleep mentions describe a.metrics a.result)
                now
              ∷ result_envelope a.result later
              ∷ [],
        ok tt,
        after,
      ))
      × (tree_to_dict ops true a.result.tree ≡ ok payload)
      × Mirrors ops (λ t. t ≡ tree_from_dict payload) es a.result.phase_history
unfolding replay retell_all yield_closing
replay-Retells ops clock sleep mentions describe d a speed w e =
    let (payload, written) = rewritten ops true d.tree in
    let good : tree_to_dict ops true a.result.tree ≡ ok payload =
      ap (tree_to_dict ops true) (tree-archive_from_document d a e) ∙ written in
    let close = yield_closing ops clock sleep mentions describe a in
    let g =
      retell-Goes ops clock sleep speed payload close none 0 a.result.phase_history w [] []
        Mirrors.idle in
    (
      payload,
      g.told,
      (clock g.after).0,
      (clock (clock g.after).1).0,
      (clock (clock g.after).1).1,
      rw good g.yields,
      good,
      g.mirrors,
    )
