-- ===== src/Examples/Documents.antt =====
-- The theorems on documents at concrete inputs.
use cognitive_tree_ai.Prelude.{◌≡◌, refl, true}
use cognitive_tree_ai.Faults.{ok}
use cognitive_tree_ai.Tree.{len}
use cognitive_tree_ai.Tree.Payload.{Snapshot, tree_to_dict, tree_from_dict}
use cognitive_tree_ai.Tree.Payload.RoundTrip.{tree_to_dict-tree_from_dict}
use cognitive_tree_ai.Scenarios.{numbers, pair, pair-IsWellFormed}

tree_to_dict-tree_from_dict_example :
    (s : Snapshot) × (tree_to_dict numbers true pair ≡ ok s)
    × (tree_to_dict numbers true (tree_from_dict s)
        ≡ ok (record { size = len (tree_from_dict s); root = s.root }))
tree_to_dict-tree_from_dict_example =
    tree_to_dict-tree_from_dict numbers true (λ x. refl) pair pair-IsWellFormed
