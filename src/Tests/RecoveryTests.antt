-- ===== src/Tests/RecoveryTests.antt =====
-- A delta journal, a paged output, a terminal log and an epoch registry, and the instances of their theorems.
use zmodbit.Prelude.{◌≡◌, refl, none, some, [], ◌∷◌, bytes, drop, ok, err, text_eq, arith}
use zmodbit.Checkpoint.Delta.{DeltaJournal, Restored, restore, restore-Restored}
use zmodbit.Tools.Pages.{read_pages, read_pages-drop}
use zmodbit.Tools.Tail.{ReplayCursor}
use zmodbit.Compaction.Epochs.{
  EpochRegistry, apply, create, fork_or_revert, invalidated, require_live,
}
use zmodbit.Compaction.Invalidation.{creating, reverting, run_calls, invalidated_forever}

-- An edit of a file and the deletion of another one, after which it is deleted again.
abbrev journal : DeltaJournal
journal = record {
  baseline = (bytes "a", bytes "1") ∷ (bytes "b", bytes "2") ∷ [];
  deltas =
      record { path = bytes "a"; content = some (bytes "3") }
      ∷ record { path = bytes "b"; content = none }
      ∷ record { path = bytes "b"; content = none }
      ∷ [];
  cursors = record { runtime_seq = 4; evidence_seq = 5 };
}

restore-Restored_example : Restored journal (restore journal)
restore-Restored_example = restore-Restored journal

read_pages-drop_example :
    read_pages (λ t. t) (λ t. t) 9 (bytes "out") (bytes "123456789") 0 4
    ≡ some (ok (drop 0 (bytes "123456789")))
read_pages-drop_example =
    read_pages-drop (λ t. t) (λ t. t) (bytes "out") (bytes "123456789") 4 (omega arith) 9 0
      (omega arith) (omega arith)

abbrev cursor : ReplayCursor
cursor = record { run_id = bytes "r"; offset = 2 }

-- An epoch at revision 7 that a revert to revision 3 invalidated.
reverted : EpochRegistry
unfolding create fork_or_revert
reverted = (fork_or_revert 3 (bytes "revert") (create (λ t. t) 7 (bytes "projection") []).1).1

invalidated_forever_example :
    apply (bytes "epoch-projection") (
      run_calls
        (λ t. t)
        (creating 8 (bytes "projection") ∷ reverting 9 (bytes "fork") ∷ [])
        reverted)
    ≡ err (invalidated (bytes "epoch-projection") (bytes "revert"))
unfolding reverted apply require_live text_eq
invalidated_forever_example =
    invalidated_forever (λ t. t) (bytes "epoch-projection") (bytes "revert") reverted
      (creating 8 (bytes "projection") ∷ reverting 9 (bytes "fork") ∷ []) refl
