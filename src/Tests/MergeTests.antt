-- ===== src/Tests/MergeTests.antt =====
-- Runs of merge transactions over a repository that accepts everything, and over one that cannot commit.
use zmodbit.Prelude.{
  ◌≡◌, refl, none, some, [], ◌∷◌, Text, bytes, Bool, true, false, Result, ok, err,
}
use zmodbit.Workspace.Merge.{
  Git, MergeTransaction, committed, merged, new, recorded, has_failed, open_and_merge,
  record_validation, commit, load, throw, pure, on_repo, save, ◌>>=◌,
}
use zmodbit.Workspace.Merges.{IsMade}
use zmodbit.Workspace.Transactions.{opening, checking, committing, run_calls, committed_validated}

-- A repository is the number of its commits, in unary.
abbrev git : Bool → Git Text Text
git commits = record {
  merge_base = λ a b r. (ok r, r);
  checkout = λ b r. (ok tt, r);
  head = λ r. (ok r, r);
  start_merge = λ b r. (ok merged, r);
  conclude_merge = λ m r. concluded commits r;
  stage_path = λ p r. (ok tt, r);
  abort_merge_state = λ r. (ok tt, r);
  reset_hard = λ t r. (ok tt, t);
}
  where
    concluded : Bool → Text → Result Text (Unit {0}) × Text
    concluded true r = (ok tt, 1 ∷ r)
    concluded false r = (err (bytes "nothing to commit"), r)

abbrev feature : Text
feature = bytes "feature"

landed : MergeTransaction
unfolding new
landed = record (recorded (bytes "tx") feature (bytes "main") [] []) {
  phase = committed;
  validation = (bytes "tests", true) ∷ [];
  commit_sha = some (1 ∷ []);
}

landed_stored :
    (run_calls
      (git true)
      (opening (bytes "tx") feature (bytes "main")
        ∷ checking (bytes "tests") true
        ∷ committing
        ∷ [])
      (record { repo = []; stored = none })).stored
    ≡ some landed
unfolding landed new open_and_merge record_validation commit load throw pure on_repo save ◌>>=◌
landed_stored = refl

committed_validated_example :
    IsMade landed.commit_sha × (landed.conflicts ≡ []) × (has_failed landed ≡ false)
unfolding landed
committed_validated_example =
    committed_validated (git true)
      (opening (bytes "tx") feature (bytes "main")
        ∷ checking (bytes "tests") true
        ∷ committing
        ∷ [])
      [] landed landed_stored refl
