-- ===== src/Workspace/Merge.antt =====
-- crates/workspace/src/merge_transaction.rs. The operations of crates/git, which run the git program, are the
-- parameter `Git`; each gives a result and the repository after it. The transaction file is the record it holds, or
-- none; errors of its I/O are not modelled.
use zmodbit.Prelude.{
  Option, none, some, List, [], ◌∷◌, ◌++◌, Bool, true, false, not, Text, text_eq, bytes, push,
  retain, any, Result, ok, err, if◌then◌else◌,
}
use Prim.Native.String.{String}

pub data MergePhase : Type 0 where
  opened conflicted validating committed rolled_back : MergePhase

pub record ConflictResolution : Type 0 where
  pub path : Text
  pub strategy : Text

pub record MergeTransaction : Type 0 where
  pub transaction_id : Text
  pub source_branch : Text
  pub target_branch : Text
  pub base_commit : Text
  pub target_head : Text
  pub phase : MergePhase
  pub conflicts : List Text
  pub resolutions : List ConflictResolution
  pub validation : List (Text × Bool)
  pub commit_sha : Option Text

-- `MergeTransaction::new`.
unfoldable pub new : Text → Text → Text → MergeTransaction
new transaction_id source_branch target_branch = record {
  transaction_id = transaction_id;
  source_branch = source_branch;
  target_branch = target_branch;
  base_commit = [];
  target_head = [];
  phase = opened;
  conflicts = [];
  resolutions = [];
  validation = [];
  commit_sha = none;
}

-- The record before the merge starts: the base and the rollback point.
abbrev pub recorded : Text → Text → Text → Text → Text → MergeTransaction
recorded transaction_id source_branch target_branch base tip =
    record (new transaction_id source_branch target_branch) {
      base_commit = base;
      target_head = tip;
    }

pub data MergeOutcome : Type 0 where
  merged : MergeOutcome
  conflict : (conflicted_files : List Text) → MergeOutcome

pub data MergeTransactionError (E : Type 0) : Type 0 where
  git : E → MergeTransactionError E
  already_open : (transaction_id : Text) → MergeTransactionError E
  no_open_transaction : MergeTransactionError E
  invalid_phase : (phase : MergePhase) (action : String) → MergeTransactionError E
  rollback_incomplete : MergeTransactionError E

-- What the transactions use of a repository `R` with errors `E`.
pub record Git (R E : Type 0) : Type 0 where
  pub merge_base : Text → Text → R → Result E Text × R
  pub checkout : Text → R → Result E (Unit {0}) × R
  pub head : R → Result E Text × R
  pub start_merge : Text → R → Result E MergeOutcome × R
  pub conclude_merge : Text → R → Result E (Unit {0}) × R
  pub stage_path : Text → R → Result E (Unit {0}) × R
  pub abort_merge_state : R → Result E (Unit {0}) × R
  pub reset_hard : Text → R → Result E (Unit {0}) × R

-- The repository and the transaction file in it.
pub record Workspace (R : Type 0) : Type 0 where
  pub repo : R
  pub stored : Option MergeTransaction

-- Code that reads and changes the workspace and may return an error.
abbrev pub Merging : Type 0 → Type 0 → Type 0 → Type 0
Merging R E A = Workspace R → Result (MergeTransactionError E) A × Workspace R

module _ {R E : Type 0} where
  abbrev pub next :
      {A B : Type 0}
      → (A → Merging R E B)
      → Result (MergeTransactionError E) A × Workspace R
      → Result (MergeTransactionError E) B × Workspace R
  next f (ok a, w) = f a w
  next f (err e, w) = (err e, w)

  infixl 5 ◌>>=◌ ◌>>◌
  unfoldable pub ◌>>=◌ : {A B : Type 0} → Merging R E A → (A → Merging R E B) → Merging R E B
  (m >>= f) w = next f (m w)

  abbrev pub ◌>>◌ : {B : Type 0} → Merging R E (Unit {0}) → Merging R E B → Merging R E B
  m >> k = m >>= λ _. k

  unfoldable pub pure : {A : Type 0} → A → Merging R E A
  pure a w = (ok a, w)

  unfoldable pub throw : {A : Type 0} → MergeTransactionError E → Merging R E A
  throw e w = (err e, w)

  abbrev pub ran :
      {A : Type 0} → Workspace R → Result E A × R → Result (MergeTransactionError E) A × Workspace R
  ran w (ok a, r) = (ok a, record w { repo = r })
  ran w (err e, r) = (err (git e), record w { repo = r })

  unfoldable pub on_repo : {A : Type 0} → (R → Result E A × R) → Merging R E A
  on_repo f w = ran w (f w.repo)

  unfoldable pub load : Merging R E (Option MergeTransaction)
  load w = (ok w.stored, w)

  unfoldable pub save : MergeTransaction → Merging R E (Unit {0})
  save tx w = (ok tt, record w { stored = some tx })

  unfoldable pub remove_file : Merging R E (Unit {0})
  remove_file w = (ok tt, record w { stored = none })

  -- The transaction that is stored.
  abbrev pub open_transaction : Option MergeTransaction → Merging R E MergeTransaction
  open_transaction (some tx) = pure tx
  open_transaction none = throw no_open_transaction

  -- A transaction that is not over keeps another one from starting.
  abbrev pub archive : Option MergeTransaction → Merging R E (Unit {0})
  archive none = pure tt
  archive (some existing) = elim existing.phase [
    | committed ↦ remove_file
    | rolled_back ↦ remove_file
    | opened ↦ throw (already_open existing.transaction_id)
    | conflicted ↦ throw (already_open existing.transaction_id)
    | validating ↦ throw (already_open existing.transaction_id)
  ]

abbrev pub message : MergeTransaction → Text
message tx =
    bytes "merge " ++ tx.source_branch ++ bytes " (transaction " ++ tx.transaction_id ++ bytes ")"

abbrev pub with_resolution : Text → Text → MergeTransaction → MergeTransaction
with_resolution path strategy tx = record tx {
  resolutions = push tx.resolutions (record { path = path; strategy = strategy });
  conflicts = retain (λ c. not (text_eq c path)) tx.conflicts;
}

abbrev pub has_failed : MergeTransaction → Bool
has_failed tx = any (λ v. not (v.1)) tx.validation

abbrev pub or_default : Option Text → Text
or_default none = []
or_default (some t) = t

-- The reset left the merge commit in place.
abbrev pub is_stuck : MergePhase → Text → Option Text → Bool
is_stuck validating head sha = text_eq head (or_default sha)
is_stuck phase head sha = false

module _ {R E : Type 0} (repo : Git R E) where
  -- The phase after the merge that git made.
  abbrev pub merge_outcome : MergeTransaction → MergeOutcome → Merging R E MergeTransaction
  merge_outcome tx merged = do
    on_repo (repo.conclude_merge (message tx))
    sha ← on_repo repo.head
    pure (record tx { phase = validating; commit_sha = some sha })
  merge_outcome tx (conflict conflicted_files) =
      pure (record tx { phase = conflicted; conflicts = conflicted_files })

  unfoldable pub open_and_merge : Text → Text → Text → Merging R E (MergeTransaction × MergeOutcome)
  unfolding new
  open_and_merge transaction_id source_branch target_branch = do
    existing ← load
    archive existing
    base ← on_repo (repo.merge_base source_branch target_branch)
    on_repo (repo.checkout target_branch)
    tip ← on_repo repo.head
    save (recorded transaction_id source_branch target_branch base tip)
    outcome ← on_repo (repo.start_merge source_branch)
    tx ← merge_outcome (recorded transaction_id source_branch target_branch base tip) outcome
    save tx
    pure (tx, outcome)

  -- The last resolution concludes the merge.
  abbrev pub conclude : MergeTransaction → List Text → Merging R E MergeTransaction
  conclude tx [] = do
    on_repo (repo.conclude_merge (message tx))
    sha ← on_repo repo.head
    pure (record tx { commit_sha = some sha; phase = validating })
  conclude tx (c ∷ cs) = pure tx

  abbrev pub resolve_in : Text → Text → MergeTransaction → MergePhase → Merging R E MergeTransaction
  resolve_in path strategy tx conflicted = do
    on_repo (repo.stage_path path)
    tx' ← conclude (with_resolution path strategy tx) (with_resolution path strategy tx).conflicts
    save tx'
    pure tx'
  resolve_in path strategy tx phase = throw (invalid_phase phase "record a resolution")

  unfoldable pub record_resolution : Text → Text → Merging R E MergeTransaction
  record_resolution path strategy = do
    stored ← load
    tx ← open_transaction stored
    resolve_in path strategy tx tx.phase

  abbrev pub validate_in :
      Text → Bool → MergeTransaction → MergePhase → Merging R E MergeTransaction
  validate_in gate passed tx validating = do
    save (record tx { validation = push tx.validation (gate, passed) })
    pure (record tx { validation = push tx.validation (gate, passed) })
  validate_in gate passed tx phase = throw (invalid_phase phase "record validation")

  unfoldable pub record_validation : Text → Bool → Merging R E MergeTransaction
  record_validation gate passed = do
    stored ← load
    tx ← open_transaction stored
    validate_in gate passed tx tx.phase

  abbrev pub commit_in : MergeTransaction → MergePhase → Merging R E MergeTransaction
  commit_in tx validating =
      if has_failed tx
      then throw (invalid_phase validating "commit with failed validations — roll back instead")
      else (do save (record tx { phase = committed }); pure (record tx { phase = committed }))
  commit_in tx phase = throw (invalid_phase phase "commit")

  unfoldable pub commit : Merging R E MergeTransaction
  commit = do stored ← load; tx ← open_transaction stored; commit_in tx tx.phase

  abbrev pub unwind : MergeTransaction → MergePhase → Merging R E (Unit {0})
  unwind tx conflicted = on_repo repo.abort_merge_state
  unwind tx validating = on_repo (repo.reset_hard tx.target_head)
  unwind tx phase = throw (invalid_phase phase "roll back")

  abbrev pub roll_out : MergeTransaction → Bool → Merging R E MergeTransaction
  roll_out tx true = throw rollback_incomplete
  roll_out tx false = do
    save (record tx { phase = rolled_back })
    pure (record tx { phase = rolled_back })

  unfoldable pub rollback : Merging R E MergeTransaction
  rollback = do
    stored ← load
    tx ← open_transaction stored
    unwind tx tx.phase
    head ← on_repo repo.head
    roll_out tx (is_stuck tx.phase head tx.commit_sha)

  unfoldable pub inspect : Merging R E (Option MergeTransaction)
  inspect = load
