-- ===== src/Compaction/Invalidation.antt =====
-- crates/compaction/src/lib.rs: an epoch that a fork or a revert invalidated.
use zmodbit.Prelude.{
  ◌≡◌, refl, none, some, List, [], ◌∷◌, ℕ, Text, push, map, Result, ok, err, Bool-cases,
  Option-cases, inl, inr, arith,
}
use zmodbit.Compaction.Epochs.{
  ContextEpoch, EpochError, invalidated, EpochRegistry, epoch_named, apply, require_live, is_ahead,
  revert_epoch, fork_or_revert, create, compacted, compact,
}

-- The first epoch of that name was invalidated for that reason.
abbrev IsDead : Text → Text → EpochRegistry → Type 0
IsDead id reason epochs =
    (e : ContextEpoch) × (epoch_named id epochs ≡ some e) × (e.superseded_by ≡ some reason)

apply-IsDead :
    (id reason : Text) (epochs : EpochRegistry)
    → IsDead id reason epochs
    → apply id epochs ≡ err (invalidated id reason)
unfolding apply require_live
apply-IsDead id reason epochs (e, found, dead) = ground (arith, found, dead)

apply_err-IsDead :
    (id reason : Text) (epochs : EpochRegistry)
    → apply id epochs ≡ err (invalidated id reason)
    → IsDead id reason epochs
unfolding apply require_live
apply_err-IsDead id reason epochs h = elim (Option-cases (epoch_named id epochs)) [
  | inl none_named ↦ absurd (ground arith)
  | inr (e, found) ↦ elim (Option-cases e.superseded_by) [
    | inl alive ↦ absurd (ground arith)
    | inr (by, dead) ↦ (e, found, ground arith)
  ]
]

epoch_named-push :
    (id : Text) (epochs : EpochRegistry) (new e : ContextEpoch)
    → epoch_named id epochs ≡ some e
    → epoch_named id (push epochs new) ≡ some e
epoch_named-push id [] new e h = absurd (ground arith)
epoch_named-push id (d ∷ epochs) new e h = ground (arith, epoch_named-push id epochs new e)

IsDead-push :
    (id reason : Text) (epochs : EpochRegistry) (new : ContextEpoch)
    → IsDead id reason epochs
    → IsDead id reason (push epochs new)
IsDead-push id reason epochs new (e, found, dead) =
    (e, epoch_named-push id epochs new e found, dead)

epoch_named-revert :
    (id cause : Text) (r : ℕ) (epochs : EpochRegistry)
    → epoch_named id (map (revert_epoch r cause) epochs)
      ≡ elim (epoch_named id epochs) [ some e ↦ some (revert_epoch r cause e) | none ↦ none ]
epoch_named-revert id cause r [] = refl
epoch_named-revert id cause r (e ∷ epochs) = elim (Bool-cases (is_ahead e r e.superseded_by)) [
  | inl q ↦ ground (arith, epoch_named-revert id cause r epochs)
  | inr q ↦ ground (arith, epoch_named-revert id cause r epochs)
]

revert_epoch-dead :
    (r : ℕ) (cause reason : Text) (e : ContextEpoch)
    → e.superseded_by ≡ some reason
    → revert_epoch r cause e ≡ e
revert_epoch-dead r cause reason e h = ground (arith, h)

IsDead-revert :
    (id reason cause : Text) (r : ℕ) (epochs : EpochRegistry)
    → IsDead id reason epochs
    → IsDead id reason (map (revert_epoch r cause) epochs)
IsDead-revert id reason cause r epochs (e, found, dead) = (
  e,
  ground
      (arith, epoch_named-revert id cause r epochs, revert_epoch-dead r cause reason e dead, found),
  dead,
)

-- The calls of a registry.
pub data EpochCall : Type 0 where
  creating : (base_revision : ℕ) (projection : Text) → EpochCall
  compacting : (parent_id : Text) (base_revision : ℕ) (projection : Text) → EpochCall
  reverting : (new_revision : ℕ) (cause : Text) → EpochCall

module _ (sha256_hex : Text → Text) where
  abbrev pub run_call : EpochCall → EpochRegistry → EpochRegistry
  run_call (creating base projection) epochs = (create sha256_hex base projection epochs).1
  run_call (compacting parent base projection) epochs =
      (compact sha256_hex parent base projection epochs).1
  run_call (reverting r cause) epochs = (fork_or_revert r cause epochs).1

  abbrev pub run_calls : List EpochCall → EpochRegistry → EpochRegistry
  run_calls [] epochs = epochs
  run_calls (c ∷ cs) epochs = run_calls cs (run_call c epochs)

  compacted-IsDead :
      (id reason parent : Text) (base : ℕ) (projection : Text) (epochs : EpochRegistry)
      (r : Result EpochError (Unit {0}))
      → IsDead id reason epochs
      → IsDead id reason (compacted sha256_hex parent base projection epochs r).1
  compacted-IsDead id reason parent base projection epochs (ok u) d =
      IsDead-push id reason epochs _ d
  compacted-IsDead id reason parent base projection epochs (err e) d = d

  run_call-IsDead :
      (c : EpochCall) (id reason : Text) (epochs : EpochRegistry)
      → IsDead id reason epochs
      → IsDead id reason (run_call c epochs)
  unfolding create compact fork_or_revert
  run_call-IsDead (creating base projection) id reason epochs d = IsDead-push id reason epochs _ d
  run_call-IsDead (compacting parent base projection) id reason epochs d =
      compacted-IsDead id reason parent base projection epochs _ d
  run_call-IsDead (reverting r cause) id reason epochs d = IsDead-revert id reason cause r epochs d

  -- An epoch that was invalidated is never applied again, whatever is called, and a new epoch of its name, which the
  -- same projection gives, is not applied either.
  pub invalidated_forever :
      (id reason : Text) (epochs : EpochRegistry) (cs : List EpochCall)
      → apply id epochs ≡ err (invalidated id reason)
      → apply id (run_calls cs epochs) ≡ err (invalidated id reason)
  invalidated_forever id reason epochs [] h = h
  invalidated_forever id reason epochs (c ∷ cs) h =
      invalidated_forever id reason (run_call c epochs) cs (
        apply-IsDead id reason (run_call c epochs)
          (run_call-IsDead c id reason epochs (apply_err-IsDead id reason epochs h)))
