-- ===== src/Compaction/Epochs.antt =====
-- crates/compaction/src/lib.rs: the registry of context epochs. SHA-256 in hexadecimal is the parameter `sha256_hex`.
use zmodbit.Prelude.{
  Option, none, some, List, [], ◌∷◌, ◌++◌, ℕ, Bool, false, Text, text_eq, bytes, take, push, find,
  ltb, map, Result, ok, err, ◌>>◌, ok_or, if◌then◌else◌,
}

pub record ContextEpoch : Type 0 where
  pub epoch_id : Text
  pub base_revision : ℕ
  pub parent_epoch : Option Text
  pub projection_digest : Text
  pub superseded_by : Option Text

pub data EpochError : Type 0 where
  invalidated : (epoch_id reason : Text) → EpochError
  unknown_epoch : (epoch_id : Text) → EpochError

-- The epochs in the order of their creation.
abbrev pub EpochRegistry : Type 0
EpochRegistry = List ContextEpoch

abbrev pub epoch_named : Text → EpochRegistry → Option ContextEpoch
epoch_named epoch_id = find λ e. text_eq e.epoch_id epoch_id

abbrev pub check_live : Text → Option ContextEpoch → Result EpochError (Unit {0})
check_live epoch_id none = err (unknown_epoch epoch_id)
check_live epoch_id (some e) = elim e.superseded_by [
  | none ↦ ok tt
  | some by ↦ err (invalidated epoch_id by)
]

unfoldable pub require_live : Text → EpochRegistry → Result EpochError (Unit {0})
require_live epoch_id epochs = check_live epoch_id (epoch_named epoch_id epochs)

-- The search finds what the check found, so the source's `expect` holds.
unfoldable pub apply : Text → EpochRegistry → Result EpochError ContextEpoch
unfolding require_live
apply epoch_id epochs =
    require_live epoch_id epochs >> ok_or (epoch_named epoch_id epochs) (unknown_epoch epoch_id)

abbrev pub is_ahead : ContextEpoch → ℕ → Option Text → Bool
is_ahead e new_revision none = ltb new_revision e.base_revision
is_ahead e new_revision (some by) = false

abbrev pub revert_epoch : ℕ → Text → ContextEpoch → ContextEpoch
revert_epoch new_revision cause e =
    if is_ahead e new_revision e.superseded_by then record e { superseded_by = some cause } else e

abbrev pub invalidated_ids : ℕ → EpochRegistry → List Text
invalidated_ids new_revision [] = []
invalidated_ids new_revision (e ∷ es) =
    if is_ahead e new_revision e.superseded_by
    then e.epoch_id ∷ invalidated_ids new_revision es
    else invalidated_ids new_revision es

unfoldable pub fork_or_revert : ℕ → Text → EpochRegistry → List Text × EpochRegistry
fork_or_revert new_revision cause epochs =
    (invalidated_ids new_revision epochs, map (revert_epoch new_revision cause) epochs)

module _ (sha256_hex : Text → Text) where
  abbrev pub epoch_of : ℕ → Option Text → Text → ContextEpoch
  epoch_of base_revision parent projection = record {
    epoch_id = bytes "epoch-" ++ take 12 (sha256_hex projection);
    base_revision = base_revision;
    parent_epoch = parent;
    projection_digest = sha256_hex projection;
    superseded_by = none;
  }

  unfoldable pub create : ℕ → Text → EpochRegistry → ContextEpoch × EpochRegistry
  create base_revision projection epochs =
      (epoch_of base_revision none projection, push epochs (epoch_of base_revision none projection))

  abbrev pub compacted :
      Text
      → ℕ
      → Text
      → EpochRegistry
      → Result EpochError (Unit {0})
      → Result EpochError ContextEpoch × EpochRegistry
  compacted parent_id base_revision projection epochs (err e) = (err e, epochs)
  compacted parent_id base_revision projection epochs (ok u) =
      let epoch = epoch_of base_revision (some parent_id) projection in
      (ok epoch, push epochs epoch)

  unfoldable pub compact :
      Text → ℕ → Text → EpochRegistry → Result EpochError ContextEpoch × EpochRegistry
  compact parent_id base_revision projection epochs =
      compacted parent_id base_revision projection epochs (require_live parent_id epochs)
