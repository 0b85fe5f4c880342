-- ===== src/Effects/Chain.antt =====
-- crates/effects/src/lib.rs: Chain. The hash, SHA-256 in lowercase hex over the bytes fed to it, is a parameter.
use zmodbit.Prelude.{
  not, none, some, List, [], ◌∷◌, ◌++◌, ℕ, suc, Text, text_eq, bytes, take, push, last,
  if◌then◌else◌, Result, ok, err,
}

pub record EffectReceipt : Type 0 where
  pub receipt_id : Text
  pub prev_receipt_hash : Text
  pub approval_digest : Text
  pub capability_digest : Text
  pub call_digest : Text
  pub result_digest : Text
  pub chain_hash : Text

-- The digests that a receipt binds.
pub record Bound : Type 0 where
  pub approval : Text
  pub capability : Text
  pub call : Text
  pub result : Text

pub data ChainError : Type 0 where
  broken_link tampered : (index : ℕ) → ChainError

-- The bytes of the digests, in the order in which they are hashed.
abbrev pub bound_text : Bound → Text
bound_text b = b.approval ++ b.capability ++ b.call ++ b.result

abbrev pub bound_of : EffectReceipt → Bound
bound_of r = record {
  approval = r.approval_digest;
  capability = r.capability_digest;
  call = r.call_digest;
  result = r.result_digest;
}

-- The text of the genesis link.
abbrev pub genesis : Text
genesis = bytes "GENESIS"

unfoldable pub last_hash : List EffectReceipt → Text
last_hash rs = elim (last rs) [ none ↦ genesis | some r ↦ r.chain_hash ]

module _ (sha : Text → Text) where
  unfoldable pub chain_hash : Text → Bound → Text
  chain_hash prev b = sha (prev ++ bound_text b)

  abbrev pub receipt_for : Text → Bound → EffectReceipt
  receipt_for prev b =
      let hash = chain_hash prev b in
      record {
        receipt_id = bytes "receipt-" ++ take 12 hash;
        prev_receipt_hash = prev;
        approval_digest = b.approval;
        capability_digest = b.capability;
        call_digest = b.call;
        result_digest = b.result;
        chain_hash = hash;
      }

  unfoldable pub append : Bound → List EffectReceipt → EffectReceipt × List EffectReceipt
  append b rs = let r = receipt_for (last_hash rs) b in (r, push rs r)

  -- The loop of `verify` from receipt `index` on.
  unfoldable pub verify_from : ℕ → Text → List EffectReceipt → Result ChainError (Unit {0})
  verify_from index prev [] = ok tt
  verify_from index prev (r ∷ rs) =
      let rest = verify_from (suc index) r.chain_hash rs in
      if not (text_eq r.prev_receipt_hash prev)
      then err (broken_link index)
      else if not (text_eq r.chain_hash (chain_hash r.prev_receipt_hash (bound_of r)))
      then err (tampered index)
      else rest

  unfoldable pub verify : List EffectReceipt → Result ChainError (Unit {0})
  unfolding verify_from
  verify rs = verify_from 0 genesis rs
