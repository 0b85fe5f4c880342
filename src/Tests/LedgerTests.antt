-- ===== src/Tests/LedgerTests.antt =====
-- Runs of the effect ledger with a hash of 64 digits and an encoding in letters.
use Prim.Native.String.{String}
use zmodbit.Prelude.{
  arith, ◌≡◌, ◌≢◌, refl, ap, Option, none, some, List, [], ◌∷◌, ℕ, zero, suc, Text, bytes, ok,
}
use zmodbit.Effects.Chain.{
  EffectReceipt, Bound, genesis, last_hash, chain_hash, receipt_for, verify_from, verify,
}
use zmodbit.Effects.Ledger.{Codec, Ledger, open_file}
use zmodbit.Effects.Reopen.{IsRoundTrip, append_all, open_file-append_all}
use zmodbit.Tests.UnaryCodec.{
  encode_texts, decode_texts, decode_texts-encode_texts, encode_texts-IsLine,
  encode_texts-not_blank,
}

-- The digit of a number up to 9, and the first 64 digits that a text gives; `1` fills up.
abbrev digit : ℕ → ℕ
digit zero = 48
digit (suc n) = 49

abbrev digits : ℕ → Text → Text
digits zero t = []
digits (suc n) [] = 49 ∷ digits n []
digits (suc n) (c ∷ t) = digit c ∷ digits n t

abbrev toy_hash : Text → Text
toy_hash t = digits 64 t

abbrev fields : EffectReceipt → List Text
fields r =
    r.receipt_id ∷ r.prev_receipt_hash ∷ r.approval_digest ∷ r.capability_digest ∷ r.call_digest
    ∷ r.result_digest ∷ r.chain_hash ∷ []

abbrev receipt_of : List Text → Option EffectReceipt
receipt_of (i ∷ p ∷ a ∷ c ∷ k ∷ r ∷ h ∷ []) = some (record {
  receipt_id = i;
  prev_receipt_hash = p;
  approval_digest = a;
  capability_digest = c;
  call_digest = k;
  result_digest = r;
  chain_hash = h;
})
receipt_of _ = none

abbrev letters : Codec
letters = record {
  encode = λ r. encode_texts (fields r);
  decode = λ t. receipt_of (decode_texts t);
}

letters-IsRoundTrip : IsRoundTrip letters
letters-IsRoundTrip r = (
  ap receipt_of (decode_texts-encode_texts (fields r)),
  encode_texts-IsLine (fields r),
  encode_texts-not_blank (fields r),
)

abbrev bound : String → Bound
bound s = record {
  approval = bytes "approved";
  capability = bytes "fs";
  call = bytes s;
  result = bytes "ok";
}

abbrev two : Ledger
two =
    append_all toy_hash letters letters-IsRoundTrip (bound "x" ∷ bound "y" ∷ [])
      (record { file = none; receipts = [] })

open_file-append_all_example : open_file toy_hash letters two.file ≡ ok two
open_file-append_all_example =
    open_file-append_all toy_hash letters letters-IsRoundTrip (bound "x") (bound "y" ∷ [])

empty_verifies : verify toy_hash [] ≡ ok tt
unfolding verify_from verify
empty_verifies = refl

not_genesis : chain_hash toy_hash (last_hash []) (bound "x") ≢ last_hash []
unfolding chain_hash last_hash
not_genesis e = absurd (ground arith)

abbrev one_receipt : List EffectReceipt
one_receipt = receipt_for toy_hash genesis (bound "x") ∷ []
