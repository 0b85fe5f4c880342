-- ===== src/Tests/JournalTests.antt =====
-- Runs of the protocol journal with an encoding in letters.
use zmodbit.Prelude.{
  is_filled, ◌∙◌, ◌≡◌, refl, ap, Bool, true, false, Option, none, some, List, [], ◌∷◌, ◌++◌, ℕ,
  zero, suc, Text, bytes, ok,
}
use zmodbit.ProtocolState.Records.{
  ProtocolRecord, tool_call, approval_request, question, terminal_cursor, subagent, ToolCallStatus,
  awaiting_approval, approved, running, completed, ApprovalStatus, pending, granted, denied,
}
use zmodbit.Prelude.{is_utf8, if◌then◌else◌, err}
use zmodbit.ProtocolState.Journal.{RecordCodec, io, open_store}
use zmodbit.ProtocolState.Crash.{IsFaithful, journal, open_store-torn}
use zmodbit.Tests.UnaryCodec.{
  encode_texts, decode_texts, decode_texts-encode_texts, encode_texts-IsLine, encode_texts-cons,
  encode_texts-is_utf8,
}

abbrev call_status : ToolCallStatus → ℕ
call_status awaiting_approval = 0
call_status approved = 1
call_status running = 2
call_status completed = 3

abbrev call_status_of : ℕ → ToolCallStatus
call_status_of zero = awaiting_approval
call_status_of (suc zero) = approved
call_status_of (suc (suc zero)) = running
call_status_of _ = completed

call_status_back : (s : ToolCallStatus) → call_status_of (call_status s) ≡ s
call_status_back awaiting_approval = refl
call_status_back approved = refl
call_status_back running = refl
call_status_back completed = refl

abbrev decision : ApprovalStatus → ℕ
decision pending = 0
decision granted = 1
decision denied = 2

abbrev decision_of : ℕ → ApprovalStatus
decision_of zero = pending
decision_of (suc zero) = granted
decision_of _ = denied

decision_back : (s : ApprovalStatus) → decision_of (decision s) ≡ s
decision_back pending = refl
decision_back granted = refl
decision_back denied = refl

abbrev flag : Bool → ℕ
flag false = 0
flag true = 1

abbrev flag_of : ℕ → Bool
flag_of zero = false
flag_of _ = true

flag_back : (b : Bool) → flag_of (flag b) ≡ b
flag_back false = refl
flag_back true = refl

abbrev fields : ProtocolRecord → List Text
fields (tool_call i n a s) = (0 ∷ []) ∷ i ∷ n ∷ a ∷ (call_status s ∷ []) ∷ []
fields (approval_request i t s d) = (1 ∷ []) ∷ i ∷ t ∷ s ∷ (decision d ∷ []) ∷ []
fields (question i t b) = (2 ∷ []) ∷ i ∷ t ∷ (flag b ∷ []) ∷ []
fields (terminal_cursor i o) = (3 ∷ []) ∷ i ∷ (o ∷ []) ∷ []
fields (subagent i t s) = (4 ∷ []) ∷ i ∷ t ∷ s ∷ []

abbrev record_of : List Text → Option ProtocolRecord
record_of ((zero ∷ []) ∷ i ∷ n ∷ a ∷ (s ∷ []) ∷ []) = some (tool_call i n a (call_status_of s))
record_of ((suc zero ∷ []) ∷ i ∷ t ∷ s ∷ (d ∷ []) ∷ []) =
    some (approval_request i t s (decision_of d))
record_of ((suc (suc zero) ∷ []) ∷ i ∷ t ∷ (b ∷ []) ∷ []) = some (question i t (flag_of b))
record_of ((suc (suc (suc zero)) ∷ []) ∷ i ∷ (o ∷ []) ∷ []) = some (terminal_cursor i o)
record_of ((suc (suc (suc (suc zero))) ∷ []) ∷ i ∷ t ∷ s ∷ []) = some (subagent i t s)
record_of _ = none

record_of-fields : (r : ProtocolRecord) → record_of (fields r) ≡ some r
record_of-fields (tool_call i n a s) = ap (λ s. some (tool_call i n a s)) (call_status_back s)
record_of-fields (approval_request i t s d) =
    ap (λ d. some (approval_request i t s d)) (decision_back d)
record_of-fields (question i t b) = ap (λ b. some (question i t b)) (flag_back b)
record_of-fields (terminal_cursor i o) = refl
record_of-fields (subagent i t s) = refl

abbrev letters : RecordCodec
letters = record { encode = λ r. encode_texts (fields r); decode = λ t. record_of (decode_texts t) }

letters-IsFaithful : IsFaithful letters
letters-IsFaithful r =
    let (c, u, e) = encode_texts-cons (fields r) in
    (
      ap record_of (decode_texts-encode_texts (fields r)) ∙ record_of-fields r,
      encode_texts-IsLine (fields r),
      ap is_filled e,
      encode_texts-is_utf8 (fields r),
    )

abbrev cursor : ProtocolRecord
cursor = terminal_cursor (bytes "run") 7

abbrev asks : ProtocolRecord
asks = approval_request (bytes "a1") (bytes "fs.write") (bytes "/w") pending

-- A crash leaves the letters `ab` of a second record.
open_store-torn_example :
    open_store letters (some (journal letters letters-IsFaithful (cursor ∷ []) ++ bytes "ab")) ≡ (
      if is_utf8 (bytes "ab")
      then ok (record {
        file = some (journal letters letters-IsFaithful (cursor ∷ []) ++ bytes "ab");
        records = cursor ∷ [];
      })
      else err io)
open_store-torn_example =
    open_store-torn letters letters-IsFaithful (cursor ∷ []) 97 (bytes "b") (refl, (refl, tt)) refl

-- The first three bytes of a four-byte character are not UTF-8.
torn_character : is_utf8 (34 ∷ 240 ∷ 159 ∷ 146 ∷ []) ≡ false
unfolding is_utf8
torn_character = refl
