-- ===== src/Tests/GateTests.antt =====
-- Runs of the approvals table and of the approval gate.
use zmodbit.Prelude.{
  ◌≡◌, ◌⊎◌, refl, true, false, none, some, List, [], ◌∷◌, Text, bytes, text_eq, text_lt,
  starts_with, any, find,
}
use zmodbit.Policy.Kernel.{
  write, external, read_only, class_eq, ToolCallRequest, PolicyKernel, allow, split_from, escapes,
  is_protected, check_grants, check_path, check,
}
use zmodbit.Approvals.Table.{
  PendingApproval, ApprovalRow, has_approval_id, insert_approval, resolve_approval, first_row,
  decision_for,
}
use zmodbit.Approvals.Gate.{
  asked, answered, apply_call, apply_all, Round, poll, Gate, await_decision, Decided, decide_call,
}
use zmodbit.Approvals.Decided.{resolved_once}
use zmodbit.Approvals.Gated.{approves, decide_call-Approved}
use zmodbit.Approvals.Widened.{decide_call-widens}

abbrev asked_at : Text → Text → PendingApproval
asked_at id created = record {
  approval_id = id;
  task_id = bytes "t";
  intent_hash = bytes "h";
  tool = bytes "shell";
  scope = [];
  state = bytes "pending";
  created_at = created;
}

abbrev open_table : List ApprovalRow
open_table =
    record { approval = asked_at (bytes "a1") (bytes "1"); resolved_at = []; resolved_by = [] } ∷ []

abbrev approved_table : List ApprovalRow
approved_table =
    (resolve_approval (bytes "a1") (bytes "approved") (bytes "op") (bytes "2") open_table).1

-- The operator refuses the new request before the first poll.
abbrev refusing : Round
refusing = record {
  calls = answered (bytes "a2") (bytes "denied") (bytes "op") (bytes "3") ∷ [];
  readable = true;
}

abbrev gate : Gate
gate = record {
  task_id = bytes "t";
  approval_id = bytes "a2";
  created_at = bytes "2";
  scope = [];
  rounds = refusing ∷ [];
}

-- A refusal is not seen while an older request for the same intent is pending.
refusal_unseen : (await_decision gate (bytes "h") (bytes "shell") [] open_table).decision ≡ none
unfolding text_eq text_lt await_decision insert_approval poll apply_all apply_call resolve_approval
    decision_for first_row
refusal_unseen = refl

refusal_seen :
    (await_decision gate (bytes "h") (bytes "shell") [] []).decision ≡ some (bytes "denied")
unfolding text_eq text_lt await_decision insert_approval poll apply_all apply_call resolve_approval
    decision_for first_row
refusal_seen = refl

resolved_once_example :
    let after =
      apply_all
        (answered (bytes "a1") (bytes "denied") (bytes "op") (bytes "3")
          ∷ asked (asked_at (bytes "a1") (bytes "4"))
          ∷ [])
        approved_table in
    (find (has_approval_id (bytes "a1")) after ≡ find (has_approval_id (bytes "a1")) approved_table)
    × ((resolve_approval (bytes "a1") (bytes "denied") (bytes "op") (bytes "5") after).0 ≡ false)
unfolding text_eq resolve_approval
resolved_once_example =
    resolved_once (bytes "a1") (bytes "approved") (bytes "op") (bytes "2") open_table refl refl
      (answered (bytes "a1") (bytes "denied") (bytes "op") (bytes "3")
        ∷ asked (asked_at (bytes "a1") (bytes "4"))
        ∷ [])
      (bytes "denied") (bytes "op") (bytes "5")

abbrev kernel : PolicyKernel
kernel = record { grants = []; protected_paths = bytes "/etc" ∷ [] }

abbrev escaping : ToolCallRequest
escaping = record { tool = bytes "shell"; effect_class = write; path = some (bytes "../x") }

abbrev inside : ToolCallRequest
inside = record { tool = bytes "shell"; effect_class = external; path = some (bytes "y") }

abbrev decided : Decided
decided = decide_call kernel (some gate) (bytes "h") escaping [] approved_table

decide_call-widens_example :
    (decided.outcome ≡ allow) × (check kernel inside decided.grants ≡ allow)
unfolding text_eq starts_with split_from escapes is_protected check_grants check_path check
    resolve_approval
decide_call-widens_example =
    decide_call-widens kernel gate (bytes "h") escaping [] approved_table refl refl refl refl
      external (some (bytes "y")) refl refl

decide_call-Approved_example :
    (check kernel escaping [] ≡ allow)
    ⊎ ((class_eq write read_only ≡ false)
        × (any (approves (bytes "t") (bytes "h")) decided.rows ≡ true))
unfolding text_eq text_lt starts_with split_from escapes is_protected check_grants check_path check
    resolve_approval insert_approval poll apply_all apply_call decision_for first_row await_decision
    decide_call
decide_call-Approved_example =
    decide_call-Approved kernel gate (bytes "h") escaping [] approved_table refl
