-- ===== src/Approvals/Gate.antt =====
-- crates/core-runtime/src/scheduler.rs: DurableApprovalGate, and crates/core-runtime/src/one_agent.rs: the decision on a
-- call. The id of the new approval, its time and its scope are arguments, as is the intent hash of the call. What the
-- other threads write to the table stands as a round before each poll; the deadline is the end of the rounds.
use zmodbit.Prelude.{
  Bool, true, false, not, ◌&&◌, Option, none, some, List, [], ◌∷◌, ◌++◌, Text, bytes, text_eq,
  if◌then◌else◌,
}
use zmodbit.Policy.Kernel.{
  read_only, write, external, class_eq, CapabilityGrant, ToolCallRequest, PolicyDecision, allow,
  deny_escape, deny_protected, deny_uncovered, PolicyKernel, check,
}
use zmodbit.Approvals.Table.{
  PendingApproval, ApprovalRow, insert_approval, resolve_approval, decision_for,
}

-- A write of another thread to the table.
pub data TableCall : Type 0 where
  asked : PendingApproval → TableCall
  answered : (approval_id state resolved_by now : Text) → TableCall

unfoldable pub apply_call : TableCall → List ApprovalRow → List ApprovalRow
unfolding insert_approval resolve_approval
apply_call (asked a) rows = insert_approval a rows
apply_call (answered id state resolved_by now) rows =
    (resolve_approval id state resolved_by now rows).1

unfoldable pub apply_all : List TableCall → List ApprovalRow → List ApprovalRow
unfolding apply_call
apply_all [] rows = rows
apply_all (c ∷ calls) rows = apply_all calls (apply_call c rows)

-- What happens until a poll, and whether the poll can read the table.
pub record Round : Type 0 where
  pub calls : List TableCall
  pub readable : Bool

abbrev pub polled : (task_id intent_hash : Text) → Bool → List ApprovalRow → Option Text
polled task_id intent_hash readable rows =
    if readable then decision_for task_id intent_hash rows else none

-- The decisions that end the wait.
abbrev pub final : Option Text → Bool
final none = false
final (some state) =
    if text_eq state (bytes "approved") then true else text_eq state (bytes "denied")

-- The loop of `await_decision`.
unfoldable pub poll :
    (task_id intent_hash : Text) → List Round → List ApprovalRow → Option Text × List ApprovalRow
unfolding apply_all decision_for
poll task_id intent_hash [] rows = (none, rows)
poll task_id intent_hash (r ∷ rounds) rows =
    let now = apply_all r.calls rows in
    let state = polled task_id intent_hash r.readable now in
    let later = poll task_id intent_hash rounds now in if final state then (state, now) else later

abbrev pub says : Text → Option Text → Bool
says word none = false
says word (some state) = text_eq state word

pub record Gate : Type 0 where
  pub task_id : Text
  pub approval_id : Text
  pub created_at : Text
  pub scope : Text
  pub rounds : List Round

abbrev pub request_persisted : Gate → Text → Text → List ApprovalRow → List ApprovalRow
request_persisted g intent_hash tool rows =
    insert_approval
      (record {
        approval_id = g.approval_id;
        task_id = g.task_id;
        intent_hash = intent_hash;
        tool = tool;
        scope = g.scope;
        state = bytes "pending";
        created_at = g.created_at;
      })
      rows

-- The two grants that an approved call leaves.
abbrev pub live_grants : Gate → Text → List CapabilityGrant
live_grants g tool =
    record { grant_id = bytes "g-approval-" ++ g.approval_id; tool = tool; effect_class = write }
    ∷ record {
      grant_id = bytes "g-approval-" ++ g.approval_id ++ bytes "-ext";
      tool = tool;
      effect_class = external;
    }
    ∷ []

pub record Waited : Type 0 where
  pub decision : Option Text
  pub grants : List CapabilityGrant
  pub rows : List ApprovalRow

unfoldable pub await_decision :
    Gate → (intent_hash tool : Text) → List CapabilityGrant → List ApprovalRow → Waited
unfolding insert_approval poll
await_decision g intent_hash tool grants rows =
    let (state, after) =
      poll g.task_id intent_hash g.rounds (request_persisted g intent_hash tool rows) in
    record {
      decision = state;
      grants = if says (bytes "approved") state then grants ++ live_grants g tool else grants;
      rows = after;
    }

abbrev pub is_allowed : PolicyDecision → Bool
is_allowed allow = true
is_allowed (deny_escape path) = false
is_allowed (deny_protected path) = false
is_allowed (deny_uncovered tool effect_class) = false

pub record Decided : Type 0 where
  pub outcome : PolicyDecision
  pub grants : List CapabilityGrant
  pub rows : List ApprovalRow

abbrev pub after_wait : PolicyDecision → Waited → Decided
after_wait refused w = record {
  outcome = if says (bytes "approved") w.decision then allow else refused;
  grants = w.grants;
  rows = w.rows;
}

unfoldable pub decide_call :
    PolicyKernel
    → Option Gate
    → Text
    → ToolCallRequest
    → List CapabilityGrant
    → List ApprovalRow
    → Decided
unfolding check await_decision
decide_call k none intent_hash r grants rows = record {
  outcome = check k r grants;
  grants = grants;
  rows = rows;
}
decide_call k (some g) intent_hash r grants rows =
    if not (is_allowed (check k r grants)) && not (class_eq r.effect_class read_only)
    then after_wait (check k r grants) (await_decision g intent_hash r.tool grants rows)
    else record { outcome = check k r grants; grants = grants; rows = rows }
