-- ===== src/Approvals/Table.antt =====
-- crates/event-store/src/approvals.rs: the table of approvals, in the order of its rows; its key is the approval id.
use zmodbit.Prelude.{
  Bool, ◌&&◌, ◌||◌, Option, none, some, List, [], ◌∷◌, ℕ, Text, bytes, text_eq, text_lt, any, map,
  push, retain, ltb, ◌==◌, if◌then◌else◌,
}

pub record PendingApproval : Type 0 where
  pub approval_id : Text
  pub task_id : Text
  pub intent_hash : Text
  pub tool : Text
  pub scope : Text
  pub state : Text
  pub created_at : Text

pub record ApprovalRow : Type 0 where
  pub approval : PendingApproval
  pub resolved_at : Text
  pub resolved_by : Text

abbrev pub has_approval_id : Text → ApprovalRow → Bool
has_approval_id id r = text_eq r.approval.approval_id id

abbrev pub in_state : Text → ApprovalRow → Bool
in_state state r = text_eq r.approval.state state

-- `insert`: a row of the same id is left as it is.
unfoldable pub insert_approval : PendingApproval → List ApprovalRow → List ApprovalRow
insert_approval a rows =
    if any (has_approval_id a.approval_id) rows
    then rows
    else push rows (record { approval = a; resolved_at = []; resolved_by = [] })

abbrev pub is_open : Text → ApprovalRow → Bool
is_open id r = has_approval_id id r && in_state (bytes "pending") r

abbrev pub resolve_row : Text → Text → Text → Text → ApprovalRow → ApprovalRow
resolve_row id state resolved_by now r =
    if is_open id r
    then record {
      approval = record (r.approval) { state = state };
      resolved_at = now;
      resolved_by = resolved_by;
    }
    else r

unfoldable pub resolve_approval :
    (id state resolved_by now : Text) → List ApprovalRow → Bool × List ApprovalRow
resolve_approval id state resolved_by now rows =
    (any (is_open id) rows, map (resolve_row id state resolved_by now) rows)

-- `CASE state WHEN 'approved' THEN 0 WHEN 'pending' THEN 1 ELSE 2 END`.
abbrev pub rank : ApprovalRow → ℕ
rank r = if in_state (bytes "approved") r then 0 else if in_state (bytes "pending") r then 1 else 2

abbrev pub before : ApprovalRow → ApprovalRow → Bool
before a b =
    ltb (rank a) (rank b)
    || (rank a == rank b && text_lt a.approval.created_at b.approval.created_at)

abbrev pub sooner : ApprovalRow → Option ApprovalRow → ApprovalRow
sooner r none = r
sooner r (some q) = if before q r then q else r

-- `ORDER BY ... LIMIT 1`.
unfoldable pub first_row : List ApprovalRow → Option ApprovalRow
first_row [] = none
first_row (r ∷ rows) = some (sooner r (first_row rows))

abbrev pub is_for : (task_id intent_hash : Text) → ApprovalRow → Bool
is_for task_id intent_hash r =
    text_eq r.approval.task_id task_id && text_eq r.approval.intent_hash intent_hash

abbrev pub state_in : Option ApprovalRow → Option Text
state_in none = none
state_in (some r) = some r.approval.state

unfoldable pub decision_for : (task_id intent_hash : Text) → List ApprovalRow → Option Text
unfolding first_row
decision_for task_id intent_hash rows =
    state_in (first_row (retain (is_for task_id intent_hash) rows))
