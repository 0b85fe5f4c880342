-- ===== src/ProtocolState/Records.antt =====
-- crates/protocol-state/src/lib.rs: the records, and the queries on a list of them.
use zmodbit.Prelude.{
  Bool, true, false, Option, none, some, List, [], ◌∷◌, ℕ, Text, text_eq, Map, insert,
  if◌then◌else◌,
}

pub data ToolCallStatus : Type 0 where
  awaiting_approval approved running completed : ToolCallStatus

pub data ApprovalStatus : Type 0 where
  pending granted denied : ApprovalStatus

pub data ProtocolRecord : Type 0 where
  tool_call : (call_id name arguments : Text) → ToolCallStatus → ProtocolRecord
  approval_request : (approval_id tool scope : Text) → ApprovalStatus → ProtocolRecord
  question : (question_id text : Text) → Bool → ProtocolRecord
  terminal_cursor : (run_id : Text) → ℕ → ProtocolRecord
  subagent : (subagent_id task state : Text) → ProtocolRecord

abbrev pub is_pending : ApprovalStatus → Bool
is_pending pending = true
is_pending granted = false
is_pending denied = false

-- The loop of `pending_approval` that fills the map.
abbrev pub note_latest : ProtocolRecord → Map (Text × ApprovalStatus) → Map (Text × ApprovalStatus)
note_latest (approval_request id tool scope status) m = insert id (tool, status) m
note_latest (tool_call _ _ _ _) m = m
note_latest (question _ _ _) m = m
note_latest (terminal_cursor _ _) m = m
note_latest (subagent _ _ _) m = m

unfoldable pub latest :
    List ProtocolRecord → Map (Text × ApprovalStatus) → Map (Text × ApprovalStatus)
latest [] m = m
latest (r ∷ rs) m = latest rs (note_latest r m)

unfoldable pub first_pending : Map (Text × ApprovalStatus) → Option (Text × Text × ApprovalStatus)
first_pending [] = none
first_pending ((id, (tool, status)) ∷ m) =
    if is_pending status then some (id, tool, status) else first_pending m

unfoldable pub pending_approval : List ProtocolRecord → Option (Text × Text × ApprovalStatus)
unfolding latest first_pending
pending_approval rs = first_pending (latest rs [])

abbrev pub cursor_of : Text → ProtocolRecord → Option ℕ
cursor_of id (terminal_cursor run_id offset) = if text_eq run_id id then some offset else none
cursor_of id (tool_call _ _ _ _) = none
cursor_of id (approval_request _ _ _ _) = none
cursor_of id (question _ _ _) = none
cursor_of id (subagent _ _ _) = none

-- `iter().rev().find_map(…)`: what a later record gives comes first.
unfoldable pub last_cursor : Text → List ProtocolRecord → Option ℕ
last_cursor id [] = none
last_cursor id (r ∷ rs) = elim (last_cursor id rs) [ some o ↦ some o | none ↦ cursor_of id r ]

unfoldable pub tool_calls : List ProtocolRecord → List (Text × ToolCallStatus)
tool_calls [] = []
tool_calls (tool_call call_id name arguments status ∷ rs) = (name, status) ∷ tool_calls rs
tool_calls (approval_request _ _ _ _ ∷ rs) = tool_calls rs
tool_calls (question _ _ _ ∷ rs) = tool_calls rs
tool_calls (terminal_cursor _ _ ∷ rs) = tool_calls rs
tool_calls (subagent _ _ _ ∷ rs) = tool_calls rs
