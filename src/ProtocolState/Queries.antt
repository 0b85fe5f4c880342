-- ===== src/ProtocolState/Queries.antt =====
-- crates/protocol-state/src/lib.rs: what the queries find in a list of records.
use zmodbit.Prelude.{
  ◌≡◌, ◌≢◌, refl, none, some, List, [], ◌∷◌, ◌++◌, ℕ, Text, text_eq_iff, text_eq_refl, Map, get,
  insert, get-insert, All, arith,
}
use zmodbit.ProtocolState.Records.{
  ProtocolRecord, tool_call, approval_request, question, terminal_cursor, subagent, ApprovalStatus,
  pending, note_latest, latest, first_pending, pending_approval, cursor_of, last_cursor,
}

last_cursor-none :
    (id : Text) (rs : List ProtocolRecord)
    → All (λ r. cursor_of id r ≡ none) rs
    → last_cursor id rs ≡ none
unfolding last_cursor
last_cursor-none id [] h = refl
last_cursor-none id (r ∷ rs) (n, h) = rw (last_cursor-none id rs h) n

-- The cursor of a consumer is the one of its last cursor record, whatever other records came before and after.
pub last_cursor-latest :
    (before later : List ProtocolRecord) (id : Text) (offset : ℕ)
    → All (λ r. cursor_of id r ≡ none) later
    → last_cursor id (before ++ terminal_cursor id offset ∷ later) ≡ some offset
unfolding last_cursor
last_cursor-latest [] later id offset h = rw (last_cursor-none id later h, text_eq_refl id) refl
last_cursor-latest (r ∷ before) later id offset h =
    rw (last_cursor-latest before later id offset h) refl

-- A record that says nothing of an approval.
abbrev pub Leaves : Text → ProtocolRecord → Type 0
Leaves id (approval_request other tool scope status) = other ≢ id
Leaves id (tool_call _ _ _ _) = Unit
Leaves id (question _ _ _) = Unit
Leaves id (terminal_cursor _ _) = Unit
Leaves id (subagent _ _ _) = Unit

get-note_latest :
    (id : Text) (r : ProtocolRecord) (m : Map (Text × ApprovalStatus))
    → Leaves id r
    → get id (note_latest r m) ≡ get id m
get-note_latest id (approval_request other tool scope status) m h =
    ground (arith, text_eq_iff other id, get-insert id other (tool, status) m)
get-note_latest id (tool_call _ _ _ _) m h = refl
get-note_latest id (question _ _ _) m h = refl
get-note_latest id (terminal_cursor _ _) m h = refl
get-note_latest id (subagent _ _ _) m h = refl

get-latest :
    (id : Text) (rs : List ProtocolRecord) (m : Map (Text × ApprovalStatus))
    → All (Leaves id) rs
    → get id (latest rs m) ≡ get id m
unfolding latest
get-latest id [] m h = refl
get-latest id (r ∷ rs) m (n, h) =
    rw (get-latest id rs (note_latest r m) h) (get-note_latest id r m n)

get-latest_of :
    (before later : List ProtocolRecord) (id tool scope : Text) (s : ApprovalStatus)
    (m : Map (Text × ApprovalStatus))
    → All (Leaves id) later
    → get id (latest (before ++ approval_request id tool scope s ∷ later) m) ≡ some (tool, s)
unfolding latest
get-latest_of [] later id tool scope s m h =
    rw
      (get-latest id later (insert id (tool, s) m) h, get-insert id id (tool, s) m, text_eq_refl id)
      refl
get-latest_of (r ∷ before) later id tool scope s m h =
    get-latest_of before later id tool scope s (note_latest r m) h

first_pending-not_none :
    (m : Map (Text × ApprovalStatus)) (id tool : Text)
    → get id m ≡ some (tool, pending)
    → first_pending m ≢ none
unfolding first_pending get
first_pending-not_none [] id tool h = ground arith
first_pending-not_none ((j, (t, s)) ∷ m) id tool h =
    ground (arith, first_pending-not_none m id tool)

-- An approval whose last record is pending is not forgotten: some pending approval is reported.
pub pending_approval-not_none :
    (before later : List ProtocolRecord) (id tool scope : Text)
    → All (Leaves id) later
    → pending_approval (before ++ approval_request id tool scope pending ∷ later) ≢ none
unfolding pending_approval
pending_approval-not_none before later id tool scope h =
    first_pending-not_none (latest (before ++ approval_request id tool scope pending ∷ later) []) id
      tool (get-latest_of before later id tool scope pending [] h)
