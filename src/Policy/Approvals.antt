-- ===== src/Policy/Approvals.antt =====
-- crates/policy/src/approvals.rs: ApprovalStore. The intent hash of a request, SHA-256 over its canonical JSON, is an
-- argument of `request`; times are milliseconds.
use zmodbit.Prelude.{
  Bool, true, false, Option, none, some, List, [], ◌∷◌, ℕ, Text, text_eq, push, leb, if◌then◌else◌,
  Result, ok, err,
}

pub data ApprovalState : Type 0 where
  pending approved denied expired superseded : ApprovalState

pub record Approval : Type 0 where
  pub approval_id : Text
  pub intent_hash : Text
  pub tool : Text
  pub scope : Text
  pub state : ApprovalState
  pub created_at_ms : ℕ
  pub expires_at_ms : Option ℕ
  pub resolved_by : Option Text

pub data ApprovalError : Type 0 where
  unknown not_pending : Text → ApprovalError

abbrev pub new_approval : Text → Text → Text → Text → Option ℕ → ℕ → Approval
new_approval approval_id intent_hash tool scope expires_at_ms now_ms = record {
  approval_id = approval_id;
  intent_hash = intent_hash;
  tool = tool;
  scope = scope;
  state = pending;
  created_at_ms = now_ms;
  expires_at_ms = expires_at_ms;
  resolved_by = none;
}

unfoldable pub request :
    (approval_id intent_hash tool scope : Text)
    → Option ℕ
    → ℕ
    → List Approval
    → Approval × List Approval
request approval_id intent_hash tool scope expires_at_ms now_ms store =
    let a = new_approval approval_id intent_hash tool scope expires_at_ms now_ms in
    (a, push store a)

-- The decisions that a state takes: the guards of `resolve`.
abbrev pub decide : ApprovalState → ApprovalState → Bool
decide pending approved = true
decide pending denied = true
decide pending superseded = true
decide approved superseded = true
decide old next = false

-- The found approval, resolved.
abbrev pub resolve_found : Approval → ApprovalState → Text → Result ApprovalError Approval
resolve_found a state resolved_by =
    if decide a.state state
    then ok (record a { state = state; resolved_by = some resolved_by })
    else err (not_pending a.approval_id)

abbrev pub put :
    Approval
    → Result ApprovalError (Approval × List Approval)
    → Result ApprovalError (Approval × List Approval)
put a (ok (b, rest)) = ok (b, a ∷ rest)
put a (err e) = err e

abbrev pub put_first :
    List Approval → Result ApprovalError Approval → Result ApprovalError (Approval × List Approval)
put_first rest (ok b) = ok (b, b ∷ rest)
put_first rest (err e) = err e

unfoldable pub resolve :
    Text → ApprovalState → Text → List Approval → Result ApprovalError (Approval × List Approval)
resolve approval_id state resolved_by [] = err (unknown approval_id)
resolve approval_id state resolved_by (a ∷ store) =
    let later = resolve approval_id state resolved_by store in
    if text_eq a.approval_id approval_id
    then put_first store (resolve_found a state resolved_by)
    else put a later

abbrev pub is_approved : ApprovalState → Bool
is_approved approved = true
is_approved pending = false
is_approved denied = false
is_approved expired = false
is_approved superseded = false

-- `now_ms > expires` is false.
abbrev pub in_time : Option ℕ → ℕ → Bool
in_time none now_ms = true
in_time (some expires) now_ms = leb now_ms expires

abbrev pub keep : Approval → Bool × List Approval → Bool × List Approval
keep a (found, rest) = (found, a ∷ rest)

-- The loop of `has_live_approval`; it stops at the first live approval.
unfoldable pub has_live_approval : Text → ℕ → List Approval → Bool × List Approval
has_live_approval hash now_ms [] = (false, [])
has_live_approval hash now_ms (a ∷ store) =
    let later = has_live_approval hash now_ms store in
    if text_eq a.intent_hash hash
    then if is_approved a.state
      then if in_time a.expires_at_ms now_ms
        then (true, a ∷ store)
        else keep (record a { state = expired }) later
      else keep a later
    else keep a later
