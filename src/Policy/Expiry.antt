-- ===== src/Policy/Expiry.antt =====
-- crates/policy/src/approvals.rs: when an approval is live.
use zmodbit.Prelude.{◌≡◌, ◌↔◌, true, List, [], ◌∷◌, ℕ, Text, text_eq_iff, Any, arith}
use zmodbit.Policy.Approvals.{
  ApprovalState, pending, approved, denied, expired, superseded, Approval, is_approved, in_time,
  has_live_approval,
}

-- An approval of the hash that was approved and has not expired.
abbrev pub IsLive : Text → ℕ → Approval → Type 0
IsLive hash now_ms a =
    (a.intent_hash ≡ hash) × (a.state ≡ approved) × (in_time a.expires_at_ms now_ms ≡ true)

is_approved_iff : (s : ApprovalState) → (is_approved s ≡ true) ↔ (s ≡ approved)
is_approved_iff pending = ground arith
is_approved_iff approved = ground arith
is_approved_iff denied = ground arith
is_approved_iff expired = ground arith
is_approved_iff superseded = ground arith

-- A request is let through exactly when some approval of its hash is live.
pub has_live_approval_iff :
    (hash : Text) (now_ms : ℕ) (store : List Approval)
    → ((has_live_approval hash now_ms store).0 ≡ true) ↔ Any (IsLive hash now_ms) store
unfolding has_live_approval
has_live_approval_iff hash now_ms [] = (λ h. cc, λ h. absurd h)
has_live_approval_iff hash now_ms (a ∷ store) = ground (
  arith,
  text_eq_iff a.intent_hash hash,
  is_approved_iff a.state,
  has_live_approval_iff hash now_ms store,
)
