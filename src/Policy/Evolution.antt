-- ===== src/Policy/Evolution.antt =====
-- crates/policy/src/approvals.rs: how approvals change over any sequence of calls.
use zmodbit.Prelude.{
  ◌≡◌, refl, sym, ◌∙◌, Bool, true, false, Option, List, [], ◌∷◌, ℕ, Text, text_eq, push, Result, ok,
  err, Bool-cases, inl, inr, arith,
}
use zmodbit.Policy.Approvals.{
  ApprovalState, pending, approved, denied, expired, superseded, Approval, ApprovalError, request,
  resolve, decide, has_live_approval, is_approved, in_time, keep, put, put_first, resolve_found,
}

-- A state that no call leaves.
abbrev pub is_settled : ApprovalState → Bool
is_settled pending = false
is_settled approved = false
is_settled denied = true
is_settled expired = true
is_settled superseded = true

-- What an approval may become: it stays bound to its intent and its expiry, and a settled state stays.
abbrev pub Moves : Approval → Approval → Type 0
Moves a b =
    (a.intent_hash ≡ b.intent_hash)
    × (a.expires_at_ms ≡ b.expires_at_ms)
    × (is_settled a.state ≡ true → a.state ≡ b.state)

-- Each approval moves, in its place; new ones come after.
abbrev pub Evolves : List Approval → List Approval → Type 0
Evolves [] ts = Unit
Evolves (a ∷ ss) [] = ⊥
Evolves (a ∷ ss) (b ∷ ts) = Moves a b × Evolves ss ts

Evolves-refl : (ss : List Approval) → Evolves ss ss
Evolves-refl [] = tt
Evolves-refl (a ∷ ss) = ((refl, refl, λ h. refl), Evolves-refl ss)

Evolves-trans : (rs ss ts : List Approval) → Evolves rs ss → Evolves ss ts → Evolves rs ts
Evolves-trans [] ss ts h k = tt
Evolves-trans (a ∷ rs) [] ts h k = absurd h
Evolves-trans (a ∷ rs) (b ∷ ss) [] h k = absurd k
Evolves-trans (a ∷ rs) (b ∷ ss) (c ∷ ts) ((h, e, s), hs) ((k, f, u), ks) = (
  (h ∙ k, e ∙ f, λ q. let same = s q in same ∙ u (rw (sym same) q)),
  Evolves-trans rs ss ts hs ks,
)

push-Evolves : (ss : List Approval) (a : Approval) → Evolves ss (push ss a)
push-Evolves [] a = tt
push-Evolves (b ∷ ss) a = ((refl, refl, λ h. refl), push-Evolves ss a)

-- The store after a call that changes it.
abbrev pub stored : List Approval → Result ApprovalError (Approval × List Approval) → List Approval
stored ss (ok (a, ts)) = ts
stored ss (err e) = ss

decide-settled : (s t : ApprovalState) → is_settled s ≡ true → decide s t ≡ false
decide-settled pending t h = absurd (ground arith)
decide-settled approved t h = absurd (ground arith)
decide-settled denied t h = refl
decide-settled expired t h = refl
decide-settled superseded t h = refl

stays : (a : Approval) → Moves a a
stays a = (refl, refl, λ h. refl)

put-Evolves :
    (a : Approval) (ss : List Approval) (r : Result ApprovalError (Approval × List Approval))
    → Evolves ss (stored ss r)
    → Evolves (a ∷ ss) (stored (a ∷ ss) (put a r))
put-Evolves a ss (ok (b, ts)) h = (stays a, h)
put-Evolves a ss (err e) h = (stays a, Evolves-refl ss)

keep-Evolves :
    (a b : Approval) (ss : List Approval) (r : Bool × List Approval)
    → Moves a b
    → Evolves ss r.1
    → Evolves (a ∷ ss) (keep b r).1
keep-Evolves a b ss (found, rest) m h = (m, h)

resolve_found-Evolves :
    (a : Approval) (state : ApprovalState) (by : Text) (ss : List Approval)
    → Evolves (a ∷ ss) (stored (a ∷ ss) (put_first ss (resolve_found a state by)))
resolve_found-Evolves a state by ss = elim (Bool-cases (decide a.state state)) [
  | inl q ↦
      rw (q)
        ((refl, refl, λ h. absurd (ground (arith, decide-settled a.state state))), Evolves-refl ss)
  | inr q ↦ rw (q) (Evolves-refl (a ∷ ss))
]

resolve-Evolves :
    (id : Text) (state : ApprovalState) (by : Text) (ss : List Approval)
    → Evolves ss (stored ss (resolve id state by ss))
unfolding resolve
resolve-Evolves id state by [] = tt
resolve-Evolves id state by (a ∷ ss) =
    let later = put-Evolves a ss (resolve id state by ss) (resolve-Evolves id state by ss) in
    elim (Bool-cases (text_eq a.approval_id id)) [
      | inl q ↦ rw (q) (resolve_found-Evolves a state by ss)
      | inr q ↦ rw (q) later
    ]

expiring : (a : Approval) → is_approved a.state ≡ true → Moves a (record a { state = expired })
expiring a q = (refl, refl, λ h. absurd (approved-unsettled a.state q h))
  where
    approved-unsettled : (s : ApprovalState) → is_approved s ≡ true → is_settled s ≡ true → ⊥
    approved-unsettled pending q h = ground arith
    approved-unsettled approved q h = ground arith
    approved-unsettled denied q h = ground arith
    approved-unsettled expired q h = ground arith
    approved-unsettled superseded q h = ground arith

has_live_approval-Evolves :
    (hash : Text) (now_ms : ℕ) (ss : List Approval)
    → Evolves ss (has_live_approval hash now_ms ss).1
unfolding has_live_approval
has_live_approval-Evolves hash now_ms [] = tt
has_live_approval-Evolves hash now_ms (a ∷ ss) =
    let r = has_live_approval hash now_ms ss in
    let later = has_live_approval-Evolves hash now_ms ss in
    let kept = keep-Evolves a a ss r (stays a) later in
    elim (Bool-cases (text_eq a.intent_hash hash)) [
      | inr q ↦ rw (q) kept
      | inl q ↦ elim (Bool-cases (is_approved a.state)) [
        | inr p ↦ rw (q, p) kept
        | inl p ↦ elim (Bool-cases (in_time a.expires_at_ms now_ms)) [
          | inl t ↦ rw (q, p, t) (Evolves-refl (a ∷ ss))
          | inr t ↦
              rw (q, p, t) (keep-Evolves a (record a { state = expired }) ss r (expiring a p) later)
        ]
      ]
    ]

-- A call of the store.
pub data Call : Type 0 where
  requests : (approval_id intent_hash tool scope : Text) → Option ℕ → ℕ → Call
  resolves : (approval_id : Text) → ApprovalState → (resolved_by : Text) → Call
  asks : (intent_hash : Text) → ℕ → Call

abbrev pub apply_call : Call → List Approval → List Approval
apply_call (requests id hash tool scope expires now) ss =
    (request id hash tool scope expires now ss).1
apply_call (resolves id state by) ss = stored ss (resolve id state by ss)
apply_call (asks hash now) ss = (has_live_approval hash now ss).1

abbrev pub apply_calls : List Call → List Approval → List Approval
apply_calls [] ss = ss
apply_calls (c ∷ cs) ss = apply_calls cs (apply_call c ss)

apply_call-Evolves : (c : Call) (ss : List Approval) → Evolves ss (apply_call c ss)
unfolding request
apply_call-Evolves (requests id hash tool scope expires now) ss =
    push-Evolves ss (request id hash tool scope expires now ss).0
apply_call-Evolves (resolves id state by) ss = resolve-Evolves id state by ss
apply_call-Evolves (asks hash now) ss = has_live_approval-Evolves hash now ss

-- Over any calls each approval stays in its place, bound to its intent hash and expiry, and one that is denied,
-- expired or superseded stays so.
pub apply_calls-Evolves : (cs : List Call) (ss : List Approval) → Evolves ss (apply_calls cs ss)
apply_calls-Evolves [] ss = Evolves-refl ss
apply_calls-Evolves (c ∷ cs) ss =
    Evolves-trans ss (apply_call c ss) (apply_calls cs (apply_call c ss)) (apply_call-Evolves c ss)
      (apply_calls-Evolves cs (apply_call c ss))
