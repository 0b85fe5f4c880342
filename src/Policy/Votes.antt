-- ===== src/Policy/Votes.antt =====
-- crates/policy/src/mediation.rs: who decides.
use zmodbit.Prelude.{
  ◌≡◌, ◌≢◌, refl, ◌↔◌, ◌⊎◌, inl, inr, Bool, true, false, not, none, some, List, [], ◌∷◌, ℕ, ◌≤◌,
  Text, text_eq, any, push, All, All-push, Bool-cases, Option-cases, ◌<◌, if◌then◌else◌, arith,
}
use zmodbit.Policy.Mediation.{
  MediationPolicy, consensus, ClientVote, ApprovalMediation, approvals, denials, vote_of, decision,
  recompute, accept_vote, submit_vote, open_mediation,
}

-- The votes come from enrolled clients, one each, and what is resolved is what the policy says of them; before the
-- first vote nothing is resolved.
abbrev pub Distinct : List ClientVote → Type 0
Distinct [] = Unit
Distinct (v ∷ vs) = All (λ w. text_eq v.client_id w.client_id ≡ false) vs × Distinct vs

abbrev pub IsMediated : ApprovalMediation → Type 0
IsMediated m =
    All (λ v. any (λ c. text_eq c v.client_id) m.enrolled_clients ≡ true) m.votes
    × Distinct m.votes
    × (((m.votes ≡ []) × (m.resolved ≡ none)) ⊎ (m.resolved ≡ decision m.policy m.votes))

pub open_mediation-IsMediated :
    (id : Text) (p : MediationPolicy) (clients : List Text)
    → IsMediated (open_mediation id p clients)
unfolding open_mediation
open_mediation-IsMediated id p clients = (tt, tt, inl (refl, refl))

find-none-push :
    (vs : List ClientVote) (v : ClientVote)
    → vote_of v.client_id vs ≡ none
    → Distinct vs
    → Distinct (push vs v)
find-none-push [] v f d = (tt, tt)
find-none-push (w ∷ vs) v f (far, d) = (
  All-push (λ u. text_eq w.client_id u.client_id ≡ false) vs v far (ground arith),
  find-none-push vs v (ground arith) d,
)

-- Every vote, accepted or refused, keeps the record in order.
pub submit_vote-IsMediated :
    (id : Text) (approve model : Bool) (m : ApprovalMediation)
    → IsMediated m
    → IsMediated (submit_vote id approve model m).1
unfolding submit_vote accept_vote recompute
submit_vote-IsMediated id approve true m h = h
submit_vote-IsMediated id approve false m h =
    let (e, d, r) = h in
    elim (Bool-cases (any (λ c. text_eq c id) m.enrolled_clients)) [
      | inr q ↦ rw (q) h
      | inl q ↦ elim (Option-cases (vote_of id m.votes)) [
        | inl n ↦
            rw (q, n)
              (
                All-push (λ v. any (λ c. text_eq c v.client_id) m.enrolled_clients ≡ true) m.votes
                    (record { client_id = id; approve = approve }) e q,
                find-none-push m.votes (record { client_id = id; approve = approve }) n d,
                inr refl,
              )
        | inr (v, n) ↦ elim (Bool-cases (if v.approve then approve else not approve)) [
          | inl t ↦ rw (q, n, t) h
          | inr t ↦ rw (q, n, t) h
        ]
      ]
    ]

denials-push :
    (vs : List ClientVote) (id : Text)
    → 0 < denials (push vs (record { client_id = id; approve = false }))
denials-push [] id = omega arith
denials-push (v ∷ vs) id = ground (arith, denials-push vs id)

-- Under consensus a decision is not final: whatever was resolved, a denial by an enrolled client that has not voted
-- yet resolves the approval to denied.
pub late_denial_overturns :
    (m : ApprovalMediation) (least : ℕ) (id : Text)
    → m.policy ≡ consensus least
    → any (λ c. text_eq c id) m.enrolled_clients ≡ true
    → vote_of id m.votes ≡ none
    → (submit_vote id false false m).1.resolved ≡ some false
unfolding submit_vote accept_vote recompute decision
late_denial_overturns m least id p e n =
    let counted = denials-push m.votes id in rw (e, n, p) (ground (arith, counted))

-- Under consensus an approval with votes is resolved to approved exactly when no vote denies and enough approve.
pub approved_iff :
    (m : ApprovalMediation) (least : ℕ)
    → IsMediated m
    → m.policy ≡ consensus least
    → m.votes ≢ []
    → (m.resolved ≡ some true) ↔ ((denials m.votes ≡ 0) × (least ≤ approvals m.votes))
unfolding decision
approved_iff m least (e, d, inl (none_yet, r)) p some_votes = absurd (some_votes none_yet)
approved_iff m least (e, d, inr r) p some_votes =
    let decided : m.resolved ≡ decision (consensus least) m.votes = rw (r, p) refl in
    ground (arith, decided)
