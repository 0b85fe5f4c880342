-- ===== src/Policy/Mediation.antt =====
-- crates/policy/src/mediation.rs: ApprovalMediation. An audit line is kept as what it reports, and a vote without its
-- time stamp; vote counts stay below 2^32, as the list of enrolled clients does.
use zmodbit.Prelude.{
  Bool, true, false, not, Option, none, some, List, [], ◌∷◌, ℕ, Text, text_eq, any, find, retain,
  push, length, leb, ltb, if◌then◌else◌, Result, ok, err,
}

pub data MediationPolicy : Type 0 where
  designated : (client_id : Text) → MediationPolicy
  consensus : (min_approvals : ℕ) → MediationPolicy

pub record ClientVote : Type 0 where
  pub client_id : Text
  pub approve : Bool

pub data MediationError : Type 0 where
  model_vote_refused client_not_enrolled conflicting_votes : Text → MediationError

pub data AuditLine : Type 0 where
  opened : MediationPolicy → ℕ → AuditLine
  vote_from : (client_id : Text) (approve is_model_actor : Bool) → AuditLine
  resolved_as : Bool → AuditLine

pub record ApprovalMediation : Type 0 where
  pub approval_id : Text
  pub policy : MediationPolicy
  pub enrolled_clients : List Text
  pub votes : List ClientVote
  pub audit : List AuditLine
  pub resolved : Option Bool

unfoldable pub open_mediation : Text → MediationPolicy → List Text → ApprovalMediation
open_mediation approval_id policy enrolled = record {
  approval_id = approval_id;
  policy = policy;
  enrolled_clients = enrolled;
  votes = [];
  audit = opened policy (length enrolled) ∷ [];
  resolved = none;
}

abbrev pub approvals : List ClientVote → ℕ
approvals vs = length (retain (λ v. v.approve) vs)

abbrev pub denials : List ClientVote → ℕ
denials vs = length (retain (λ v. not v.approve) vs)

abbrev pub vote_of : Text → List ClientVote → Option ClientVote
vote_of id vs = find (λ v. text_eq v.client_id id) vs

abbrev pub stance : Option ClientVote → Option Bool
stance none = none
stance (some v) = some v.approve

unfoldable pub decision : MediationPolicy → List ClientVote → Option Bool
decision (designated id) vs = stance (vote_of id vs)
decision (consensus least) vs =
    if ltb 0 (denials vs) then some false else if leb least (approvals vs) then some true else none

abbrev pub log_decision : Option Bool → List AuditLine → List AuditLine
log_decision none audit = audit
log_decision (some d) audit = push audit (resolved_as d)

unfoldable pub recompute : ApprovalMediation → ApprovalMediation
unfolding decision
recompute m =
    let d = decision m.policy m.votes in record m { resolved = d; audit = log_decision d m.audit }

-- What becomes of the vote of an enrolled client, by the vote it gave before.
unfoldable pub accept_vote :
    Text
    → Bool
    → ApprovalMediation
    → Option ClientVote
    → Result MediationError (Option Bool) × ApprovalMediation
unfolding recompute
accept_vote client_id approve m (some v) =
    if (if v.approve then approve else not approve)
    then (ok m.resolved, m)
    else (err (conflicting_votes client_id), m)
accept_vote client_id approve m none =
    let m' =
      recompute
        (record m { votes = push m.votes (record { client_id = client_id; approve = approve }) }) in
    (ok m'.resolved, m')

unfoldable pub submit_vote :
    Text → Bool → Bool → ApprovalMediation → Result MediationError (Option Bool) × ApprovalMediation
unfolding accept_vote
submit_vote client_id approve is_model_actor m =
    let heard = record m { audit = push m.audit (vote_from client_id approve is_model_actor) } in
    if is_model_actor
    then (err (model_vote_refused client_id), heard)
    else if not (any (λ c. text_eq c client_id) m.enrolled_clients)
    then (err (client_not_enrolled client_id), heard)
    else accept_vote client_id approve heard (vote_of client_id m.votes)
