-- ===== src/Approvals/Gated.antt =====
-- crates/core-runtime/src/scheduler.rs and one_agent.rs: what the approval gate lets through.
use zmodbit.Prelude.{
  ◌≡◌, refl, ap, ◌∙◌, ◌⊎◌, inl, inr, Bool, true, false, ◌&&◌, ◌||◌, Bool-cases, Option, none, some,
  List, [], ◌∷◌, Text, bytes, text_eq, text_eq_iff, any, map, retain, arith,
}
use zmodbit.Policy.Kernel.{
  read_only, class_eq, CapabilityGrant, ToolCallRequest, PolicyDecision, allow, PolicyKernel, check,
}
use zmodbit.Approvals.Decided.{any-push}
use zmodbit.Approvals.Table.{
  ApprovalRow, has_approval_id, in_state, insert_approval, resolve_row, resolve_approval, sooner,
  first_row, is_for, state_in, decision_for,
}
use zmodbit.Approvals.Gate.{
  TableCall, asked, answered, apply_call, apply_all, Round, polled, final, poll, says, Gate,
  request_persisted, await_decision, is_allowed, decide_call,
}

-- An approved row of the task for the intent.
abbrev pub approves : (task_id intent_hash : Text) → ApprovalRow → Bool
approves task_id intent_hash r = is_for task_id intent_hash r && in_state (bytes "approved") r

sooner-approved :
    (r : ApprovalRow) (q : Option ApprovalRow)
    → says (bytes "approved") (some (sooner r q).approval.state)
      ≡ (in_state (bytes "approved") r || says (bytes "approved") (state_in q))
sooner-approved r none = ground arith
sooner-approved r (some q) = ground arith

first_row-approved :
    (rows : List ApprovalRow)
    → says (bytes "approved") (state_in (first_row rows)) ≡ any (in_state (bytes "approved")) rows
unfolding first_row
first_row-approved [] = refl
first_row-approved (r ∷ rows) =
    sooner-approved r (first_row rows)
    ∙ ap (λ b. in_state (bytes "approved") r || b) (first_row-approved rows)

any-retain :
    (p q : ApprovalRow → Bool) (rows : List ApprovalRow)
    → any q (retain p rows) ≡ any (λ r. p r && q r) rows
any-retain p q [] = refl
any-retain p q (r ∷ rows) = ground (arith, any-retain p q rows)

-- The decision is `approved` exactly when some row of the task approves the intent, whatever the others say.
pub decision_for-approved :
    (task_id intent_hash : Text) (rows : List ApprovalRow)
    → says (bytes "approved") (decision_for task_id intent_hash rows)
      ≡ any (approves task_id intent_hash) rows
unfolding decision_for
decision_for-approved task_id intent_hash rows =
    first_row-approved (retain (is_for task_id intent_hash) rows)
    ∙ any-retain (is_for task_id intent_hash) (in_state (bytes "approved")) rows

approved-not_pending :
    (state : Text)
    → text_eq state (bytes "approved") ≡ true
    → text_eq state (bytes "pending") ≡ false
unfolding text_eq
approved-not_pending state h =
    ap (λ s. text_eq s (bytes "pending")) ((text_eq_iff state (bytes "approved")).0 h)

module _ (task_id intent_hash : Text) where
  approves-resolved :
      (id state resolved_by now : Text) (rows : List ApprovalRow)
      → any (approves task_id intent_hash) rows ≡ true
      → any (approves task_id intent_hash) (map (resolve_row id state resolved_by now) rows) ≡ true
  approves-resolved id state resolved_by now [] h = h
  approves-resolved id state resolved_by now (r ∷ rows) h = ground (
    arith,
    approved-not_pending r.approval.state,
    approves-resolved id state resolved_by now rows,
  )

  pub approves-apply_call :
      (c : TableCall) (rows : List ApprovalRow)
      → any (approves task_id intent_hash) rows ≡ true
      → any (approves task_id intent_hash) (apply_call c rows) ≡ true
  unfolding apply_call insert_approval resolve_approval
  approves-apply_call (asked a) rows h =
      elim (Bool-cases (any (has_approval_id a.approval_id) rows)) [
        | inl q ↦ rw (q) h
        | inr q ↦ rw (q) (
            ground (
              arith,
              any-push (approves task_id intent_hash) rows
                  (record { approval = a; resolved_at = []; resolved_by = [] }),
            ))
      ]
  approves-apply_call (answered id state resolved_by now) rows h =
      approves-resolved id state resolved_by now rows h

  approves-apply_all :
      (calls : List TableCall) (rows : List ApprovalRow)
      → any (approves task_id intent_hash) rows ≡ true
      → any (approves task_id intent_hash) (apply_all calls rows) ≡ true
  unfolding apply_all
  approves-apply_all [] rows h = h
  approves-apply_all (c ∷ calls) rows h =
      approves-apply_all calls (apply_call c rows) (approves-apply_call c rows h)

  polled-approves :
      (readable : Bool) (rows : List ApprovalRow)
      → says (bytes "approved") (polled task_id intent_hash readable rows) ≡ true
      → any (approves task_id intent_hash) rows ≡ true
  polled-approves readable rows h = ground (arith, decision_for-approved task_id intent_hash rows)

  says-final : (d : Option Text) → says (bytes "approved") d ≡ true → final d ≡ true
  says-final none h = cc
  says-final (some d) h = ground arith

  poll-approves :
      (rounds : List Round) (rows : List ApprovalRow)
      → says (bytes "approved") (poll task_id intent_hash rounds rows).0 ≡ true
      → any (approves task_id intent_hash) (poll task_id intent_hash rounds rows).1 ≡ true
  unfolding poll
  poll-approves [] rows h = cc
  poll-approves (r ∷ rounds) rows h =
      let now = apply_all r.calls rows in
      elim (Bool-cases (final (polled task_id intent_hash r.readable now))) [
        | inl q ↦ ground (arith, polled-approves r.readable now)
        | inr q ↦ ground (arith, poll-approves rounds now)
      ]

  pub poll-approved :
      (rounds : List Round) (rows : List ApprovalRow)
      → any (approves task_id intent_hash) rows ≡ true
      → any (λ r. r.readable) rounds ≡ true
      → says (bytes "approved") (poll task_id intent_hash rounds rows).0 ≡ true
  unfolding poll
  poll-approved [] rows h a = cc
  poll-approved (r ∷ rounds) rows h a =
      let now = apply_all r.calls rows in
      let kept = approves-apply_all r.calls rows h in
      elim (Bool-cases r.readable) [
        | inl q ↦
            let said : says (bytes "approved") (decision_for task_id intent_hash now) ≡ true =
              decision_for-approved task_id intent_hash now ∙ kept in
            let ended = says-final (decision_for task_id intent_hash now) said in rw (q, ended) said
        | inr q ↦ rw (q) (poll-approved rounds now kept (ground arith))
      ]

allow_iff : (d : PolicyDecision) → is_allowed d ≡ true → d ≡ allow
allow_iff d h = ground arith

-- A call that is allowed was allowed by the kernel, or it has an effect and an approved row of the task for its
-- intent stands in the table at the end of the wait.
pub decide_call-Approved :
    (k : PolicyKernel) (g : Gate) (intent_hash : Text) (r : ToolCallRequest)
    (grants : List CapabilityGrant) (rows : List ApprovalRow)
    → let d = decide_call k (some g) intent_hash r grants rows in
      d.outcome ≡ allow
      → (check k r grants ≡ allow)
        ⊎ ((class_eq r.effect_class read_only ≡ false)
            × (any (approves g.task_id intent_hash) d.rows ≡ true))
unfolding decide_call await_decision
decide_call-Approved k g intent_hash r grants rows h =
    let asked_rows = request_persisted g intent_hash r.tool rows in
    let settled = poll-approves g.task_id intent_hash g.rounds asked_rows in
    elim (Bool-cases (is_allowed (check k r grants))) [
      | inl q ↦ inl (allow_iff (check k r grants) q)
      | inr q ↦ ground (arith, settled)
    ]
