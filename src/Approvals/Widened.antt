-- ===== src/Approvals/Widened.antt =====
-- crates/core-runtime/src/scheduler.rs and one_agent.rs: how far one approval reaches.
use zmodbit.Prelude.{
  ◌≡◌, refl, Bool, true, false, Option, none, some, List, [], ◌∷◌, ◌++◌, Text, text_eq_refl, any,
  arith,
}
use zmodbit.Policy.Kernel.{
  EffectClass, read_only, write, external, class_eq, CapabilityGrant, ToolCallRequest, allow,
  deny_uncovered, PolicyKernel, covers_call, check_grants, check_path, check,
}
use zmodbit.Approvals.Table.{ApprovalRow}
use zmodbit.Approvals.Gate.{
  asked, apply_call, Gate, request_persisted, live_grants, await_decision, is_allowed, decide_call,
}
use zmodbit.Approvals.Gated.{approves, approves-apply_call, poll-approved}

-- A grant for the call decides it, where the grants were all that was missing.
check_path-covered :
    (k : PolicyKernel) (r : ToolCallRequest) (before after : List CapabilityGrant)
    (path : Option Text)
    → any (covers_call r) after ≡ true
    → check_path k r before path ≡ deny_uncovered r.tool r.effect_class
    → check_path k r after path ≡ allow
unfolding check_path check_grants
check_path-covered k r before after none h e = ground arith
check_path-covered k r before after (some path) h e = ground arith

check-covered :
    (k : PolicyKernel) (r : ToolCallRequest) (before after : List CapabilityGrant)
    → any (covers_call r) after ≡ true
    → check k r before ≡ deny_uncovered r.tool r.effect_class
    → check k r after ≡ allow
unfolding check check_grants
check-covered k r before after h e = ground (arith, check_path-covered k r before after r.path)

any-append_right :
    (p : CapabilityGrant → Bool) (xs ys : List CapabilityGrant)
    → any p ys ≡ true
    → any p (xs ++ ys) ≡ true
any-append_right p [] ys h = h
any-append_right p (x ∷ xs) ys h = ground (arith, any-append_right p xs ys h)

live_grants-cover :
    (g : Gate) (tool : Text) (c : EffectClass) (path : Option Text)
    → class_eq c read_only ≡ false
    → any (covers_call (record { tool = tool; effect_class = c; path = path })) (live_grants g tool)
      ≡ true
live_grants-cover g tool read_only path h = cc
live_grants-cover g tool write path h = ground (arith, text_eq_refl tool)
live_grants-cover g tool external path h = ground (arith, text_eq_refl tool)

-- When the kernel refuses a call with an effect, for whatever reason, and an approved row for its intent stands in
-- the table, then the gate allows the call, whatever is asked and answered in the meantime, provided that one poll
-- can read the table; and every other call of that tool with an effect that lacked only a grant is allowed by the
-- kernel from then on.
pub decide_call-widens :
    (k : PolicyKernel) (g : Gate) (intent_hash : Text) (r : ToolCallRequest)
    (grants : List CapabilityGrant) (rows : List ApprovalRow)
    → class_eq r.effect_class read_only ≡ false
    → is_allowed (check k r grants) ≡ false
    → any (approves g.task_id intent_hash) rows ≡ true
    → any (λ round. round.readable) g.rounds ≡ true
    → (c : EffectClass) (path : Option Text) → class_eq c read_only ≡ false
    → let other : ToolCallRequest = record { tool = r.tool; effect_class = c; path = path } in
      check k other grants ≡ deny_uncovered r.tool c
      → let d = decide_call k (some g) intent_hash r grants rows in
        (d.outcome ≡ allow) × (check k other d.grants ≡ allow)
unfolding decide_call await_decision apply_call
decide_call-widens k g intent_hash r grants rows h refused a readable c path e uncovered =
    let asked_rows = request_persisted g intent_hash r.tool rows in
    let other : ToolCallRequest = record { tool = r.tool; effect_class = c; path = path } in
    let still : any (approves g.task_id intent_hash) asked_rows ≡ true =
      approves-apply_call g.task_id intent_hash (asked _) rows a in
    let said = poll-approved g.task_id intent_hash g.rounds asked_rows still readable in
    let covered =
      any-append_right (covers_call other) grants (live_grants g r.tool)
        (live_grants-cover g r.tool c path e) in
    rw (refused, h, said)
      (refl, check-covered k other grants (grants ++ live_grants g r.tool) covered uncovered)
