-- ===== src/Tests/PolicyTests.antt =====
-- Runs of the approval store and of a mediated approval.
use zmodbit.Prelude.{
  starts_with, ◌≡◌, refl, true, false, some, List, [], ◌∷◌, bytes, text_eq, arith,
}
use zmodbit.Policy.Approvals.{Approval, approved, expired, new_approval, resolve, has_live_approval}
use zmodbit.Policy.Evolution.{Call, resolves, asks, apply_calls}
use zmodbit.Policy.Mediation.{
  ApprovalMediation, consensus, open_mediation, submit_vote, decision, recompute, accept_vote,
}
use zmodbit.Policy.Kernel.{
  write, CapabilityGrant, ToolCallRequest, PolicyKernel, allow, split_from, escapes, is_protected,
  check_grants, check_path, check,
}
use zmodbit.Policy.Paths.{Escaping, Protected, check-contained}

abbrev pending_write : Approval
pending_write = new_approval (bytes "a1") (bytes "h") (bytes "fs.write") (bytes "/w") (some 10) 1

abbrev history : List Call
history =
    resolves (bytes "a1") approved (bytes "user")
    ∷ asks (bytes "h") 5
    ∷ asks (bytes "h") 11
    ∷ resolves (bytes "a1") approved (bytes "user")
    ∷ []

-- The approval expires at its second use and is not approved again.
history_expires :
    apply_calls history (pending_write ∷ [])
    ≡ record pending_write { state = expired; resolved_by = some (bytes "user") } ∷ []
unfolding text_eq resolve has_live_approval
history_expires = refl

abbrev opened_for_two : ApprovalMediation
opened_for_two = open_mediation (bytes "a1") (consensus 1) (bytes "desk" ∷ bytes "phone" ∷ [])

abbrev desk_approves : ApprovalMediation
desk_approves = (submit_vote (bytes "desk") true false opened_for_two).1

desk_decides : desk_approves.resolved ≡ some true
unfolding text_eq open_mediation submit_vote accept_vote recompute decision
desk_decides = refl

abbrev desk_only : ApprovalMediation
desk_only = record {
  approval_id = bytes "a1";
  policy = consensus 1;
  enrolled_clients = bytes "desk" ∷ [];
  votes = record { client_id = bytes "desk"; approve = true } ∷ [];
  audit = [];
  resolved = some true;
}

abbrev kernel : PolicyKernel
kernel = record { grants = []; protected_paths = bytes "/etc" ∷ [] }

abbrev write_grant : CapabilityGrant
write_grant = record { grant_id = bytes "g"; tool = bytes "fs.write"; effect_class = write }

abbrev write_request : ToolCallRequest
write_request = record {
  tool = bytes "fs.write";
  effect_class = write;
  path = some (bytes "src/a");
}

write_allowed : check kernel write_request (write_grant ∷ []) ≡ allow
unfolding text_eq starts_with split_from escapes is_protected check_grants check_path check
write_allowed = refl

check-contained_example : ¬ (Escaping (bytes "src/a")) × ¬ (Protected kernel (bytes "src/a"))
check-contained_example =
    check-contained kernel write_request (write_grant ∷ []) (bytes "src/a")
      (λ e. absurd (ground arith)) refl write_allowed
