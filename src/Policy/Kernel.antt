-- ===== src/Policy/Kernel.antt =====
-- crates/policy/src/lib.rs: PolicyKernel. Of the JSON arguments of a request, the string under `path` is kept, none
-- when there is no such string; the text of a refusal is kept as its case.
use zmodbit.Prelude.{
  Bool, true, false, not, ◌&&◌, ◌||◌, Option, none, some, List, [], ◌∷◌, ℕ, Text, bytes, text_eq,
  starts_with, any, retain, push, ◌==◌, if◌then◌else◌,
}

pub data EffectClass : Type 0 where
  read_only write external : EffectClass

abbrev pub class_eq : EffectClass → EffectClass → Bool
class_eq read_only read_only = true
class_eq write write = true
class_eq external external = true
class_eq _ _ = false

pub record CapabilityGrant : Type 0 where
  pub grant_id : Text
  pub tool : Text
  pub effect_class : EffectClass

pub record ToolCallRequest : Type 0 where
  pub tool : Text
  pub effect_class : EffectClass
  pub path : Option Text

pub data PolicyDecision : Type 0 where
  allow : PolicyDecision
  deny_escape deny_protected : (path : Text) → PolicyDecision
  deny_uncovered : (tool : Text) → EffectClass → PolicyDecision

pub record PolicyKernel : Type 0 where
  pub grants : List CapabilityGrant
  pub protected_paths : List Text

unfoldable pub grant : CapabilityGrant → PolicyKernel → PolicyKernel
grant g k = record k { grants = push k.grants g }

unfoldable pub revoke : Text → PolicyKernel → PolicyKernel
revoke grant_id k = record k { grants = retain (λ g. not (text_eq g.grant_id grant_id)) k.grants }

abbrev pub is_separator : ℕ → Bool
is_separator c = c == 47 || c == 92

-- `path.split(['/', '\\'])`, with the piece that is being read.
unfoldable pub split_from : Text → Text → List Text
split_from piece [] = piece ∷ []
split_from piece (c ∷ t) =
    let next = split_from [] t in
    let longer = split_from (push piece c) t in if is_separator c then piece ∷ next else longer

abbrev pub is_parent : Text → Bool
is_parent component = text_eq component (bytes "..")

unfoldable pub escapes : Text → Bool
unfolding split_from
escapes path = any is_parent (split_from [] path)

unfoldable pub is_protected : Text → PolicyKernel → Bool
is_protected path k = any (λ p. starts_with path p) k.protected_paths

abbrev pub covers_call : ToolCallRequest → CapabilityGrant → Bool
covers_call r g = text_eq g.tool r.tool && class_eq g.effect_class r.effect_class

unfoldable pub check_grants : ToolCallRequest → List CapabilityGrant → PolicyDecision
check_grants r caller_grants =
    if any (covers_call r) caller_grants then allow else deny_uncovered r.tool r.effect_class

unfoldable pub check_path :
    PolicyKernel → ToolCallRequest → List CapabilityGrant → Option Text → PolicyDecision
unfolding escapes is_protected check_grants
check_path k r caller_grants none = check_grants r caller_grants
check_path k r caller_grants (some path) =
    if escapes path
    then deny_escape path
    else if is_protected path k
    then deny_protected path
    else check_grants r caller_grants

unfoldable pub check : PolicyKernel → ToolCallRequest → List CapabilityGrant → PolicyDecision
unfolding check_path
check k r caller_grants =
    if class_eq r.effect_class read_only
    then check_grants r caller_grants
    else check_path k r caller_grants r.path
