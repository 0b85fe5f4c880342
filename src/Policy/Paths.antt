-- ===== src/Policy/Paths.antt =====
-- crates/policy/src/lib.rs: what an allowed call cannot be.
use zmodbit.Prelude.{
  ◌≡◌, ◌≢◌, refl, ◌↔◌, inl, inr, true, false, some, List, [], ◌∷◌, ◌++◌, ℕ, Text, text_eq,
  text_eq_iff, starts_with, starts_with_iff, any, Any, push, push-append, ◌⊎◌, Bool-cases, arith,
}
use zmodbit.Policy.Kernel.{
  EffectClass, read_only, write, external, class_eq, CapabilityGrant, ToolCallRequest, allow,
  PolicyKernel, is_separator, split_from, is_parent, escapes, is_protected, covers_call,
  check_grants, check_path, check,
}

class_eq_iff : (a b : EffectClass) → (class_eq a b ≡ true) ↔ (a ≡ b)
class_eq_iff read_only read_only = ground arith
class_eq_iff read_only write = ground arith
class_eq_iff read_only external = ground arith
class_eq_iff write read_only = ground arith
class_eq_iff write write = ground arith
class_eq_iff write external = ground arith
class_eq_iff external read_only = ground arith
class_eq_iff external write = ground arith
class_eq_iff external external = ground arith

-- The components after a separator are components of the whole path.
split_from-later :
    (piece before rest : Text) (c : ℕ)
    → is_separator c ≡ true
    → any is_parent (split_from [] rest) ≡ true
    → any is_parent (split_from piece (before ++ c ∷ rest)) ≡ true
unfolding split_from
split_from-later piece [] rest c s h = ground arith
split_from-later piece (d ∷ before) rest c s h = ground (
  arith,
  split_from-later [] before rest c s h,
  split_from-later (push piece d) before rest c s h,
)

-- A grant that names the tool and the class of a request.
abbrev pub Covers : ToolCallRequest → CapabilityGrant → Type 0
Covers r g = (g.tool ≡ r.tool) × (g.effect_class ≡ r.effect_class)

covers_call-Covers :
    (r : ToolCallRequest) (g : CapabilityGrant) → (covers_call r g ≡ true) → Covers r g
covers_call-Covers r g h =
    ground (arith, text_eq_iff g.tool r.tool, class_eq_iff g.effect_class r.effect_class)

any-Covers :
    (r : ToolCallRequest) (gs : List CapabilityGrant)
    → any (covers_call r) gs ≡ true
    → Any (Covers r) gs
any-Covers r [] h = cc
any-Covers r (g ∷ gs) h = elim (Bool-cases (covers_call r g)) [
  | inl q ↦ inl (covers_call-Covers r g q)
  | inr q ↦ inr (any-Covers r gs (ground arith))
]

check_grants-allow :
    (r : ToolCallRequest) (gs : List CapabilityGrant)
    → check_grants r gs ≡ allow
    → Any (Covers r) gs
unfolding check_grants
check_grants-allow r gs h = any-Covers r gs (ground arith)

-- Fail closed: an allowed call is covered by a grant of the caller for its tool and class.
pub check-Covers :
    (k : PolicyKernel) (r : ToolCallRequest) (gs : List CapabilityGrant)
    → check k r gs ≡ allow
    → Any (Covers r) gs
unfolding check check_path
check-Covers k r gs h = check_grants-allow r gs (ground arith)

-- A component may start after this text, and end before this text.
abbrev pub EndsComponent : Text → Type 0
EndsComponent before =
    (before ≡ []) ⊎ ((b : Text) × (c : ℕ) × (is_separator c ≡ true) × (before ≡ push b c))

abbrev pub StartsComponent : Text → Type 0
StartsComponent after =
    (after ≡ []) ⊎ ((d : ℕ) × (a : Text) × (is_separator d ≡ true) × (after ≡ d ∷ a))

-- A path with a component `..`: at its start, at its end, between separators, or alone.
abbrev pub Escaping : Text → Type 0
Escaping path =
    (before : Text) × (after : Text) × EndsComponent before
    × StartsComponent after
    × (path ≡ before ++ 46 ∷ 46 ∷ after)

-- A path that begins with a protected one.
abbrev pub Protected : PolicyKernel → Text → Type 0
Protected k path = Any (λ p. (rest : Text) × (path ≡ p ++ rest)) k.protected_paths

parent-first :
    (after : Text) → StartsComponent after → any is_parent (split_from [] (46 ∷ 46 ∷ after)) ≡ true
unfolding split_from text_eq
parent-first after (inl e) = rw (e) refl
parent-first after (inr (d, a, s, e)) = rw (e, s) refl

Escaping-escapes : (path : Text) → Escaping path → escapes path ≡ true
unfolding escapes
Escaping-escapes path (before, after, inl b, a, e) = rw (e, b) (parent-first after a)
Escaping-escapes path (before, after, inr (front, c, s, b), a, e) =
    rw (e, b, push-append front (46 ∷ 46 ∷ after) c)
      (split_from-later [] front (46 ∷ 46 ∷ after) c s (parent-first after a))

any-starts :
    (path : Text) (ps : List Text)
    → Any (λ p. (rest : Text) × (path ≡ p ++ rest)) ps
    → any (λ p. starts_with path p) ps ≡ true
any-starts path [] h = absurd h
any-starts path (p ∷ ps) (inl h) = let starts = (starts_with_iff path p).1 h in ground arith
any-starts path (p ∷ ps) (inr h) = let later = any-starts path ps h in ground arith

-- No grant lets a write or an external effect through on a path that has a component `..`, wherever it stands, or
-- that begins with a protected path.
pub check-contained :
    (k : PolicyKernel) (r : ToolCallRequest) (gs : List CapabilityGrant) (path : Text)
    → r.effect_class ≢ read_only
    → r.path ≡ some path
    → check k r gs ≡ allow
    → ¬ (Escaping path) × ¬ (Protected k path)
unfolding check check_path is_protected
check-contained k r gs path w p h =
    let (inside, free) : (escapes path ≡ false) × (is_protected path k ≡ false) =
      ground (arith, class_eq_iff r.effect_class read_only) in
    (
      λ e. let out = Escaping-escapes path e in ground arith,
      λ q. let under = any-starts path k.protected_paths q in ground arith,
    )
