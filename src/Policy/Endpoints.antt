-- ===== src/Policy/Endpoints.antt =====
-- crates/policy/src/capability_set.rs: the capabilities that a protocol endpoint advertises, and the negotiation
-- between two endpoints. The set of strings is the map from its members to nothing.
use zmodbit.Prelude.{
  ◌≡◌, Bool, ◌&&◌, ◌||◌, Bool-cases, inl, inr, true, false, Option, none, some, [], ◌∷◌, Text,
  text_eq, text_eq_iff, if◌then◌else◌, Map, get, insert, remove, get-insert, get-remove, arith,
}

pub record ProtocolCapabilitySet : Type 0 where
  pub capabilities : Map (Unit {0})

abbrev pub no_capabilities : ProtocolCapabilitySet
no_capabilities = record { capabilities = [] }

unfoldable pub add : Text → ProtocolCapabilitySet → ProtocolCapabilitySet
add capability s = record { capabilities = insert capability tt s.capabilities }

unfoldable pub withdraw : Text → ProtocolCapabilitySet → ProtocolCapabilitySet
withdraw capability s = record { capabilities = remove capability s.capabilities }

-- `Option::is_some`.
abbrev is_some {ℓ} : {A : Type ℓ} → Option A → Bool
is_some none = false
is_some (some a) = true

unfoldable pub has : Text → ProtocolCapabilitySet → Bool
has capability s = is_some (get capability s.capabilities)

-- `BTreeSet::extend`.
unfoldable pub extend : Map (Unit {0}) → Map (Unit {0}) → Map (Unit {0})
extend merged [] = merged
extend merged ((cap, u) ∷ other) = extend (insert cap tt merged) other

unfoldable pub union : ProtocolCapabilitySet → ProtocolCapabilitySet → ProtocolCapabilitySet
unfolding extend
union a b = record { capabilities = extend a.capabilities b.capabilities }

unfoldable pub common_from :
    Map (Unit {0}) → ProtocolCapabilitySet → Map (Unit {0}) → Map (Unit {0})
unfolding has
common_from result other [] = result
common_from result other ((cap, u) ∷ caps) =
    let kept = common_from (insert cap tt result) other caps in
    let skipped = common_from result other caps in if has cap other then kept else skipped

unfoldable pub intersection : ProtocolCapabilitySet → ProtocolCapabilitySet → ProtocolCapabilitySet
unfolding common_from
intersection a b = record { capabilities = common_from [] b a.capabilities }

has-add : (j k : Text) (s : ProtocolCapabilitySet) → has j (add k s) ≡ (text_eq k j || has j s)
unfolding has add
has-add j k s = rw (get-insert j k tt s.capabilities) (ground arith)

has-withdraw :
    (j k : Text) (s : ProtocolCapabilitySet)
    → has j (withdraw k s) ≡ (if text_eq k j then false else has j s)
unfolding has withdraw
has-withdraw j k s = rw (get-remove j k s.capabilities) (ground arith)

get-extend :
    (j : Text) (merged other : Map (Unit {0}))
    → is_some (get j (extend merged other)) ≡ (is_some (get j merged) || is_some (get j other))
unfolding extend get
get-extend j merged [] = ground arith
get-extend j merged ((cap, u) ∷ other) =
    ground (arith, get-extend j (insert cap tt merged) other, get-insert j cap tt merged)

get-common_from :
    (j : Text) (result caps : Map (Unit {0})) (other : ProtocolCapabilitySet)
    → is_some (get j (common_from result other caps))
      ≡ (is_some (get j result) || (is_some (get j caps) && has j other))
unfolding common_from get
get-common_from j result [] other = ground arith
get-common_from j result ((cap, u) ∷ caps) other = elim (Bool-cases (has cap other)) [
  | inl q ↦ rw (q) (
      ground (
        arith,
        get-common_from j (insert cap tt result) caps other,
        get-insert j cap tt result,
        (text_eq_iff cap j).0,
      ))
  | inr q ↦ rw (q) (ground (arith, get-common_from j result caps other, (text_eq_iff cap j).0))
]

-- The operations of the set say of every capability whether it is there: adding and removing change that of their
-- own name only, the union holds what either endpoint has, and the intersection what both have.
pub has-negotiated :
    (j k : Text) (a b : ProtocolCapabilitySet)
    → (has j (add k a) ≡ (text_eq k j || has j a))
      × (has j (withdraw k a) ≡ (if text_eq k j then false else has j a))
      × (has j (union a b) ≡ (has j a || has j b))
      × (has j (intersection a b) ≡ (has j a && has j b))
unfolding has union intersection get
has-negotiated j k a b = (
  has-add j k a,
  has-withdraw j k a,
  get-extend j a.capabilities b.capabilities,
  get-common_from j [] a.capabilities b,
)
