-- ===== src/Policy/Capabilities.antt =====
-- crates/policy/src/capability_set.rs: which tools the model sees, and crates/policy/src/admin_precedence.rs: the merge
-- of policy layers. The text of a refusal is kept as its case.
use zmodbit.Prelude.{
  Bool, not, ◌&&◌, ◌||◌, List, [], ◌∷◌, Text, bytes, text_eq, any, retain, map, push, contains,
  is_filled, if◌then◌else◌, Result, is_ok, ◌>>◌, ensure,
}

pub record AdvertisedCapability : Type 0 where
  pub name : Text
  pub producer_exists : Bool
  pub authorized : Bool
  pub transport_supported : Bool
  pub consumer_exists : Bool
  pub consumer_adapter : Text

pub record ConsumerAdapter : Type 0 where
  pub name : Text
  pub enabled : Bool

pub data MissingLayer : Type 0 where
  no_producer not_authorized no_transport no_consumer : (name : Text) → MissingLayer

unfoldable pub check_e2e_capability : AdvertisedCapability → Result MissingLayer (Unit {0})
check_e2e_capability cap = do
  ensure cap.producer_exists (no_producer cap.name)
  ensure cap.authorized (not_authorized cap.name)
  ensure cap.transport_supported (no_transport cap.name)
  ensure cap.consumer_exists (no_consumer cap.name)

unfoldable pub is_visible : List ConsumerAdapter → AdvertisedCapability → Bool
unfolding check_e2e_capability
is_visible adapters cap =
    (not (is_filled cap.consumer_adapter)
      || any (λ a. text_eq a.name cap.consumer_adapter && a.enabled) adapters)
    && is_ok (check_e2e_capability cap)

unfoldable pub visible_tools : List AdvertisedCapability → List ConsumerAdapter → List Text
unfolding is_visible
visible_tools caps adapters = map (λ c. c.name) (retain (is_visible adapters) caps)

pub record PolicyLayer : Type 0 where
  pub source : Text
  pub blocked_tools : List Text
  pub required_approvals : List Text

-- The inner loops of `merge`: what is there already is not pushed again.
unfoldable pub add_new : List Text → List Text → List Text
add_new merged [] = merged
add_new merged (t ∷ ts) =
    let skipped = add_new merged ts in
    let pushed = add_new (push merged t) ts in if contains merged t then skipped else pushed

unfoldable pub merge_from : PolicyLayer → List PolicyLayer → PolicyLayer
unfolding add_new
merge_from merged [] = merged
merge_from merged (l ∷ ls) =
    merge_from
      (record merged {
        blocked_tools = add_new merged.blocked_tools l.blocked_tools;
        required_approvals = add_new merged.required_approvals l.required_approvals;
      })
      ls

unfoldable pub merge : List PolicyLayer → PolicyLayer
unfolding merge_from
merge ls =
    merge_from (record { source = bytes "merged"; blocked_tools = []; required_approvals = [] }) ls
