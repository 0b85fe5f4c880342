-- ===== src/Policy/Layers.antt =====
-- crates/policy/src/admin_precedence.rs and capability_set.rs: what merging and visibility guarantee.
use zmodbit.Prelude.{
  ◌≡◌, subst, bytes, ◌||◌, ◌↔◌, ◌⊎◌, inl, inr, true, false, List, [], ◌∷◌, Text, text_eq,
  text_eq_iff, any, contains, push, Bool-cases, arith, Any, is_filled, ◌&&◌,
}
use zmodbit.Policy.Capabilities.{
  PolicyLayer, add_new, merge_from, merge, AdvertisedCapability, ConsumerAdapter,
  check_e2e_capability, is_visible, visible_tools,
}

contains-push :
    (ts : List Text) (t u : Text) → contains (push ts t) u ≡ (contains ts u || text_eq t u)
contains-push [] t u = ground arith
contains-push (s ∷ ts) t u = ground (arith, contains-push ts t u)

contains-same :
    (ts : List Text) (t u : Text) → contains ts t ≡ true → text_eq t u ≡ true → contains ts u ≡ true
contains-same ts t u h e = subst (λ x. contains ts x ≡ true) ((text_eq_iff t u).0 e) h

contains-add_new :
    (merged ts : List Text) (u : Text)
    → contains (add_new merged ts) u ≡ (contains merged u || contains ts u)
unfolding add_new
contains-add_new merged [] u = ground arith
contains-add_new merged (t ∷ ts) u = elim (Bool-cases (contains merged t)) [
  | inl q ↦ ground (arith, contains-add_new merged ts u, contains-same merged t u)
  | inr q ↦ ground (arith, contains-add_new (push merged t) ts u, contains-push merged t u)
]

contains-merge_from :
    (m : PolicyLayer) (ls : List PolicyLayer) (u : Text)
    → (contains (merge_from m ls).blocked_tools u
        ≡ (contains m.blocked_tools u || any (λ l. contains l.blocked_tools u) ls))
      × (contains (merge_from m ls).required_approvals u
          ≡ (contains m.required_approvals u || any (λ l. contains l.required_approvals u) ls))
unfolding merge_from
contains-merge_from m [] u = ground arith
contains-merge_from m (l ∷ ls) u =
    let next : PolicyLayer = record m {
      blocked_tools = add_new m.blocked_tools l.blocked_tools;
      required_approvals = add_new m.required_approvals l.required_approvals;
    } in
    ground (
      arith,
      contains-merge_from next ls u,
      contains-add_new m.blocked_tools l.blocked_tools u,
      contains-add_new m.required_approvals l.required_approvals u,
    )

-- The merge weakens no layer: a tool is blocked, and an approval required, exactly when some layer says so.
pub contains-merge :
    (ls : List PolicyLayer) (u : Text)
    → (contains (merge ls).blocked_tools u ≡ any (λ l. contains l.blocked_tools u) ls)
      × (contains (merge ls).required_approvals u ≡ any (λ l. contains l.required_approvals u) ls)
unfolding merge
contains-merge ls u =
    contains-merge_from
      (record { source = bytes "merged"; blocked_tools = []; required_approvals = [] }) ls u

-- All four layers are there, and the adapter that is required, if any, is enabled.
abbrev pub IsUsable : List ConsumerAdapter → AdvertisedCapability → Type 0
IsUsable adapters c =
    (c.producer_exists ≡ true)
    × (c.authorized ≡ true)
    × (c.transport_supported ≡ true)
    × (c.consumer_exists ≡ true)
    × ((c.consumer_adapter ≡ [])
        ⊎ Any (λ a. (a.name ≡ c.consumer_adapter) × (a.enabled ≡ true)) adapters)

filled_iff : (t : Text) → (is_filled t ≡ false) ↔ (t ≡ [])
filled_iff [] = ground arith
filled_iff (c ∷ t) = ground arith

enabled_iff :
    (adapters : List ConsumerAdapter) (t : Text)
    → (any (λ a. text_eq a.name t && a.enabled) adapters ≡ true)
      ↔ Any (λ a. (a.name ≡ t) × (a.enabled ≡ true)) adapters
enabled_iff [] t = (λ h. cc, λ h. absurd h)
enabled_iff (a ∷ adapters) t = ground (arith, text_eq_iff a.name t, enabled_iff adapters t)

visible_iff :
    (adapters : List ConsumerAdapter) (c : AdvertisedCapability)
    → (is_visible adapters c ≡ true) ↔ IsUsable adapters c
unfolding is_visible check_e2e_capability
visible_iff adapters c =
    ground (arith, filled_iff c.consumer_adapter, enabled_iff adapters c.consumer_adapter)

-- The model sees a name exactly when some capability of that name has all four layers and its adapter is enabled.
pub visible_tools_iff :
    (caps : List AdvertisedCapability) (adapters : List ConsumerAdapter) (name : Text)
    → (contains (visible_tools caps adapters) name ≡ true)
      ↔ Any (λ c. (c.name ≡ name) × IsUsable adapters c) caps
unfolding visible_tools
visible_tools_iff [] adapters name = (λ h. cc, λ h. absurd h)
visible_tools_iff (c ∷ caps) adapters name =
    let later = visible_tools_iff caps adapters name in
    let usable = visible_iff adapters c in
    elim (Bool-cases (is_visible adapters c)) [
      | inl q ↦ rw (q) (
        λ h. elim (Bool-cases (text_eq c.name name)) [
          | inl e ↦ inl ((text_eq_iff c.name name).0 e, usable.0 q)
          | inr e ↦ inr (later.0 (ground arith))
        ],
        λ s. elim s [
          | inl (e, u) ↦ ground (arith, (text_eq_iff c.name name).1 e)
          | inr k ↦ let r = later.1 k in ground arith
        ],
      )
      | inr q ↦ rw (q) (
        λ h. inr (later.0 h),
        λ s. elim s [
          | inl (e, u) ↦ absurd (let r = usable.1 u in ground arith)
          | inr k ↦ later.1 k
        ],
      )
    ]
