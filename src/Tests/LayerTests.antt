-- ===== src/Tests/LayerTests.antt =====
-- Runs of the layer merge and of tool visibility.
use zmodbit.Prelude.{◌≡◌, refl, true, List, [], ◌∷◌, Text, bytes, text_eq}
use zmodbit.Policy.Capabilities.{
  PolicyLayer, add_new, merge_from, merge, AdvertisedCapability, ConsumerAdapter,
  check_e2e_capability, is_visible, visible_tools,
}

abbrev layer : Text → List Text → PolicyLayer
layer source blocked = record {
  source = source;
  blocked_tools = blocked;
  required_approvals = blocked;
}

abbrev layers : List PolicyLayer
layers =
    layer (bytes "admin") (bytes "rm" ∷ [])
    ∷ layer (bytes "user") (bytes "rm" ∷ bytes "dd" ∷ [])
    ∷ []

merged_once : (merge layers).blocked_tools ≡ bytes "rm" ∷ bytes "dd" ∷ []
unfolding text_eq add_new merge_from merge
merged_once = refl

abbrev browser : AdvertisedCapability
browser = record {
  name = bytes "browser";
  producer_exists = true;
  authorized = true;
  transport_supported = true;
  consumer_exists = true;
  consumer_adapter = bytes "ui.browser";
}

abbrev adapters : List ConsumerAdapter
adapters = record { name = bytes "ui.browser"; enabled = true } ∷ []

browser_shown : visible_tools (browser ∷ []) adapters ≡ bytes "browser" ∷ []
unfolding text_eq check_e2e_capability is_visible visible_tools
browser_shown = refl

browser_hidden : visible_tools (browser ∷ []) [] ≡ []
unfolding text_eq check_e2e_capability is_visible visible_tools
browser_hidden = refl
