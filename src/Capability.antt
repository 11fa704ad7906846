-- ===== src/Capability.antt =====
-- The capability queries: isControllerCapabilitySupported of pkg/sanity/controller.go, and
-- isNodeCapabilitySupported and isPluginCapabilitySupported of pkg/sanity/node.go.
pub mod Queries
use csi_test.Prelude.{ℕ, Bool, true, false, List, [], ◌∷◌, eqb, if◌then◌else◌}
use csi_test.Csi.Capabilities.{
  ServiceCapability, PluginCapability, service, volume_expansion, no_type,
}
use csi_test.Spec.{Spec, pure, expect_some, expect_no_error, ◌>>=◌, ◌>>◌}
use csi_test.Rpc

-- for _, cap := range caps { Expect(cap.GetRpc()).NotTo(BeNil()); if … { return true } }
unfoldable pub find_rpc : ℕ → List ServiceCapability → Spec Bool
find_rpc cap_type [] = pure false
find_rpc cap_type (cap ∷ caps) = do
  rpc ← expect_some cap.rpc
  if eqb rpc cap_type then pure true else find_rpc cap_type caps

unfoldable pub is_controller_capability_supported : ℕ → Spec Bool
unfolding find_rpc ◌>>=◌
is_controller_capability_supported cap_type = do
  r ← Rpc.controller_capabilities
  expect_no_error r.error
  caps ← expect_some r.response
  list ← expect_some caps.capabilities
  find_rpc cap_type list

unfoldable pub is_node_capability_supported : ℕ → Spec Bool
unfolding find_rpc ◌>>=◌
is_node_capability_supported cap_type = do
  r ← Rpc.node_capabilities
  expect_no_error r.error
  caps ← expect_some r.response
  find_rpc cap_type caps.capabilities

unfoldable pub has_service : ℕ → List PluginCapability → Bool
has_service cap_type [] = false
has_service cap_type (service t ∷ caps) = if eqb t cap_type then true else has_service cap_type caps
has_service cap_type (volume_expansion t ∷ caps) = has_service cap_type caps
has_service cap_type (no_type ∷ caps) = has_service cap_type caps

unfoldable pub is_plugin_capability_supported : ℕ → Spec Bool
unfolding has_service ◌>>=◌
is_plugin_capability_supported cap_type = do
  r ← Rpc.plugin_capabilities
  expect_no_error r.error
  caps ← expect_some r.response
  pure (has_service cap_type caps.capabilities)
