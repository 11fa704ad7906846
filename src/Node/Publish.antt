-- ===== src/Node/Publish.antt =====
-- pkg/sanity/node.go: the specs under NodeGetCapabilities, NodeGetInfo, NodePublishVolume and
-- NodeUnpublishVolume.
pub mod Invariant
use csi_test.Prelude.{
  String, true, not, ◌&&◌, List, [], ◌∷◌, is_none, is_some, leb, ◌==◌, if◌then◌else◌,
}
use csi_test.Prelude.Int.{pos, ltb_ℤ}
use csi_test.Csi.Status.{invalid_argument}
use csi_test.Csi.Node.{zero_node_publish}
use csi_test.Csi.Capabilities.{ServiceCapability}
use csi_test.Csi.PluginService
use csi_test.Config.{Result, PathKind}
use csi_test.Spec.{
  Spec, pure, asks, gets, expect, expect_some, expect_no_error, skip_if, ◌>>=◌, ◌>>◌,
}
use csi_test.Rpc
use csi_test.Requests.{secret, unique_string, unique_volume_id}
use csi_test.Capability.{is_plugin_capability_supported}
use csi_test.Assert.{expect_status}
use csi_test.Node.Setup.{
  before_each, create_test_volume, publish_on_controller, stage_on_node, publish_on_node, node_info,
  target_of,
}

-- The switch over the known capability numbers, 0 to 6 of the enum.
unfoldable pub check_known_node : List ServiceCapability → Spec (Unit {0})
check_known_node [] = pure tt
check_known_node (c ∷ caps) = do t ← expect_some c.rpc; expect (leb t 6); check_known_node caps

unfoldable pub returns_node_capabilities : Spec (Unit {0})
returns_node_capabilities = do
  before_each
  r ← Rpc.node_capabilities
  expect_no_error r.error
  caps ← expect_some r.response
  check_known_node caps.capabilities

unfoldable pub returns_node_info : Spec (Unit {0})
returns_node_info = do
  before_each
  constrained ← is_plugin_capability_supported PluginService.volume_accessibility_constraints
  r ← Rpc.node_info
  expect_no_error r.error
  ninfo ← expect_some r.response
  expect (not (ninfo.node_id == ""))
  expect (not (ltb_ℤ ninfo.max_volumes_per_node (pos 0)))
  expect (if constrained then is_some ninfo.accessible_topology else true)

unfoldable pub node_publish_fails_without_id : Spec (Unit {0})
node_publish_fails_without_id = do
  before_each
  secrets ← secret (λ x. x.node_publish_volume_secret)
  r ← Rpc.node_publish (record zero_node_publish { secrets = secrets })
  expect_status r.error invalid_argument

unfoldable pub node_publish_fails_without_target : Spec (Unit {0})
node_publish_fails_without_target = do
  before_each
  vol_id ← unique_volume_id
  secrets ← secret (λ x. x.node_publish_volume_secret)
  r ← Rpc.node_publish (record zero_node_publish { volume_id = vol_id; secrets = secrets })
  expect_status r.error invalid_argument

unfoldable pub node_publish_fails_without_capability : Spec (Unit {0})
node_publish_fails_without_capability = do
  before_each
  sc ← asks (λ e. e.sc)
  vol_id ← unique_volume_id
  secrets ← secret (λ x. x.node_publish_volume_secret)
  r ← Rpc.node_publish (record zero_node_publish {
    volume_id = vol_id;
    target_path = target_of sc.target_path;
    secrets = secrets;
  })
  expect_status r.error invalid_argument

unfoldable pub node_unpublish_fails_without_id : Spec (Unit {0})
node_unpublish_fails_without_id = do
  before_each
  r ← Rpc.node_unpublish (record { volume_id = ""; target_path = "" })
  expect_status r.error invalid_argument

unfoldable pub node_unpublish_fails_without_target : Spec (Unit {0})
node_unpublish_fails_without_target = do
  before_each
  vol_id ← unique_volume_id
  r ← Rpc.node_unpublish (record { volume_id = vol_id; target_path = "" })
  expect_status r.error invalid_argument

-- CheckPath(path, sc.Config) at the present state of the host.
unfoldable pub check_path_now : String → Spec (Result PathKind)
check_path_now path = do
  check ← asks (λ e. e.check_path)
  history ← gets (λ s. s.history)
  pure (check history path)

unfoldable pub node_unpublish_removes_target : Spec (Unit {0})
node_unpublish_removes_target = do
  supports ← before_each
  sc ← asks (λ e. e.sc)
  skip_if (not (sc.config.create_target_path_cmd == "") && sc.config.check_path_cmd == "")
  skip_if (is_some sc.config.create_target_dir && is_none sc.config.check_path)
  name ← unique_string "sanity-node-unpublish-volume"
  vol ← create_test_volume name
  nid ← node_info
  conpubvol ← publish_on_controller supports vol nid
  stage_on_node supports vol conpubvol
  publish_on_node supports vol conpubvol
  before ← check_path_now (target_of sc.target_path)
  expect_no_error before.err
  expect (not (before.value == "not_found"))
  r ←
      Rpc.node_unpublish
        (record { volume_id = vol.volume_id; target_path = target_of sc.target_path })
  expect_no_error r.error
  after ← check_path_now (target_of sc.target_path)
  expect_no_error after.err
  expect (after.value == "not_found")

-- The specs of this file.
abbrev pub node_publish_specs : List (Spec (Unit {0}))
node_publish_specs =
    returns_node_capabilities ∷ returns_node_info ∷ node_publish_fails_without_id
    ∷ node_publish_fails_without_target ∷ node_publish_fails_without_capability
    ∷ node_unpublish_fails_without_id ∷ node_unpublish_fails_without_target
    ∷ node_unpublish_removes_target ∷ []
