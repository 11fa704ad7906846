-- ===== src/Node/Setup.antt =====
-- pkg/sanity/node.go: the shared parts of the Node specs: what BeforeEach finds out, and the steps from
-- a new volume to a published one.
pub mod Invariant
use Prim.Native.String.{◌++◌ as str_append}
use csi_test.Prelude.{
  String, Bool, true, false, not, [], StringMap, Option, none, some, ◌==◌, if◌then◌else◌,
}
use csi_test.Csi.Messages.{Volume, ControllerPublishVolumeResponse, zero_controller_publish}
use csi_test.Csi.Node.{NodeGetInfoResponse, zero_node_stage, zero_node_publish}
use csi_test.Csi.ControllerCapability
use csi_test.Csi.NodeCapability
use csi_test.Csi.PluginService
use csi_test.Spec.{
  Spec, pure, asks, expect, expect_some, expect_no_error, when, provide_controller, ◌>>=◌, ◌>>◌,
}
use csi_test.Rpc
use csi_test.Requests.{secret, test_volume_size, writer_capability}
use csi_test.Capability.{
  has_service, is_controller_capability_supported, is_node_capability_supported,
}
use csi_test.Resources.{must_create_volume, must_controller_publish_volume}
use csi_test.Assert.{writer_request, at_least}

-- The variables that BeforeEach of the Node Service block sets.
pub record Supports : Type 0 where
  pub controller_service : Bool
  pub controller_publish : Bool
  pub node_stage : Bool
  pub volume_stats : Bool
  pub node_expansion : Bool
  pub controller_expansion : Bool

-- if providesControllerService { … }; controllerPublishSupported is false until that is true.
unfoldable pub supported_if : Bool → Spec Bool → Spec Bool
supported_if true m = m
supported_if false m = pure false

unfoldable pub before_each : Spec Supports
before_each = do
  r ← Rpc.plugin_capabilities
  expect_no_error r.error
  res ← expect_some r.response
  provides ← provide_controller (has_service PluginService.controller_service res.capabilities)
  publish ←
      supported_if provides
        (is_controller_capability_supported ControllerCapability.publish_unpublish_volume)
  stage ← is_node_capability_supported NodeCapability.stage_unstage_volume
  stats ← is_node_capability_supported NodeCapability.get_volume_stats
  node_expand ← is_node_capability_supported NodeCapability.expand_volume
  expand ← is_controller_capability_supported ControllerCapability.expand_volume
  pure (record {
    controller_service = provides;
    controller_publish = publish;
    node_stage = stage;
    volume_stats = stats;
    node_expansion = node_expand;
    controller_expansion = expand;
  })

unfoldable pub create_test_volume : String → Spec Volume
create_test_volume name = do
  sc ← asks (λ e. e.sc)
  req ← writer_request name (at_least (test_volume_size sc))
  must_create_volume req

abbrev pub some_if :
    Bool → Spec ControllerPublishVolumeResponse → Spec (Option ControllerPublishVolumeResponse)
some_if supported m = if supported then (m >>= λ r. pure (some r)) else pure none

-- controllerPublishVolume of the block; nil if the driver does not support it.
unfoldable pub publish_on_controller :
    Supports → Volume → NodeGetInfoResponse → Spec (Option ControllerPublishVolumeResponse)
publish_on_controller supports vol nid = some_if supports.controller_publish (do
  sc ← asks (λ e. e.sc)
  secrets ← secret (λ x. x.controller_publish_volume_secret)
  must_controller_publish_volume (record zero_controller_publish {
    volume_id = vol.volume_id;
    node_id = nid.node_id;
    volume_capability = some (writer_capability sc);
    volume_context = vol.volume_context;
    readonly = false;
    secrets = secrets;
  }))

abbrev pub context_of : Option ControllerPublishVolumeResponse → StringMap
context_of none = []
context_of (some r) = r.publish_context

-- nodeStageVolume of the block.
unfoldable pub stage_on_node :
    Supports → Volume → Option ControllerPublishVolumeResponse → Spec (Unit {0})
stage_on_node supports vol conpubvol = when supports.node_stage (do
  sc ← asks (λ e. e.sc)
  secrets ← secret (λ x. x.node_stage_volume_secret)
  r ← Rpc.node_stage (record zero_node_stage {
    volume_id = vol.volume_id;
    volume_capability = some (writer_capability sc);
    staging_target_path = sc.staging_path;
    volume_context = vol.volume_context;
    publish_context = context_of conpubvol;
    secrets = secrets;
  })
  expect_no_error r.error
  expect_some r.response)

abbrev pub target_of : String → String
target_of target_path = str_append target_path "/target"

-- nodePublishVolume of the block.
unfoldable pub publish_on_node :
    Supports → Volume → Option ControllerPublishVolumeResponse → Spec (Unit {0})
publish_on_node supports vol conpubvol = do
  sc ← asks (λ e. e.sc)
  secrets ← secret (λ x. x.node_publish_volume_secret)
  r ← Rpc.node_publish (record zero_node_publish {
    volume_id = vol.volume_id;
    target_path = target_of sc.target_path;
    staging_target_path = if supports.node_stage then sc.staging_path else "";
    volume_capability = some (writer_capability sc);
    volume_context = vol.volume_context;
    publish_context = context_of conpubvol;
    secrets = secrets;
  })
  expect_no_error r.error
  expect_some r.response

-- NodeGetInfo with the assertions that a node ID comes back.
unfoldable pub node_info : Spec NodeGetInfoResponse
node_info = do
  r ← Rpc.node_info
  expect_no_error r.error
  nid ← expect_some r.response
  expect (not (nid.node_id == ""))
  pure nid
