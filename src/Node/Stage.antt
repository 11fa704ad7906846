-- ===== src/Node/Stage.antt =====
-- pkg/sanity/node.go: the specs under NodeStageVolume and NodeUnstageVolume.
pub mod Invariant
use csi_test.Prelude.{List, not, [], ◌∷◌, StringMap, some}
use csi_test.Csi.Status.{invalid_argument}
use csi_test.Csi.Messages.{mount, zero_create_volume, single_node_writer}
use csi_test.Csi.Node.{zero_node_stage}
use csi_test.Spec.{Spec, asks, skip_if, ◌>>=◌, ◌>>◌}
use csi_test.Rpc
use csi_test.Requests.{secret, writer_capability, unique_string, unique_volume_id}
use csi_test.Resources.{must_create_volume}
use csi_test.Assert.{expect_status}
use csi_test.Node.Setup.{before_each}

abbrev pub device_context : StringMap
device_context = ("device", "/dev/mock") ∷ []

-- BeforeEach of both blocks.
unfoldable pub requires_staging : Spec (Unit {0})
requires_staging = do supports ← before_each; skip_if (not supports.node_stage)

unfoldable pub stage_fails_without_id : Spec (Unit {0})
stage_fails_without_id = do
  requires_staging
  sc ← asks (λ e. e.sc)
  secrets ← secret (λ x. x.node_stage_volume_secret)
  r ← Rpc.node_stage (record zero_node_stage {
    staging_target_path = sc.staging_path;
    volume_capability = some (writer_capability sc);
    publish_context = device_context;
    secrets = secrets;
  })
  expect_status r.error invalid_argument

unfoldable pub stage_fails_without_path : Spec (Unit {0})
stage_fails_without_path = do
  requires_staging
  sc ← asks (λ e. e.sc)
  vol_id ← unique_volume_id
  secrets ← secret (λ x. x.node_stage_volume_secret)
  r ← Rpc.node_stage (record zero_node_stage {
    volume_id = vol_id;
    volume_capability = some (writer_capability sc);
    publish_context = device_context;
    secrets = secrets;
  })
  expect_status r.error invalid_argument

-- The volume of this spec is always a mounted one.
unfoldable pub stage_fails_without_capability : Spec (Unit {0})
stage_fails_without_capability = do
  requires_staging
  name ← unique_string "sanity-node-stage-nocaps"
  sc ← asks (λ e. e.sc)
  create_secrets ← secret (λ x. x.create_volume_secret)
  vol ← must_create_volume (record zero_create_volume {
    name = name;
    volume_capabilities = record { access_type = mount; access_mode = single_node_writer } ∷ [];
    secrets = create_secrets;
    parameters = sc.config.test_volume_parameters;
  })
  secrets ← secret (λ x. x.node_stage_volume_secret)
  r ← Rpc.node_stage (record zero_node_stage {
    volume_id = vol.volume_id;
    staging_target_path = sc.staging_path;
    publish_context = device_context;
    secrets = secrets;
  })
  expect_status r.error invalid_argument

unfoldable pub unstage_fails_without_id : Spec (Unit {0})
unstage_fails_without_id = do
  requires_staging
  sc ← asks (λ e. e.sc)
  r ← Rpc.node_unstage (record { volume_id = ""; staging_target_path = sc.staging_path })
  expect_status r.error invalid_argument

unfoldable pub unstage_fails_without_path : Spec (Unit {0})
unstage_fails_without_path = do
  requires_staging
  vol_id ← unique_volume_id
  r ← Rpc.node_unstage (record { volume_id = vol_id; staging_target_path = "" })
  expect_status r.error invalid_argument

-- The specs of this file.
abbrev pub node_stage_specs : List (Spec (Unit {0}))
node_stage_specs =
    stage_fails_without_id ∷ stage_fails_without_path ∷ stage_fails_without_capability
    ∷ unstage_fails_without_id ∷ unstage_fails_without_path ∷ []
