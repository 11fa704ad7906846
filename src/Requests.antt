-- ===== src/Requests.antt =====
-- Helpers of pkg/sanity/controller.go: sizes, the volume capability of the tests, and the functions
-- that make requests.
pub mod Sizes
use Prim.Native.String.{◌++◌ as str_append}
use csi_test.Prelude.{ℕ, String, false, [], ◌∷◌, Option, none, some, StringMap, if◌then◌else◌}
use csi_test.Prelude.Int.{ℤ, pos, ltb_ℤ, add64}
use csi_test.GoText.{codes, codes_eq, to_lower, trim_space}
use csi_test.Csi.Messages.{
  mount, block, VolumeCapability, single_node_writer, CreateVolumeRequest, zero_create_volume,
  DeleteVolumeRequest, ControllerPublishVolumeRequest, ControllerUnpublishVolumeRequest,
  zero_controller_publish,
}
use csi_test.Csi.Snapshots.{CreateSnapshotRequest, DeleteSnapshotRequest}
use csi_test.Config.{CsiSecrets, TestContext}
use csi_test.Spec.{Spec, pure, asks, deref, next_generated, ◌>>=◌}

abbrev pub def_test_expand_increment : ℤ
def_test_expand_increment = pos 1073741824

abbrev pub max_name_length : ℕ
max_name_length = 128

unfoldable pub test_volume_size : TestContext → ℤ
test_volume_size sc = sc.config.test_volume_size

unfoldable pub test_volume_expand_size : TestContext → ℤ
unfolding test_volume_size
test_volume_expand_size sc =
    if ltb_ℤ (pos 0) sc.config.test_volume_expand_size
    then sc.config.test_volume_expand_size
    else add64 (test_volume_size sc) def_test_expand_increment

unfoldable pub test_volume_capability : TestContext → ℕ → VolumeCapability
unfolding codes_eq to_lower trim_space
test_volume_capability sc mode = record {
  access_type =
      if codes_eq (trim_space (to_lower (codes sc.config.test_volume_access_type))) (codes "block")
      then block
      else mount;
  access_mode = mode;
}

abbrev pub writer_capability : TestContext → VolumeCapability
writer_capability sc = test_volume_capability sc single_node_writer

-- if sc.Secrets != nil { req.Secrets = sc.Secrets.… }
abbrev pub secret_or_nil : (CsiSecrets → StringMap) → Option CsiSecrets → StringMap
secret_or_nil field none = []
secret_or_nil field (some secrets) = field secrets

unfoldable pub make_create_volume_req : TestContext → String → CreateVolumeRequest
unfolding test_volume_size
make_create_volume_req sc name = record zero_create_volume {
  name = name;
  volume_capabilities = writer_capability sc ∷ [];
  capacity_range =
      some (record { required_bytes = test_volume_size sc; limit_bytes = test_volume_size sc });
  parameters = sc.config.test_volume_parameters;
  secrets = secret_or_nil (λ x. x.create_volume_secret) sc.secrets;
}

unfoldable pub make_create_snapshot_req : TestContext → String → String → CreateSnapshotRequest
make_create_snapshot_req sc name source_volume_id = record {
  name = name;
  source_volume_id = source_volume_id;
  parameters = sc.config.test_snapshot_parameters;
  secrets = secret_or_nil (λ x. x.create_snapshot_secret) sc.secrets;
}

unfoldable pub make_delete_snapshot_req : TestContext → String → DeleteSnapshotRequest
make_delete_snapshot_req sc id = record {
  snapshot_id = id;
  secrets = secret_or_nil (λ x. x.delete_snapshot_secret) sc.secrets;
}

unfoldable pub make_delete_volume_req : TestContext → String → DeleteVolumeRequest
make_delete_volume_req sc id = record {
  volume_id = id;
  secrets = secret_or_nil (λ x. x.delete_volume_secret) sc.secrets;
}

-- sc.Secrets.…, which panics where the context has no secrets.
unfoldable pub secret : (CsiSecrets → StringMap) → Spec StringMap
unfolding ◌>>=◌
secret field = do all ← asks (λ e. e.sc.secrets); secrets ← deref all; pure (field secrets)

unfoldable pub make_controller_publish_req : String → String → Spec ControllerPublishVolumeRequest
unfolding secret
make_controller_publish_req vol_id node_id = do
  sc ← asks (λ e. e.sc)
  secrets ← secret (λ x. x.controller_publish_volume_secret)
  pure (record zero_controller_publish {
    volume_id = vol_id;
    node_id = node_id;
    volume_capability = some (writer_capability sc);
    readonly = false;
    secrets = secrets;
  })

unfoldable pub make_controller_unpublish_req :
    String → String → Spec ControllerUnpublishVolumeRequest
unfolding secret
make_controller_unpublish_req vol_id node_id = do
  secrets ← secret (λ x. x.controller_unpublish_volume_secret)
  pure (record { volume_id = vol_id; node_id = node_id; secrets = secrets })

-- UniqueString(prefix)
unfoldable pub unique_string : String → Spec String
unfolding ◌>>=◌
unique_string prefix = do suffix ← asks (λ e. e.unique_suffix); pure (str_append prefix suffix)

-- sc.Config.IDGen.GenerateUniqueValidVolumeID()
unfoldable pub unique_volume_id : Spec String
unfolding ◌>>=◌
unique_volume_id = do n ← next_generated; asks (λ e. e.sc.config.id_gen.unique_valid_volume_id n)

-- sc.Config.IDGen.GenerateUniqueValidNodeID()
unfoldable pub unique_node_id : Spec String
unfolding ◌>>=◌
unique_node_id = do n ← next_generated; asks (λ e. e.sc.config.id_gen.unique_valid_node_id n)
