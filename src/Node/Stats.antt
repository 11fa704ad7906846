-- ===== src/Node/Stats.antt =====
-- pkg/sanity/node.go: the specs under NodeGetVolumeStats and NodeExpandVolume.
pub mod Invariant
use csi_test.Prelude.{◌∷◌, [], List, not, none, some}
use csi_test.Prelude.Int.{eqb_ℤ}
use csi_test.Csi.Status.{invalid_argument, not_found}
use csi_test.Csi.Messages.{Volume}
use csi_test.Csi.Node.{zero_node_expand}
use csi_test.Spec.{Spec, asks, expect, expect_some, expect_no_error, skip_if, when, ◌>>=◌, ◌>>◌}
use csi_test.Rpc
use csi_test.Requests.{
  secret, writer_capability, test_volume_expand_size, unique_string, unique_volume_id,
}
use csi_test.Assert.{expect_status, at_least}
use csi_test.Node.Setup.{
  Supports, before_each, create_test_volume, publish_on_controller, stage_on_node, publish_on_node,
  node_info, target_of,
}

unfoldable pub requires_stats : Spec Supports
requires_stats = do
  supports ← before_each
  skip_if (not supports.volume_stats)
  asks (λ e. supports)

unfoldable pub stats_fails_without_id : Spec (Unit {0})
stats_fails_without_id = do
  requires_stats
  r ← Rpc.volume_stats (record { volume_id = ""; volume_path = "some/path" })
  expect_status r.error invalid_argument

unfoldable pub stats_fails_without_path : Spec (Unit {0})
stats_fails_without_path = do
  requires_stats
  vol_id ← unique_volume_id
  r ← Rpc.volume_stats (record { volume_id = vol_id; volume_path = "" })
  expect_status r.error invalid_argument

unfoldable pub stats_fails_on_missing_volume : Spec (Unit {0})
stats_fails_on_missing_volume = do
  requires_stats
  vol_id ← unique_volume_id
  r ← Rpc.volume_stats (record { volume_id = vol_id; volume_path = "some/path" })
  expect_status r.error not_found

unfoldable pub stats_fails_on_other_path : Spec (Unit {0})
stats_fails_on_other_path = do
  supports ← requires_stats
  name ← unique_string "sanity-node-get-volume-stats"
  vol ← create_test_volume name
  nid ← node_info
  conpubvol ← publish_on_controller supports vol nid
  stage_on_node supports vol conpubvol
  publish_on_node supports vol conpubvol
  r ← Rpc.volume_stats (record { volume_id = vol.volume_id; volume_path = "some/path" })
  expect_status r.error not_found

unfoldable pub requires_node_expansion : Spec Supports
requires_node_expansion = do
  supports ← before_each
  skip_if (not supports.node_expansion)
  asks (λ e. supports)

unfoldable pub node_expand_fails_without_id : Spec (Unit {0})
node_expand_fails_without_id = do
  requires_node_expansion
  sc ← asks (λ e. e.sc)
  r ← Rpc.node_expand (record zero_node_expand {
    volume_path = sc.target_path;
    volume_capability = some (writer_capability sc);
  })
  expect_status r.error invalid_argument

unfoldable pub node_expand_fails_without_path : Spec (Unit {0})
node_expand_fails_without_path = do
  requires_node_expansion
  name ← unique_string "sanity-node-expand-volume-valid-id"
  vol ← create_test_volume name
  sc ← asks (λ e. e.sc)
  r ← Rpc.node_expand (record zero_node_expand {
    volume_id = vol.volume_id;
    volume_capability = some (writer_capability sc);
  })
  expect_status r.error invalid_argument

unfoldable pub node_expand_fails_on_missing_volume : Spec (Unit {0})
node_expand_fails_on_missing_volume = do
  requires_node_expansion
  vol_id ← unique_volume_id
  r ← Rpc.node_expand (record zero_node_expand { volume_id = vol_id; volume_path = "some/path" })
  expect_status r.error not_found

-- if controllerExpansionSupported { … }
unfoldable pub expand_on_controller : Supports → Volume → Spec (Unit {0})
expand_on_controller supports vol = when supports.controller_expansion (do
  sc ← asks (λ e. e.sc)
  secrets ← secret (λ x. x.controller_expand_volume_secret)
  r ← Rpc.controller_expand (record {
    volume_id = vol.volume_id;
    capacity_range = at_least (test_volume_expand_size sc);
    secrets = secrets;
    volume_capability = none;
  })
  expect_no_error r.error
  response ← expect_some r.response
  expect (eqb_ℤ response.capacity_bytes (test_volume_expand_size sc)))

unfoldable pub node_expands_volume : Spec (Unit {0})
node_expands_volume = do
  supports ← requires_node_expansion
  name ← unique_string "sanity-node-expand-volume"
  vol ← create_test_volume name
  expand_on_controller supports vol
  nid ← node_info
  conpubvol ← publish_on_controller supports vol nid
  stage_on_node supports vol conpubvol
  publish_on_node supports vol conpubvol
  sc ← asks (λ e. e.sc)
  r ← Rpc.node_expand (record zero_node_expand {
    volume_id = vol.volume_id;
    volume_path = target_of sc.target_path;
    capacity_range = at_least (test_volume_expand_size sc);
  })
  expect_no_error r.error

-- The specs of this file.
abbrev pub node_stats_specs : List (Spec (Unit {0}))
node_stats_specs =
    stats_fails_without_id ∷ stats_fails_without_path ∷ stats_fails_on_missing_volume
    ∷ stats_fails_on_other_path ∷ node_expand_fails_without_id ∷ node_expand_fails_without_path
    ∷ node_expand_fails_on_missing_volume ∷ node_expands_volume ∷ []
