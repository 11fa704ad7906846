-- ===== src/Node/Full.antt =====
-- pkg/sanity/node.go: runControllerTest and the two specs that call it.
pub mod Calls
pub mod Order
pub mod Invariant
use csi_test.Prelude.{List, ℕ, zero, suc, not, [], ◌∷◌, is_some}
use csi_test.Prelude.Int.{pos, pos_part, leb_ℤ}
use csi_test.Csi.Messages.{Volume}
use csi_test.Spec.{
  Spec, pure, asks, expect, expect_some, expect_no_error, skip_if, when, ◌>>=◌, ◌>>◌,
}
use csi_test.Rpc
use csi_test.Requests.{test_volume_size, unique_string}
use csi_test.Resources.{must_create_volume}
use csi_test.Assert.{writer_request, at_least}
use csi_test.Controller.Lifecycle.{topology_requirement}
use csi_test.Node.Setup.{
  Supports, before_each, target_of, publish_on_controller, stage_on_node, publish_on_node,
  node_info,
}

-- A loop with `count` rounds of one step.
unfoldable pub repeat : ℕ → Spec (Unit {0}) → Spec (Unit {0})
repeat zero m = pure tt
repeat (suc count) m = do m; repeat count m

-- NodeGetVolumeStats of the published volume.
unfoldable pub check_stats : Supports → Volume → Spec (Unit {0})
check_stats supports vol = when supports.volume_stats (do
  sc ← asks (λ e. e.sc)
  r ←
      Rpc.volume_stats
        (record { volume_id = vol.volume_id; volume_path = target_of sc.target_path })
  expect_no_error r.error
  stats ← expect_some r.response
  expect (is_some stats.usage))

unfoldable pub run_controller_test : Supports → ℕ → Spec (Unit {0})
run_controller_test supports count = do
  name ← unique_string "sanity-node-full"
  ni ← node_info
  sc ← asks (λ e. e.sc)
  req ← writer_request name (at_least (test_volume_size sc))
  vol ←
      must_create_volume
        (record req { accessibility_requirements = topology_requirement ni.accessible_topology })
  conpubvol ← publish_on_controller supports vol ni
  when supports.node_stage (repeat count (stage_on_node supports vol conpubvol))
  repeat count (publish_on_node supports vol conpubvol)
  check_stats supports vol

unfoldable pub node_works : Spec (Unit {0})
node_works = do
  supports ← before_each
  skip_if (not supports.controller_service)
  run_controller_test supports 1

unfoldable pub node_is_idempotent : Spec (Unit {0})
node_is_idempotent = do
  supports ← before_each
  skip_if (not supports.controller_service)
  sc ← asks (λ e. e.sc)
  skip_if (leb_ℤ sc.config.idempotent_count (pos 0))
  run_controller_test supports (pos_part sc.config.idempotent_count)

-- The specs of this file.
abbrev pub node_full_specs : List (Spec (Unit {0}))
node_full_specs = node_works ∷ node_is_idempotent ∷ []
