-- ===== src/Controller/Lifecycle.antt =====
-- pkg/sanity/controller.go: VolumeLifecycle and the specs under "volume lifecycle".
pub mod Invariant
pub mod Entries
use csi_test.Prelude.{List, ℕ, zero, suc, String, not, [], ◌∷◌, Option, none, some, ◌==◌}
use csi_test.Prelude.Int.{pos_part}
use csi_test.Csi.Messages.{Topology, TopologyRequirement}
use csi_test.Csi.ControllerCapability
use csi_test.Spec.{Spec, pure, asks, expect, expect_some, expect_no_error, ◌>>=◌, ◌>>◌}
use csi_test.Rpc
use csi_test.Requests.{unique_string, make_controller_publish_req}
use csi_test.Resources.{must_create_volume, must_controller_publish_volume}
use csi_test.Assert.{requires, writer_request}

-- Topology requirements are handed on if the node has a topology.
abbrev pub topology_requirement : Option Topology → Option TopologyRequirement
topology_requirement none = none
topology_requirement (some t) = some (record { requisite = t ∷ []; preferred = [] })

-- for i := 0; i < count; i++ { r.MustControllerPublishVolume(…) }
unfoldable pub publish_repeatedly : String → String → ℕ → Spec (Unit {0})
publish_repeatedly volume_id node_id zero = pure tt
publish_repeatedly volume_id node_id (suc count) = do
  req ← make_controller_publish_req volume_id node_id
  must_controller_publish_volume req
  publish_repeatedly volume_id node_id count

unfoldable pub volume_lifecycle : ℕ → Spec (Unit {0})
volume_lifecycle count = do
  info ← Rpc.node_info
  expect_no_error info.error
  ni ← expect_some info.response
  expect (not (ni.node_id == ""))
  name ← unique_string "sanity-controller-publish"
  req ← writer_request name none
  vol ←
      must_create_volume
        (record req { accessibility_requirements = topology_requirement ni.accessible_topology })
  publish_repeatedly vol.volume_id ni.node_id count

unfoldable pub lifecycle_works : Spec (Unit {0})
lifecycle_works = do requires ControllerCapability.publish_unpublish_volume; volume_lifecycle 1

-- A count below 0 makes no round, as 0 does.
unfoldable pub lifecycle_is_idempotent : Spec (Unit {0})
lifecycle_is_idempotent = do
  requires ControllerCapability.publish_unpublish_volume
  sc ← asks (λ e. e.sc)
  volume_lifecycle (pos_part sc.config.idempotent_count)

-- The specs of this file.
abbrev pub lifecycle_specs : List (Spec (Unit {0}))
lifecycle_specs = lifecycle_works ∷ lifecycle_is_idempotent ∷ []
