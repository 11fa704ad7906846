-- ===== src/Rpc/Keeps.antt =====
-- Invariants of the remote calls that register and free no resource: what such a call adds to the
-- history is a neutral event.
use csi_test.Prelude.{suc, Bool, true, false, ◌||◌, ◌≡◌, refl, ◌∷◌}
use csi_test.Csi.Messages.{
  ControllerUnpublishVolumeRequest, ValidateVolumeCapabilitiesRequest, ListVolumesRequest,
  ControllerExpandVolumeRequest,
}
use csi_test.Csi.Snapshots.{ListSnapshotsRequest}
use csi_test.Csi.Node.{
  NodeStageVolumeRequest, NodeUnstageVolumeRequest, NodePublishVolumeRequest,
  NodeUnpublishVolumeRequest, NodeGetVolumeStatsRequest, NodeExpandVolumeRequest,
}
use csi_test.Csi.Client.{
  Event, on_create_volume, on_delete_volume, on_controller_publish, on_create_snapshot,
  on_delete_snapshot,
}
use csi_test.Spec.{State, next_generated, provide_controller}
use csi_test.Spec.Keeps.{Keeps}
use csi_test.Rpc

abbrev pub is_neutral : Event → Bool
is_neutral (on_create_volume req r) = false
is_neutral (on_delete_volume req r) = false
is_neutral (on_controller_publish req r) = false
is_neutral (on_create_snapshot req r) = false
is_neutral (on_delete_snapshot req r) = false
is_neutral _ = true

abbrev pub add_event : Event → State → State
add_event ev s = record s { history = ev ∷ s.history }

-- `P` survives a neutral event, the generation of an ID and the note about the controller service.
pub record Frame (P : State → Type 0) : Type 0 where
  pub event : (ev : Event) (s : State) → is_neutral ev ≡ true → P s → P (add_event ev s)
  pub generate : (s : State) → P s → P (record s { generated = suc s.generated })
  pub provide : (s : State) (b : Bool) → P s → P (record s { provides_controller = b })

module _ {P : State → Type 0} (f : Frame P) where
  pub controller_unpublish-Keeps :
      (req : ControllerUnpublishVolumeRequest) → Keeps P (Rpc.controller_unpublish req)
  unfolding Rpc.controller_unpublish
  controller_unpublish-Keeps req = record { at = λ e s h. f.event _ s refl h }

  pub validate-Keeps : (req : ValidateVolumeCapabilitiesRequest) → Keeps P (Rpc.validate req)
  unfolding Rpc.validate
  validate-Keeps req = record { at = λ e s h. f.event _ s refl h }

  pub list_volumes-Keeps : (req : ListVolumesRequest) → Keeps P (Rpc.list_volumes req)
  unfolding Rpc.list_volumes
  list_volumes-Keeps req = record { at = λ e s h. f.event _ s refl h }

  pub get_capacity-Keeps : Keeps P Rpc.get_capacity
  unfolding Rpc.get_capacity
  get_capacity-Keeps = record { at = λ e s h. f.event _ s refl h }

  pub controller_capabilities-Keeps : Keeps P Rpc.controller_capabilities
  unfolding Rpc.controller_capabilities
  controller_capabilities-Keeps = record { at = λ e s h. f.event _ s refl h }

  pub controller_expand-Keeps :
      (req : ControllerExpandVolumeRequest) → Keeps P (Rpc.controller_expand req)
  unfolding Rpc.controller_expand
  controller_expand-Keeps req = record { at = λ e s h. f.event _ s refl h }

  pub list_snapshots-Keeps : (req : ListSnapshotsRequest) → Keeps P (Rpc.list_snapshots req)
  unfolding Rpc.list_snapshots
  list_snapshots-Keeps req = record { at = λ e s h. f.event _ s refl h }

  pub node_stage-Keeps : (req : NodeStageVolumeRequest) → Keeps P (Rpc.node_stage req)
  unfolding Rpc.node_stage
  node_stage-Keeps req = record { at = λ e s h. f.event _ s refl h }

  pub node_unstage-Keeps : (req : NodeUnstageVolumeRequest) → Keeps P (Rpc.node_unstage req)
  unfolding Rpc.node_unstage
  node_unstage-Keeps req = record { at = λ e s h. f.event _ s refl h }

  pub node_publish-Keeps : (req : NodePublishVolumeRequest) → Keeps P (Rpc.node_publish req)
  unfolding Rpc.node_publish
  node_publish-Keeps req = record { at = λ e s h. f.event _ s refl h }

  pub node_unpublish-Keeps : (req : NodeUnpublishVolumeRequest) → Keeps P (Rpc.node_unpublish req)
  unfolding Rpc.node_unpublish
  node_unpublish-Keeps req = record { at = λ e s h. f.event _ s refl h }

  pub volume_stats-Keeps : (req : NodeGetVolumeStatsRequest) → Keeps P (Rpc.volume_stats req)
  unfolding Rpc.volume_stats
  volume_stats-Keeps req = record { at = λ e s h. f.event _ s refl h }

  pub node_expand-Keeps : (req : NodeExpandVolumeRequest) → Keeps P (Rpc.node_expand req)
  unfolding Rpc.node_expand
  node_expand-Keeps req = record { at = λ e s h. f.event _ s refl h }

  pub node_capabilities-Keeps : Keeps P Rpc.node_capabilities
  unfolding Rpc.node_capabilities
  node_capabilities-Keeps = record { at = λ e s h. f.event _ s refl h }

  pub node_info-Keeps : Keeps P Rpc.node_info
  unfolding Rpc.node_info
  node_info-Keeps = record { at = λ e s h. f.event _ s refl h }

  pub plugin_capabilities-Keeps : Keeps P Rpc.plugin_capabilities
  unfolding Rpc.plugin_capabilities
  plugin_capabilities-Keeps = record { at = λ e s h. f.event _ s refl h }

  pub probe-Keeps : Keeps P Rpc.probe
  unfolding Rpc.probe
  probe-Keeps = record { at = λ e s h. f.event _ s refl h }

  pub plugin_info-Keeps : Keeps P Rpc.plugin_info
  unfolding Rpc.plugin_info
  plugin_info-Keeps = record { at = λ e s h. f.event _ s refl h }

  pub next_generated-Keeps : Keeps P next_generated
  unfolding next_generated
  next_generated-Keeps = record { at = λ e s h. f.generate s h }

  pub provide_controller-Keeps : (found : Bool) → Keeps P (provide_controller found)
  unfolding provide_controller
  provide_controller-Keeps found = record {
    at = λ e s h. f.provide s (s.provides_controller || found) h;
  }

pub ruleset rpc_rules = (
  controller_unpublish-Keeps, validate-Keeps, list_volumes-Keeps, get_capacity-Keeps,
  controller_capabilities-Keeps, controller_expand-Keeps, list_snapshots-Keeps, node_stage-Keeps,
  node_unstage-Keeps, node_publish-Keeps, node_unpublish-Keeps, volume_stats-Keeps,
  node_expand-Keeps, node_capabilities-Keeps, node_info-Keeps, plugin_capabilities-Keeps,
  probe-Keeps, plugin_info-Keeps, next_generated-Keeps, provide_controller-Keeps,
)
