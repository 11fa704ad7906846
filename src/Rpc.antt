-- ===== src/Rpc.antt =====
-- The remote calls as steps of a spec: each asks the driver, with the calls made so far, and records
-- the call and its reply.
pub mod Keeps
use csi_test.Prelude.{List, ◌∷◌}
use csi_test.Csi.Status.{Reply}
use csi_test.Csi.Messages.{
  CreateVolumeRequest, CreateVolumeResponse, DeleteVolumeRequest, ControllerPublishVolumeRequest,
  ControllerPublishVolumeResponse, ControllerUnpublishVolumeRequest,
  ValidateVolumeCapabilitiesRequest, ValidateVolumeCapabilitiesResponse, ListVolumesRequest,
  ListVolumesResponse, ControllerExpandVolumeRequest, ControllerExpandVolumeResponse,
}
use csi_test.Csi.Snapshots.{
  CreateSnapshotRequest, CreateSnapshotResponse, DeleteSnapshotRequest, ListSnapshotsRequest,
  ListSnapshotsResponse,
}
use csi_test.Csi.Node.{
  NodeStageVolumeRequest, NodeUnstageVolumeRequest, NodePublishVolumeRequest,
  NodeUnpublishVolumeRequest, NodeGetVolumeStatsRequest, NodeGetVolumeStatsResponse,
  NodeExpandVolumeRequest, NodeGetInfoResponse,
}
use csi_test.Csi.Capabilities.{
  ControllerGetCapabilitiesResponse, NodeGetCapabilitiesResponse, GetPluginCapabilitiesResponse,
  ProbeResponse, GetPluginInfoResponse,
}
use csi_test.Csi.Client.{
  Empty, Client, Event, on_create_volume, on_delete_volume, on_controller_publish,
  on_controller_unpublish, on_validate, on_list_volumes, on_get_capacity,
  on_controller_capabilities, on_controller_expand, on_create_snapshot, on_delete_snapshot,
  on_list_snapshots, on_node_stage, on_node_unstage, on_node_publish, on_node_unpublish,
  on_volume_stats, on_node_expand, on_node_capabilities, on_node_info, on_plugin_capabilities,
  on_probe, on_plugin_info,
}
use csi_test.Spec.{Spec, done}

-- One call: `ask` is the driver's operation at its request, `record_as` the event that it leaves.
unfoldable pub call :
    {A : Type 0} → (Client → List Event → Reply A) → (Reply A → Event) → Spec (Reply A)
call ask event e s =
    let r = ask e.client s.history in (done r, record s { history = event r ∷ s.history })

unfoldable pub create_volume : CreateVolumeRequest → Spec (Reply CreateVolumeResponse)
unfolding call
create_volume req = call (λ c h. c.create_volume h req) (on_create_volume req)

unfoldable pub delete_volume : DeleteVolumeRequest → Spec (Reply Empty)
unfolding call
delete_volume req = call (λ c h. c.delete_volume h req) (on_delete_volume req)

unfoldable pub controller_publish :
    ControllerPublishVolumeRequest → Spec (Reply ControllerPublishVolumeResponse)
unfolding call
controller_publish req = call (λ c h. c.controller_publish h req) (on_controller_publish req)

unfoldable pub controller_unpublish : ControllerUnpublishVolumeRequest → Spec (Reply Empty)
unfolding call
controller_unpublish req = call (λ c h. c.controller_unpublish h req) (on_controller_unpublish req)

unfoldable pub validate :
    ValidateVolumeCapabilitiesRequest → Spec (Reply ValidateVolumeCapabilitiesResponse)
unfolding call
validate req = call (λ c h. c.validate h req) (on_validate req)

unfoldable pub list_volumes : ListVolumesRequest → Spec (Reply ListVolumesResponse)
unfolding call
list_volumes req = call (λ c h. c.list_volumes h req) (on_list_volumes req)

unfoldable pub get_capacity : Spec (Reply Empty)
unfolding call
get_capacity = call (λ c h. c.get_capacity h) on_get_capacity

unfoldable pub controller_capabilities : Spec (Reply ControllerGetCapabilitiesResponse)
unfolding call
controller_capabilities = call (λ c h. c.controller_capabilities h) on_controller_capabilities

unfoldable pub controller_expand :
    ControllerExpandVolumeRequest → Spec (Reply ControllerExpandVolumeResponse)
unfolding call
controller_expand req = call (λ c h. c.controller_expand h req) (on_controller_expand req)

unfoldable pub create_snapshot : CreateSnapshotRequest → Spec (Reply CreateSnapshotResponse)
unfolding call
create_snapshot req = call (λ c h. c.create_snapshot h req) (on_create_snapshot req)

unfoldable pub delete_snapshot : DeleteSnapshotRequest → Spec (Reply Empty)
unfolding call
delete_snapshot req = call (λ c h. c.delete_snapshot h req) (on_delete_snapshot req)

unfoldable pub list_snapshots : ListSnapshotsRequest → Spec (Reply ListSnapshotsResponse)
unfolding call
list_snapshots req = call (λ c h. c.list_snapshots h req) (on_list_snapshots req)

unfoldable pub node_stage : NodeStageVolumeRequest → Spec (Reply Empty)
unfolding call
node_stage req = call (λ c h. c.node_stage h req) (on_node_stage req)

unfoldable pub node_unstage : NodeUnstageVolumeRequest → Spec (Reply Empty)
unfolding call
node_unstage req = call (λ c h. c.node_unstage h req) (on_node_unstage req)

unfoldable pub node_publish : NodePublishVolumeRequest → Spec (Reply Empty)
unfolding call
node_publish req = call (λ c h. c.node_publish h req) (on_node_publish req)

unfoldable pub node_unpublish : NodeUnpublishVolumeRequest → Spec (Reply Empty)
unfolding call
node_unpublish req = call (λ c h. c.node_unpublish h req) (on_node_unpublish req)

unfoldable pub volume_stats : NodeGetVolumeStatsRequest → Spec (Reply NodeGetVolumeStatsResponse)
unfolding call
volume_stats req = call (λ c h. c.volume_stats h req) (on_volume_stats req)

unfoldable pub node_expand : NodeExpandVolumeRequest → Spec (Reply Empty)
unfolding call
node_expand req = call (λ c h. c.node_expand h req) (on_node_expand req)

unfoldable pub node_capabilities : Spec (Reply NodeGetCapabilitiesResponse)
unfolding call
node_capabilities = call (λ c h. c.node_capabilities h) on_node_capabilities

unfoldable pub node_info : Spec (Reply NodeGetInfoResponse)
unfolding call
node_info = call (λ c h. c.node_info h) on_node_info

unfoldable pub plugin_capabilities : Spec (Reply GetPluginCapabilitiesResponse)
unfolding call
plugin_capabilities = call (λ c h. c.plugin_capabilities h) on_plugin_capabilities

unfoldable pub probe : Spec (Reply ProbeResponse)
unfolding call
probe = call (λ c h. c.probe h) on_probe

unfoldable pub plugin_info : Spec (Reply GetPluginInfoResponse)
unfolding call
plugin_info = call (λ c h. c.plugin_info h) on_plugin_info
