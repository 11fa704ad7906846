-- ===== src/Csi/Client.antt =====
-- The driver under test, as the clients of package csi reach it. A driver may answer by anything
-- that happened before, so each operation is a function of the calls made so far.
use csi_test.Prelude.{List}
use csi_test.Csi.Status.{Reply}
use csi_test.Csi.Messages.{
  CreateVolumeRequest, CreateVolumeResponse, DeleteVolumeRequest, ControllerPublishVolumeRequest,
  ControllerPublishVolumeResponse, ControllerUnpublishVolumeRequest,
  ValidateVolumeCapabilitiesRequest, ValidateVolumeCapabilitiesResponse, ListVolumesRequest,
  ListVolumesResponse, ControllerExpandVolumeRequest, ControllerExpandVolumeResponse,
}
use csi_test.Csi.Snapshots.{
  CreateSnapshotRequest, CreateSnapshotResponse, DeleteSnapshotRequest, ListSnapshotsRequest,
  ListSnapshotsResponse,
}
use csi_test.Csi.Node.{
  NodeStageVolumeRequest, NodeUnstageVolumeRequest, NodePublishVolumeRequest,
  NodeUnpublishVolumeRequest, NodeGetVolumeStatsRequest, NodeGetVolumeStatsResponse,
  NodeExpandVolumeRequest, NodeGetInfoResponse,
}
use csi_test.Csi.Capabilities.{
  ControllerGetCapabilitiesResponse, NodeGetCapabilitiesResponse, GetPluginCapabilitiesResponse,
  ProbeResponse, GetPluginInfoResponse,
}

-- The answer to a call whose response message is empty.
abbrev pub Empty : Type 0
Empty = Unit {0}

-- One finished remote call: its request, if it has fields, and its reply.
pub data Event : Type 0 where
  on_create_volume : CreateVolumeRequest → Reply CreateVolumeResponse → Event
  on_delete_volume : DeleteVolumeRequest → Reply Empty → Event
  on_controller_publish :
      ControllerPublishVolumeRequest → Reply ControllerPublishVolumeResponse → Event
  on_controller_unpublish : ControllerUnpublishVolumeRequest → Reply Empty → Event
  on_validate : ValidateVolumeCapabilitiesRequest → Reply ValidateVolumeCapabilitiesResponse → Event
  on_list_volumes : ListVolumesRequest → Reply ListVolumesResponse → Event
  on_get_capacity : Reply Empty → Event
  on_controller_capabilities : Reply ControllerGetCapabilitiesResponse → Event
  on_controller_expand :
      ControllerExpandVolumeRequest → Reply ControllerExpandVolumeResponse → Event
  on_create_snapshot : CreateSnapshotRequest → Reply CreateSnapshotResponse → Event
  on_delete_snapshot : DeleteSnapshotRequest → Reply Empty → Event
  on_list_snapshots : ListSnapshotsRequest → Reply ListSnapshotsResponse → Event
  on_node_stage : NodeStageVolumeRequest → Reply Empty → Event
  on_node_unstage : NodeUnstageVolumeRequest → Reply Empty → Event
  on_node_publish : NodePublishVolumeRequest → Reply Empty → Event
  on_node_unpublish : NodeUnpublishVolumeRequest → Reply Empty → Event
  on_volume_stats : NodeGetVolumeStatsRequest → Reply NodeGetVolumeStatsResponse → Event
  on_node_expand : NodeExpandVolumeRequest → Reply Empty → Event
  on_node_capabilities : Reply NodeGetCapabilitiesResponse → Event
  on_node_info : Reply NodeGetInfoResponse → Event
  on_plugin_capabilities : Reply GetPluginCapabilitiesResponse → Event
  on_probe : Reply ProbeResponse → Event
  on_plugin_info : Reply GetPluginInfoResponse → Event

-- csi.ControllerClient, csi.NodeClient and csi.IdentityClient. The list holds the calls made so
-- far, the newest first.
pub record Client : Type 0 where
  pub create_volume : List Event → CreateVolumeRequest → Reply CreateVolumeResponse
  pub delete_volume : List Event → DeleteVolumeRequest → Reply Empty
  pub controller_publish :
      List Event → ControllerPublishVolumeRequest → Reply ControllerPublishVolumeResponse
  pub controller_unpublish : List Event → ControllerUnpublishVolumeRequest → Reply Empty
  pub validate :
      List Event → ValidateVolumeCapabilitiesRequest → Reply ValidateVolumeCapabilitiesResponse
  pub list_volumes : List Event → ListVolumesRequest → Reply ListVolumesResponse
  pub get_capacity : List Event → Reply Empty
  pub controller_capabilities : List Event → Reply ControllerGetCapabilitiesResponse
  pub controller_expand :
      List Event → ControllerExpandVolumeRequest → Reply ControllerExpandVolumeResponse
  pub create_snapshot : List Event → CreateSnapshotRequest → Reply CreateSnapshotResponse
  pub delete_snapshot : List Event → DeleteSnapshotRequest → Reply Empty
  pub list_snapshots : List Event → ListSnapshotsRequest → Reply ListSnapshotsResponse
  pub node_stage : List Event → NodeStageVolumeRequest → Reply Empty
  pub node_unstage : List Event → NodeUnstageVolumeRequest → Reply Empty
  pub node_publish : List Event → NodePublishVolumeRequest → Reply Empty
  pub node_unpublish : List Event → NodeUnpublishVolumeRequest → Reply Empty
  pub volume_stats : List Event → NodeGetVolumeStatsRequest → Reply NodeGetVolumeStatsResponse
  pub node_expand : List Event → NodeExpandVolumeRequest → Reply Empty
  pub node_capabilities : List Event → Reply NodeGetCapabilitiesResponse
  pub node_info : List Event → Reply NodeGetInfoResponse
  pub plugin_capabilities : List Event → Reply GetPluginCapabilitiesResponse
  pub probe : List Event → Reply ProbeResponse
  pub plugin_info : List Event → Reply GetPluginInfoResponse
