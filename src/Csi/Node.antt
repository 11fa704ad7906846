-- ===== src/Csi/Node.antt =====
-- The messages of the Node service.
use csi_test.Prelude.{String, List, Bool, false, Option, none, [], StringMap}
use csi_test.Prelude.Int.{ℤ}
use csi_test.Csi.Messages.{CapacityRange, VolumeCapability, Topology}

pub record NodeStageVolumeRequest : Type 0 where
  pub volume_id : String
  pub publish_context : StringMap
  pub staging_target_path : String
  pub volume_capability : Option VolumeCapability
  pub secrets : StringMap
  pub volume_context : StringMap

abbrev pub zero_node_stage : NodeStageVolumeRequest
zero_node_stage = record {
  volume_id = "";
  publish_context = [];
  staging_target_path = "";
  volume_capability = none;
  secrets = [];
  volume_context = [];
}

pub record NodeUnstageVolumeRequest : Type 0 where
  pub volume_id : String
  pub staging_target_path : String

pub record NodePublishVolumeRequest : Type 0 where
  pub volume_id : String
  pub publish_context : StringMap
  pub staging_target_path : String
  pub target_path : String
  pub volume_capability : Option VolumeCapability
  pub readonly : Bool
  pub secrets : StringMap
  pub volume_context : StringMap

abbrev pub zero_node_publish : NodePublishVolumeRequest
zero_node_publish = record {
  volume_id = "";
  publish_context = [];
  staging_target_path = "";
  target_path = "";
  volume_capability = none;
  readonly = false;
  secrets = [];
  volume_context = [];
}

pub record NodeUnpublishVolumeRequest : Type 0 where
  pub volume_id : String
  pub target_path : String

pub record NodeGetVolumeStatsRequest : Type 0 where
  pub volume_id : String
  pub volume_path : String

pub record VolumeUsage : Type 0 where
  pub available : ℤ
  pub total : ℤ
  pub used : ℤ

-- `usage` is `none` for a nil slice.
pub record NodeGetVolumeStatsResponse : Type 0 where
  pub usage : Option (List VolumeUsage)

pub record NodeExpandVolumeRequest : Type 0 where
  pub volume_id : String
  pub volume_path : String
  pub capacity_range : Option CapacityRange
  pub volume_capability : Option VolumeCapability

abbrev pub zero_node_expand : NodeExpandVolumeRequest
zero_node_expand = record {
  volume_id = "";
  volume_path = "";
  capacity_range = none;
  volume_capability = none;
}

pub record NodeGetInfoResponse : Type 0 where
  pub node_id : String
  pub max_volumes_per_node : ℤ
  pub accessible_topology : Option Topology
