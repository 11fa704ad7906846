-- ===== src/Csi/Messages.antt =====
-- The messages of the Controller service about volumes. A field that is a pointer is an `Option`.
use csi_test.Prelude.{ℕ, String, List, Bool, false, Option, none, [], StringMap}
use csi_test.Prelude.Int.{ℤ, pos}

pub record CapacityRange : Type 0 where
  pub required_bytes : ℤ
  pub limit_bytes : ℤ

-- The access type of a capability, mount or block, or none.
pub data AccessType : Type 0 where
  mount block unset : AccessType

-- `access_mode` is the number of the protobuf enum.
pub record VolumeCapability : Type 0 where
  pub access_type : AccessType
  pub access_mode : ℕ

abbrev pub single_node_writer : ℕ
single_node_writer = 1

pub record Topology : Type 0 where
  pub segments : StringMap

pub record TopologyRequirement : Type 0 where
  pub requisite : List Topology
  pub preferred : List Topology

pub data VolumeContentSource : Type 0 where
  from_snapshot : String → VolumeContentSource
  from_volume : String → VolumeContentSource

pub record Volume : Type 0 where
  pub capacity_bytes : ℤ
  pub volume_id : String
  pub volume_context : StringMap

pub record CreateVolumeRequest : Type 0 where
  pub name : String
  pub capacity_range : Option CapacityRange
  pub volume_capabilities : List VolumeCapability
  pub parameters : StringMap
  pub secrets : StringMap
  pub volume_content_source : Option VolumeContentSource
  pub accessibility_requirements : Option TopologyRequirement

-- `CreateVolumeRequest{}`: what a literal leaves out is zero.
abbrev pub zero_create_volume : CreateVolumeRequest
zero_create_volume = record {
  name = "";
  capacity_range = none;
  volume_capabilities = [];
  parameters = [];
  secrets = [];
  volume_content_source = none;
  accessibility_requirements = none;
}

pub record CreateVolumeResponse : Type 0 where
  pub volume : Option Volume

pub record DeleteVolumeRequest : Type 0 where
  pub volume_id : String
  pub secrets : StringMap

pub record ControllerPublishVolumeRequest : Type 0 where
  pub volume_id : String
  pub node_id : String
  pub volume_capability : Option VolumeCapability
  pub readonly : Bool
  pub secrets : StringMap
  pub volume_context : StringMap

abbrev pub zero_controller_publish : ControllerPublishVolumeRequest
zero_controller_publish = record {
  volume_id = "";
  node_id = "";
  volume_capability = none;
  readonly = false;
  secrets = [];
  volume_context = [];
}

pub record ControllerPublishVolumeResponse : Type 0 where
  pub publish_context : StringMap

pub record ControllerUnpublishVolumeRequest : Type 0 where
  pub volume_id : String
  pub node_id : String
  pub secrets : StringMap

pub record ValidateVolumeCapabilitiesRequest : Type 0 where
  pub volume_id : String
  pub volume_capabilities : List VolumeCapability
  pub secrets : StringMap

-- `confirmed` holds the capabilities of `Confirmed`, if there is one.
pub record ValidateVolumeCapabilitiesResponse : Type 0 where
  pub confirmed : Option (List VolumeCapability)

pub record ListVolumesRequest : Type 0 where
  pub max_entries : ℤ
  pub starting_token : String

abbrev pub zero_list_volumes : ListVolumesRequest
zero_list_volumes = record { max_entries = pos 0; starting_token = "" }

-- Each entry is its `Volume`.
pub record ListVolumesResponse : Type 0 where
  pub entries : List (Option Volume)
  pub next_token : String

pub record ControllerExpandVolumeRequest : Type 0 where
  pub volume_id : String
  pub capacity_range : Option CapacityRange
  pub secrets : StringMap
  pub volume_capability : Option VolumeCapability

pub record ControllerExpandVolumeResponse : Type 0 where
  pub capacity_bytes : ℤ
