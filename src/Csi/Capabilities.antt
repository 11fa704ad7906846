-- ===== src/Csi/Capabilities.antt =====
-- The capability messages of the three services. An enum value is its protobuf number.
use csi_test.Prelude.{ℕ, String, List, Bool, Option, StringMap}

-- `rpc` is the type in `GetRpc()`, and `none` where that is nil.
pub record ServiceCapability : Type 0 where
  pub rpc : Option ℕ

-- `capabilities` is `none` for a nil slice.
pub record ControllerGetCapabilitiesResponse : Type 0 where
  pub capabilities : Option (List ServiceCapability)

pub record NodeGetCapabilitiesResponse : Type 0 where
  pub capabilities : List ServiceCapability

-- The `oneof` of `PluginCapability`.
pub data PluginCapability : Type 0 where
  service : ℕ → PluginCapability
  volume_expansion : ℕ → PluginCapability
  no_type : PluginCapability

pub record GetPluginCapabilitiesResponse : Type 0 where
  pub capabilities : List PluginCapability

pub record ProbeResponse : Type 0 where
  pub ready : Option Bool

pub record GetPluginInfoResponse : Type 0 where
  pub name : String
  pub vendor_version : String
  pub manifest : StringMap
