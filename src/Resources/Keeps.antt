-- ===== src/Resources/Keeps.antt =====
-- Invariants of everything that a test body can do, from those of the calls that register and free
-- resources.
use csi_test.Prelude.{ℕ, true, eqb, String, List, [], ◌∷◌, Option, StringMap}
use csi_test.Csi.Messages.{CreateVolumeRequest, DeleteVolumeRequest, ControllerPublishVolumeRequest}
use csi_test.Csi.Snapshots.{Snapshot, CreateSnapshotRequest, DeleteSnapshotRequest}
use csi_test.Csi.Capabilities.{ServiceCapability}
use csi_test.Config.{CsiSecrets}
use csi_test.Spec.{State, expect_some}
use csi_test.Spec.Keeps.{Keeps, Keeps-pure, Keeps-bind, Keeps-expect_some, Keeps-if, keeps_rules}
use csi_test.Rpc.Keeps.{Frame, rpc_rules}
use csi_test.Requests.{
  secret, make_controller_publish_req, unique_string, unique_volume_id, unique_node_id,
}
use csi_test.Capability.{
  find_rpc, is_controller_capability_supported, is_node_capability_supported,
  is_plugin_capability_supported,
}
use csi_test.Resources.{
  create_volume, delete_volume, controller_publish_volume, create_snapshot, delete_snapshot,
  must_create_volume, must_controller_publish_volume, verify_snapshot_info, must_create_snapshot,
  must_create_snapshot_from_volume_request,
}

-- `P` survives every call of the resource manager.
pub record Manages (P : State → Type 0) : Type 0 where
  pub frame : Frame P
  pub create_volume : (req : CreateVolumeRequest) → Keeps P (create_volume req)
  pub delete_volume : (req : DeleteVolumeRequest) → Keeps P (delete_volume req)
  pub controller_publish_volume :
      (req : ControllerPublishVolumeRequest) → Keeps P (controller_publish_volume req)
  pub create_snapshot : (req : CreateSnapshotRequest) → Keeps P (create_snapshot req)
  pub delete_snapshot : (req : DeleteSnapshotRequest) → Keeps P (delete_snapshot req)

module _ {P : State → Type 0} (m : Manages P) where
  pub frame_of : Frame P
  frame_of = m.frame

  pub create_volume-Keeps : (req : CreateVolumeRequest) → Keeps P (create_volume req)
  create_volume-Keeps = m.create_volume

  pub delete_volume-Keeps : (req : DeleteVolumeRequest) → Keeps P (delete_volume req)
  delete_volume-Keeps = m.delete_volume

  pub controller_publish_volume-Keeps :
      (req : ControllerPublishVolumeRequest) → Keeps P (controller_publish_volume req)
  controller_publish_volume-Keeps = m.controller_publish_volume

  pub create_snapshot-Keeps : (req : CreateSnapshotRequest) → Keeps P (create_snapshot req)
  create_snapshot-Keeps = m.create_snapshot

  pub delete_snapshot-Keeps : (req : DeleteSnapshotRequest) → Keeps P (delete_snapshot req)
  delete_snapshot-Keeps = m.delete_snapshot

pub ruleset manager_rules = (
  keeps_rules, rpc_rules, frame_of, create_volume-Keeps, delete_volume-Keeps,
  controller_publish_volume-Keeps, create_snapshot-Keeps, delete_snapshot-Keeps,
)

module _ {P : State → Type 0} where
  pub find_rpc-Keeps : (t : ℕ) (caps : List ServiceCapability) → Keeps P (find_rpc t caps)
  unfolding find_rpc
  find_rpc-Keeps t [] = Keeps-pure _
  find_rpc-Keeps t (c ∷ caps) =
      Keeps-bind (expect_some c.rpc) _ (Keeps-expect_some c.rpc)
        λ rpc. Keeps-if (eqb rpc t) _ _ (Keeps-pure true) (find_rpc-Keeps t caps)

module _ {P : State → Type 0} (m : Manages P) where
  pub secret-Keeps : (field : CsiSecrets → StringMap) → Keeps P (secret field)
  unfolding secret
  secret-Keeps field = search manager_rules

  pub unique_string-Keeps : (prefix : String) → Keeps P (unique_string prefix)
  unfolding unique_string
  unique_string-Keeps prefix = search manager_rules

  pub unique_volume_id-Keeps : Keeps P unique_volume_id
  unfolding unique_volume_id
  unique_volume_id-Keeps = search manager_rules

  pub unique_node_id-Keeps : Keeps P unique_node_id
  unfolding unique_node_id
  unique_node_id-Keeps = search manager_rules

  pub verify_snapshot_info-Keeps : (s : Option Snapshot) → Keeps P (verify_snapshot_info s)
  unfolding verify_snapshot_info
  verify_snapshot_info-Keeps s = search manager_rules depth 12

pub ruleset helper_rules = (
  manager_rules, secret-Keeps, unique_string-Keeps, unique_volume_id-Keeps, unique_node_id-Keeps,
  find_rpc-Keeps, verify_snapshot_info-Keeps,
)

module _ {P : State → Type 0} (m : Manages P) where
  pub make_controller_publish_req-Keeps :
      (vol_id node_id : String) → Keeps P (make_controller_publish_req vol_id node_id)
  unfolding make_controller_publish_req
  make_controller_publish_req-Keeps vol_id node_id = search helper_rules

  pub is_controller_capability_supported-Keeps :
      (t : ℕ) → Keeps P (is_controller_capability_supported t)
  unfolding is_controller_capability_supported
  is_controller_capability_supported-Keeps t = search helper_rules depth 8

  pub is_node_capability_supported-Keeps : (t : ℕ) → Keeps P (is_node_capability_supported t)
  unfolding is_node_capability_supported
  is_node_capability_supported-Keeps t = search helper_rules depth 8

  pub is_plugin_capability_supported-Keeps : (t : ℕ) → Keeps P (is_plugin_capability_supported t)
  unfolding is_plugin_capability_supported
  is_plugin_capability_supported-Keeps t = search helper_rules depth 8

  pub must_create_volume-Keeps : (req : CreateVolumeRequest) → Keeps P (must_create_volume req)
  unfolding must_create_volume
  must_create_volume-Keeps req = search helper_rules depth 10

  pub must_controller_publish_volume-Keeps :
      (req : ControllerPublishVolumeRequest) → Keeps P (must_controller_publish_volume req)
  unfolding must_controller_publish_volume
  must_controller_publish_volume-Keeps req = search helper_rules depth 10

  pub must_create_snapshot-Keeps :
      (req : CreateSnapshotRequest) → Keeps P (must_create_snapshot req)
  unfolding must_create_snapshot
  must_create_snapshot-Keeps req = search helper_rules depth 10

pub ruleset body_rules = (
  helper_rules, make_controller_publish_req-Keeps, is_controller_capability_supported-Keeps,
  is_node_capability_supported-Keeps, is_plugin_capability_supported-Keeps,
  must_create_volume-Keeps, must_controller_publish_volume-Keeps, must_create_snapshot-Keeps,
)

module _ {P : State → Type 0} (m : Manages P) where
  pub must_create_snapshot_from_volume_request-Keeps :
      (req : CreateVolumeRequest) (name : String)
      → Keeps P (must_create_snapshot_from_volume_request req name)
  unfolding must_create_snapshot_from_volume_request
  must_create_snapshot_from_volume_request-Keeps req name = search body_rules depth 10

-- The rules for a test body.
pub ruleset spec_rules = (body_rules, must_create_snapshot_from_volume_request-Keeps)
