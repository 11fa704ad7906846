-- ===== src/Resources/Cleanup/Keeps.antt =====
-- What survives a Cleanup, from what survives its calls.
use csi_test.Prelude.{ℕ, String, List, [], ◌∷◌}
use csi_test.Config.{CsiSecrets}
use csi_test.Csi.Messages.{DeleteVolumeRequest}
use csi_test.Csi.Snapshots.{DeleteSnapshotRequest}
use csi_test.Spec.{State, ResourceInfo, ResourceData, volume_info, snapshot_info}
use csi_test.Spec.Keeps.{Keeps, keeps_rules, Keeps-pure, Keeps-bind}
use csi_test.Rpc
use csi_test.Rpc.Keeps.{Frame, rpc_rules}
use csi_test.Requests.{secret}
use csi_test.Capability.{is_node_capability_supported}
use csi_test.Resources.Keeps.{find_rpc-Keeps}
use csi_test.Resources.Cleanup.{
  cleanup_staging, cleanup_node, cleanup_publish, cleanup_delete, cleanup_volume, cleanup_snapshot,
  cleanup_resource, cleanup_all,
}

-- `P` survives the calls of Cleanup.
pub record Cleans (P : State → Type 0) : Type 0 where
  pub frame : Frame P
  pub delete_volume : (req : DeleteVolumeRequest) → Keeps P (Rpc.delete_volume req)
  pub delete_snapshot : (req : DeleteSnapshotRequest) → Keeps P (Rpc.delete_snapshot req)

module _ {P : State → Type 0} (c : Cleans P) where
  frame_of : Frame P
  frame_of = c.frame

  delete_volume-Keeps : (req : DeleteVolumeRequest) → Keeps P (Rpc.delete_volume req)
  delete_volume-Keeps = c.delete_volume

  delete_snapshot-Keeps : (req : DeleteSnapshotRequest) → Keeps P (Rpc.delete_snapshot req)
  delete_snapshot-Keeps = c.delete_snapshot

ruleset cleanup_rules =
    (keeps_rules, rpc_rules, frame_of, delete_volume-Keeps, delete_snapshot-Keeps)

module _ {P : State → Type 0} (c : Cleans P) where
  secret-Keeps : (field : CsiSecrets → List (String × String)) → Keeps P (secret field)
  unfolding secret
  secret-Keeps field = search cleanup_rules depth 12

  supported-Keeps : (t : ℕ) → Keeps P (is_node_capability_supported t)
  unfolding is_node_capability_supported
  supported-Keeps t = search (cleanup_rules, find_rpc-Keeps) depth 12

  volume-Keeps : (id node_id : String) → Keeps P (cleanup_volume id node_id)
  unfolding cleanup_volume cleanup_node cleanup_staging cleanup_publish cleanup_delete
  volume-Keeps id node_id = search (cleanup_rules, secret-Keeps, supported-Keeps) depth 40 fits 3000

  resource-Keeps : (id : String) (d : ResourceData) → Keeps P (cleanup_resource id d)
  unfolding cleanup_resource cleanup_snapshot
  resource-Keeps id (volume_info node_id) = volume-Keeps id node_id
  resource-Keeps id snapshot_info = search (cleanup_rules, secret-Keeps) depth 12

  pub all-Keeps : (infos : List ResourceInfo) → Keeps P (cleanup_all infos)
  unfolding cleanup_all
  all-Keeps [] = Keeps-pure []
  all-Keeps (info ∷ infos) =
      Keeps-bind _ _ (resource-Keeps info.id info.resource)
        λ _. Keeps-bind _ _ (all-Keeps infos) λ _. Keeps-pure _
