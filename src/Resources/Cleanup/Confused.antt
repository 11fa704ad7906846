-- ===== src/Resources/Cleanup/Confused.antt =====
-- Once the IDs of a volume and a snapshot have been mixed up, they stay so in the history.
use csi_test.Prelude.{String, true, ◌≡◌, reverse, arith}
use csi_test.Csi.Client.{Event}
use csi_test.Csi.Messages.{CreateVolumeRequest, DeleteVolumeRequest, ControllerPublishVolumeRequest}
use csi_test.Csi.Snapshots.{CreateSnapshotRequest, DeleteSnapshotRequest}
use csi_test.Spec.{Env, State}
use csi_test.Spec.Keeps.{Keeps}
use csi_test.Rpc
use csi_test.Rpc.Keeps.{Frame, add_event}
use csi_test.Resources.{
  create_volume, delete_volume, controller_publish_volume, create_snapshot, delete_snapshot,
}
use csi_test.Resources.Keeps.{Manages}
use csi_test.Resources.Tracking.{Kind}
use csi_test.Resources.Liveness.{is_confused}
use csi_test.Resources.Cleanup.{cleanup}
use csi_test.Resources.Cleanup.Keeps.{Cleans, all-Keeps}
use csi_test.Resources.Cleanup.Order.{CanClean, all-Run}

abbrev pub Confused : Kind → String → State → Type 0
Confused k v s = is_confused k v s.history ≡ true

module _ (k : Kind) (v : String) where
  event-Confused : (ev : Event) (s : State) → Confused k v s → Confused k v (add_event ev s)
  unfolding is_confused
  event-Confused ev s h = ground (arith, h)

  Confused-Frame : Frame (Confused k v)
  Confused-Frame = record {
    event = λ ev s n h. event-Confused ev s h;
    generate = λ s h. h;
    provide = λ s b h. h;
  }

  create_volume-Confused : (req : CreateVolumeRequest) → Keeps (Confused k v) (create_volume req)
  unfolding create_volume Rpc.create_volume is_confused
  create_volume-Confused req = record { at = λ e s h. ground (arith, h) }

  delete_volume-Confused : (req : DeleteVolumeRequest) → Keeps (Confused k v) (delete_volume req)
  unfolding delete_volume Rpc.delete_volume is_confused
  delete_volume-Confused req = record { at = λ e s h. ground (arith, h) }

  controller_publish_volume-Confused :
      (req : ControllerPublishVolumeRequest) → Keeps (Confused k v) (controller_publish_volume req)
  unfolding controller_publish_volume Rpc.controller_publish is_confused
  controller_publish_volume-Confused req = record { at = λ e s h. ground (arith, h) }

  create_snapshot-Confused :
      (req : CreateSnapshotRequest) → Keeps (Confused k v) (create_snapshot req)
  unfolding create_snapshot Rpc.create_snapshot is_confused
  create_snapshot-Confused req = record { at = λ e s h. ground (arith, h) }

  delete_snapshot-Confused :
      (req : DeleteSnapshotRequest) → Keeps (Confused k v) (delete_snapshot req)
  unfolding delete_snapshot Rpc.delete_snapshot is_confused
  delete_snapshot-Confused req = record { at = λ e s h. ground (arith, h) }

  pub Confused-Manages : Manages (Confused k v)
  Confused-Manages = record {
    frame = Confused-Frame;
    create_volume = create_volume-Confused;
    delete_volume = delete_volume-Confused;
    controller_publish_volume = controller_publish_volume-Confused;
    create_snapshot = create_snapshot-Confused;
    delete_snapshot = delete_snapshot-Confused;
  }

  rpc_delete_volume-Confused :
      (req : DeleteVolumeRequest) → Keeps (Confused k v) (Rpc.delete_volume req)
  unfolding Rpc.delete_volume
  rpc_delete_volume-Confused req = record { at = λ e s h. event-Confused _ s h }

  rpc_delete_snapshot-Confused :
      (req : DeleteSnapshotRequest) → Keeps (Confused k v) (Rpc.delete_snapshot req)
  unfolding Rpc.delete_snapshot
  rpc_delete_snapshot-Confused req = record { at = λ e s h. event-Confused _ s h }

  Confused-Cleans : Cleans (Confused k v)
  Confused-Cleans = record {
    frame = Confused-Frame;
    delete_volume = rpc_delete_volume-Confused;
    delete_snapshot = rpc_delete_snapshot-Confused;
  }

  pub cleanup-Confused :
      (e : Env) (s : State) → CanClean e → Confused k v s → Confused k v (cleanup e s).1
  unfolding cleanup
  cleanup-Confused e s can h =
      let infos = reverse s.managed in
      ground (arith, h, all-Run e can infos s, (all-Keeps Confused-Cleans infos).at e s)
