-- ===== src/Resources.antt =====
-- The resource manager of pkg/sanity/resources.go: the calls that register and unregister volumes and
-- snapshots. The exported methods add a call offset for the failure report and are these functions.
-- A method body that holds `mutex` runs as one step.
pub mod Cleanup
pub mod Tracking
pub mod Liveness
pub mod Keeps
pub mod Named
pub mod Refinement
pub mod Concurrent
use csi_test.Prelude.{
  String, ◌&&◌, not, List, [], ◌∷◌, ◌++◌, Option, none, some, is_none, is_some, ◌==◌, if◌then◌else◌,
}
use csi_test.Csi.Status.{Reply}
use csi_test.Csi.Messages.{
  Volume, CreateVolumeRequest, CreateVolumeResponse, DeleteVolumeRequest,
  ControllerPublishVolumeRequest, ControllerPublishVolumeResponse,
}
use csi_test.Csi.Snapshots.{
  Snapshot, CreateSnapshotRequest, CreateSnapshotResponse, DeleteSnapshotRequest,
}
use csi_test.Csi.Client.{Empty}
use csi_test.Spec.{
  ResourceInfo, ResourceData, volume_info, snapshot_info, Spec, pure, asks, set_managed, expect,
  expect_some, expect_no_error, when, ◌>>=◌, ◌>>◌,
}
use csi_test.Rpc
use csi_test.Requests.{make_create_snapshot_req}

-- The getters on nil-able messages: `resp.GetVolume().GetVolumeId()` and
-- `resp.GetSnapshot().GetSnapshotId()` are empty where a pointer is nil.
abbrev pub volume_id_of : Option Volume → String
volume_id_of none = ""
volume_id_of (some v) = v.volume_id

abbrev pub created_volume_id : Option CreateVolumeResponse → String
created_volume_id none = ""
created_volume_id (some r) = volume_id_of r.volume

abbrev pub snapshot_id_of : Option Snapshot → String
snapshot_id_of none = ""
snapshot_id_of (some s) = s.snapshot_id

abbrev pub created_snapshot_id : Option CreateSnapshotResponse → String
created_snapshot_id none = ""
created_snapshot_id (some r) = snapshot_id_of r.snapshot

unfoldable pub add_resource : String → ResourceData → List ResourceInfo → List ResourceInfo
add_resource id resource managed = managed ++ record { id = id; resource = resource } ∷ []

unfoldable pub register_volume : String → String → Spec (Unit {0})
unfolding add_resource ◌>>=◌
register_volume id node_id = do
  expect (not (id == ""))
  set_managed (add_resource id (volume_info node_id))

unfoldable pub register_snapshot : String → Spec (Unit {0})
unfolding add_resource ◌>>=◌
register_snapshot id = do expect (not (id == "")); set_managed (add_resource id snapshot_info)

-- The loop of unregisterResourceNoLock: the first entry with the ID goes.
unfoldable pub remove_first : String → List ResourceInfo → List ResourceInfo
remove_first id [] = []
remove_first id (info ∷ infos) = if info.id == id then infos else info ∷ remove_first id infos

unfoldable pub unregister_resource : String → Spec (Unit {0})
unfolding remove_first ◌>>=◌
unregister_resource id = do expect (not (id == "")); set_managed (remove_first id)

unfoldable pub create_volume : CreateVolumeRequest → Spec (Reply CreateVolumeResponse)
unfolding register_volume ◌>>=◌
create_volume req = do
  vol ← Rpc.create_volume req
  when (is_none vol.error && is_some vol.response && not (created_volume_id vol.response == ""))
      (register_volume (created_volume_id vol.response) "")
  pure vol

unfoldable pub delete_volume : DeleteVolumeRequest → Spec (Reply Empty)
unfolding unregister_resource ◌>>=◌
delete_volume req = do
  vol ← Rpc.delete_volume req
  when (is_none vol.error) (unregister_resource req.volume_id)
  pure vol

unfoldable pub controller_publish_volume :
    ControllerPublishVolumeRequest → Spec (Reply ControllerPublishVolumeResponse)
unfolding register_volume ◌>>=◌
controller_publish_volume req = do
  conpubvol ← Rpc.controller_publish req
  when (is_none conpubvol.error && not (req.volume_id == "") && not (req.node_id == ""))
      (register_volume req.volume_id req.node_id)
  pure conpubvol

unfoldable pub create_snapshot : CreateSnapshotRequest → Spec (Reply CreateSnapshotResponse)
unfolding register_snapshot ◌>>=◌
create_snapshot req = do
  snap ← Rpc.create_snapshot req
  when (is_none snap.error && not (created_snapshot_id snap.response == ""))
      (register_snapshot (created_snapshot_id snap.response))
  pure snap

unfoldable pub delete_snapshot : DeleteSnapshotRequest → Spec (Reply Empty)
unfolding unregister_resource ◌>>=◌
delete_snapshot req = do
  snap ← Rpc.delete_snapshot req
  when (is_none snap.error && not (req.snapshot_id == "")) (unregister_resource req.snapshot_id)
  pure snap

-- MustCreateVolume, with the volume of the response.
unfoldable pub must_create_volume : CreateVolumeRequest → Spec Volume
unfolding create_volume ◌>>=◌
must_create_volume req = do
  vol ← create_volume req
  expect_no_error vol.error
  response ← expect_some vol.response
  volume ← expect_some response.volume
  expect (not (volume.volume_id == ""))
  pure volume

unfoldable pub must_controller_publish_volume :
    ControllerPublishVolumeRequest → Spec ControllerPublishVolumeResponse
unfolding controller_publish_volume ◌>>=◌
must_controller_publish_volume req = do
  conpubvol ← controller_publish_volume req
  expect_no_error conpubvol.error
  expect_some conpubvol.response

-- verifySnapshotInfo
unfoldable pub verify_snapshot_info : Option Snapshot → Spec Snapshot
unfolding ◌>>=◌
verify_snapshot_info snapshot = do
  snap ← expect_some snapshot
  expect (not (snap.snapshot_id == ""))
  expect (not (snap.source_volume_id == ""))
  expect (is_some snap.creation_time)
  pure snap

-- MustCreateSnapshot, with the snapshot of the response.
unfoldable pub must_create_snapshot : CreateSnapshotRequest → Spec Snapshot
unfolding create_snapshot verify_snapshot_info ◌>>=◌
must_create_snapshot req = do
  snap ← create_snapshot req
  expect_no_error snap.error
  response ← expect_some snap.response
  verify_snapshot_info response.snapshot

unfoldable pub must_create_snapshot_from_volume_request :
    CreateVolumeRequest → String → Spec (Snapshot × Volume)
unfolding must_create_volume must_create_snapshot ◌>>=◌
must_create_snapshot_from_volume_request req snapshot_name = do
  vol ← must_create_volume req
  sc ← asks (λ e. e.sc)
  snap ← must_create_snapshot (make_create_snapshot_req sc snapshot_name vol.volume_id)
  pure (snap, vol)
