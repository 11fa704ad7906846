-- ===== src/Suite/Acceptance/Existing.antt =====
-- What exists after some calls, and what a reply has to have: the words in which the behaviour of a
-- driver is described.
use csi_test.Prelude.{
  String, Bool, true, false, ◌&&◌, not, List, [], ◌∷◌, Option, none, some, is_none, is_some, ◌==◌,
  if◌then◌else◌,
}
use csi_test.Csi.Status.{Reply}
use csi_test.Csi.Messages.{
  CapacityRange, CreateVolumeRequest, CreateVolumeResponse, ValidateVolumeCapabilitiesResponse,
}
use csi_test.Csi.Snapshots.{Snapshot, CreateSnapshotRequest, CreateSnapshotResponse}
use csi_test.Csi.Client.{Event, on_create_volume, on_create_snapshot}
use csi_test.Resources.{created_volume_id, created_snapshot_id}
use csi_test.Resources.Tracking.{volume}
use csi_test.Resources.Liveness.{is_live}
use csi_test.Assert.{covers}
use csi_test.Controller.Delete.{confirms}
use csi_test.Controller.Verdicts.Creation.{created, created_volume}

-- The request with which the last volume of a name was created, and its ID.
pub record Holder : Type 0 where
  pub request : CreateVolumeRequest
  pub id : String

-- An ID that is given to a new volume is not that of an old one any more.
abbrev pub without : String → Option Holder → Option Holder
without id none = none
without id (some x) = if x.id == id then none else some x

abbrev pub replaced :
    String → CreateVolumeRequest → Reply CreateVolumeResponse → Option Holder → Option Holder
replaced n req r old =
    let id = created_volume_id r.response in
    if created r
    then (if req.name == n then some (record { request = req; id = id }) else without id old)
    else old

unfoldable pub holder : String → List Event → Option Holder
holder n [] = none
holder n (on_create_volume req r ∷ h) = replaced n req r (holder n h)
holder n (_ ∷ h) = holder n h

abbrev pub holds : Option Holder → List Event → Bool
holds none h = false
holds (some x) h = is_live volume x.id h

-- A volume of that name exists.
abbrev pub is_taken : String → List Event → Bool
is_taken n h = holds (holder n h) h

abbrev pub has_capacity : Option CapacityRange → Reply CreateVolumeResponse → Bool
has_capacity none r = true
has_capacity (some range) r = covers range.required_bytes (created_volume r.response).capacity_bytes

-- What a reply to CreateSnapshot has to have for the suite: no error, two IDs and a time.
abbrev pub is_whole : Option Snapshot → Bool
is_whole none = false
is_whole (some s) =
    not (s.snapshot_id == "") && not (s.source_volume_id == "") && is_some s.creation_time

abbrev pub snapshot_of : Option CreateSnapshotResponse → Option Snapshot
snapshot_of none = none
snapshot_of (some r) = r.snapshot

abbrev pub snapped : Reply CreateSnapshotResponse → Bool
snapped r = is_none r.error && is_whole (snapshot_of r.response)

-- The source of the last snapshot of a name, and its ID.
pub record Original : Type 0 where
  pub source : String
  pub id : String

abbrev pub snapped_as : CreateSnapshotRequest → Reply CreateSnapshotResponse → Original
snapped_as req r = record { source = req.source_volume_id; id = created_snapshot_id r.response }

unfoldable pub original : String → List Event → Option Original
original n [] = none
original n (on_create_snapshot req r ∷ h) =
    if snapped r && req.name == n then some (snapped_as req r) else original n h
original n (_ ∷ h) = original n h

abbrev pub confirms_all : Option ValidateVolumeCapabilitiesResponse → Bool
confirms_all none = false
confirms_all (some r) = confirms r.confirmed
