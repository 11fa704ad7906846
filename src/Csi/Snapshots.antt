-- ===== src/Csi/Snapshots.antt =====
-- The messages of the Controller service about snapshots.
use csi_test.Prelude.{String, List, Option, [], StringMap}
use csi_test.Prelude.Int.{ℤ, pos}

pub record Timestamp : Type 0 where
  pub seconds : ℤ
  pub nanos : ℤ

pub record Snapshot : Type 0 where
  pub snapshot_id : String
  pub source_volume_id : String
  pub creation_time : Option Timestamp

pub record CreateSnapshotRequest : Type 0 where
  pub source_volume_id : String
  pub name : String
  pub secrets : StringMap
  pub parameters : StringMap

abbrev pub zero_create_snapshot : CreateSnapshotRequest
zero_create_snapshot = record { source_volume_id = ""; name = ""; secrets = []; parameters = [] }

pub record CreateSnapshotResponse : Type 0 where
  pub snapshot : Option Snapshot

pub record DeleteSnapshotRequest : Type 0 where
  pub snapshot_id : String
  pub secrets : StringMap

pub record ListSnapshotsRequest : Type 0 where
  pub max_entries : ℤ
  pub starting_token : String
  pub source_volume_id : String
  pub snapshot_id : String
  pub secrets : StringMap

abbrev pub zero_list_snapshots : ListSnapshotsRequest
zero_list_snapshots = record {
  max_entries = pos 0;
  starting_token = "";
  source_volume_id = "";
  snapshot_id = "";
  secrets = [];
}

-- Each entry is its `Snapshot`.
pub record ListSnapshotsResponse : Type 0 where
  pub entries : List (Option Snapshot)
  pub next_token : String
