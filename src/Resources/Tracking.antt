-- ===== src/Resources/Tracking.antt =====
-- Which volumes and snapshots the resource manager should know after the calls made so far, as it keeps
-- one entry for an ID of either kind, and whether the list of managed resources has them.
use mathlib.Core.Bool.{false≢true}
use csi_test.Prelude.{
  String, Bool, true, false, ◌&&◌, ◌||◌, not, ◌≡◌, List, [], ◌∷◌, is_none, is_some, arith, ◌==◌,
  eq_iff, if◌then◌else◌,
}
use csi_test.Csi.Messages.{CreateVolumeRequest, DeleteVolumeRequest, ControllerPublishVolumeRequest}
use csi_test.Csi.Snapshots.{CreateSnapshotRequest, DeleteSnapshotRequest}
use csi_test.Csi.Client.{
  Event, on_create_volume, on_delete_volume, on_controller_publish, on_create_snapshot,
  on_delete_snapshot,
}
use csi_test.Spec.{State, ResourceInfo, ResourceData, volume_info, snapshot_info}
use csi_test.Spec.Keeps.{Keeps}
use csi_test.Rpc.Keeps.{Frame, is_neutral, add_event}
use csi_test.Rpc
use csi_test.Resources.Keeps.{Manages}
use csi_test.Resources.{
  created_volume_id, created_snapshot_id, add_resource, remove_first, create_volume, delete_volume,
  controller_publish_volume, create_snapshot, delete_snapshot,
}

-- A successful call that uses up the ID `v`: whatever bears that ID is unregistered.
abbrev pub frees : String → Event → Bool
frees v (on_delete_volume req r) = is_none r.error && req.volume_id == v
frees v (on_delete_snapshot req r) = is_none r.error && req.snapshot_id == v
frees v _ = false

pub data Kind : Type 0 where
  volume snapshot : Kind

-- A successful call after which a volume or a snapshot with the ID `v` exists.
abbrev pub makes : Kind → String → Event → Bool
makes volume v (on_create_volume req r) =
    is_none r.error
    && is_some r.response
    && not (created_volume_id r.response == "")
    && created_volume_id r.response == v
makes volume v (on_controller_publish req r) =
    is_none r.error && not (req.volume_id == "") && not (req.node_id == "") && req.volume_id == v
makes snapshot v (on_create_snapshot req r) =
    is_none r.error
    && not (created_snapshot_id r.response == "")
    && created_snapshot_id r.response == v
makes _ v _ = false

-- The resource manager should know a volume or snapshot `v`: the last successful call about that ID has
-- made it. A deletion of either kind uses up the ID. The history has the newest call first.
unfoldable pub is_known : Kind → String → List Event → Bool
is_known k v [] = false
is_known k v (ev ∷ history) =
    if makes k v ev then true else if frees v ev then false else is_known k v history

abbrev pub has_kind : Kind → ResourceData → Bool
has_kind volume (volume_info node_id) = true
has_kind snapshot snapshot_info = true
has_kind _ _ = false

unfoldable pub has_entry : Kind → String → List ResourceInfo → Bool
has_entry k v [] = false
has_entry k v (info ∷ infos) = (info.id == v && has_kind k info.resource) || has_entry k v infos

has_entry-add_resource :
    (k : Kind) (v id : String) (d : ResourceData) (infos : List ResourceInfo)
    → has_entry k v (add_resource id d infos) ≡ (has_entry k v infos || (id == v && has_kind k d))
unfolding has_entry add_resource
has_entry-add_resource k v id d [] = ground arith
has_entry-add_resource k v id d (info ∷ infos) =
    ground (arith, has_entry-add_resource k v id d infos)

has_entry-remove_first :
    (k : Kind) (v id : String) (infos : List ResourceInfo)
    → (id == v) ≡ false
    → has_entry k v (remove_first id infos) ≡ has_entry k v infos
unfolding has_entry remove_first
has_entry-remove_first k v id [] h = ground arith
has_entry-remove_first k v id (info ∷ infos) h =
    ground (
      arith,
      has_entry-remove_first k v id infos h,
      eq_iff info.id id,
      eq_iff info.id v,
      eq_iff id v,
    )

-- A volume or snapshot that should be known has an entry among the managed resources.
abbrev pub Tracks : Kind → String → State → Type 0
Tracks k v s = is_known k v s.history ≡ true → has_entry k v s.managed ≡ true

neutral-Tracks :
    (k : Kind) (v : String) (ev : Event) (s : State)
    → is_neutral ev ≡ true
    → Tracks k v s
    → Tracks k v (add_event ev s)
unfolding is_known
neutral-Tracks k v (on_create_volume req r) s n h = absurd (false≢true n)
neutral-Tracks k v (on_delete_volume req r) s n h = absurd (false≢true n)
neutral-Tracks k v (on_controller_publish req r) s n h = absurd (false≢true n)
neutral-Tracks k v (on_create_snapshot req r) s n h = absurd (false≢true n)
neutral-Tracks k v (on_delete_snapshot req r) s n h = absurd (false≢true n)
neutral-Tracks volume v _ s n h = h
neutral-Tracks snapshot v _ s n h = h

pub Tracks-Frame : (k : Kind) (v : String) → Frame (Tracks k v)
Tracks-Frame k v = record { event = neutral-Tracks k v; generate = λ s h. h; provide = λ s b h. h }

module _ (k : Kind) (v : String) where
  pub create_volume-Tracks : (req : CreateVolumeRequest) → Keeps (Tracks k v) (create_volume req)
  unfolding create_volume is_known Rpc.create_volume
  create_volume-Tracks req = record {
    at = λ e s h o.
        let id = created_volume_id (e.client.create_volume s.history req).response in
        ground (arith, h, has_entry-add_resource k v id (volume_info "") s.managed, eq_iff id v);
  }

  pub delete_volume-Tracks : (req : DeleteVolumeRequest) → Keeps (Tracks k v) (delete_volume req)
  unfolding delete_volume is_known Rpc.delete_volume
  delete_volume-Tracks req = record {
    at = λ e s h o.
        ground
          (arith, h, has_entry-remove_first k v req.volume_id s.managed, eq_iff req.volume_id v);
  }

  pub controller_publish_volume-Tracks :
      (req : ControllerPublishVolumeRequest) → Keeps (Tracks k v) (controller_publish_volume req)
  unfolding controller_publish_volume is_known Rpc.controller_publish
  controller_publish_volume-Tracks req = record {
    at = λ e s h o. ground (
      arith,
      h,
      has_entry-add_resource k v req.volume_id (volume_info req.node_id) s.managed,
      eq_iff req.volume_id v,
    );
  }

  pub create_snapshot-Tracks :
      (req : CreateSnapshotRequest) → Keeps (Tracks k v) (create_snapshot req)
  unfolding create_snapshot is_known Rpc.create_snapshot
  create_snapshot-Tracks req = record {
    at = λ e s h o.
        let id = created_snapshot_id (e.client.create_snapshot s.history req).response in
        ground (arith, h, has_entry-add_resource k v id snapshot_info s.managed, eq_iff id v);
  }

  pub delete_snapshot-Tracks :
      (req : DeleteSnapshotRequest) → Keeps (Tracks k v) (delete_snapshot req)
  unfolding delete_snapshot is_known Rpc.delete_snapshot
  delete_snapshot-Tracks req = record {
    at = λ e s h o.
        ground (
          arith,
          h,
          has_entry-remove_first k v req.snapshot_id s.managed,
          eq_iff req.snapshot_id v,
        );
  }

-- The resource manager loses nothing that it should know.
pub Tracks-Manages : (k : Kind) (v : String) → Manages (Tracks k v)
Tracks-Manages k v = record {
  frame = Tracks-Frame k v;
  create_volume = create_volume-Tracks k v;
  delete_volume = delete_volume-Tracks k v;
  controller_publish_volume = controller_publish_volume-Tracks k v;
  create_snapshot = create_snapshot-Tracks k v;
  delete_snapshot = delete_snapshot-Tracks k v;
}
