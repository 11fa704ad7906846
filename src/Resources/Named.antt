-- ===== src/Resources/Named.antt =====
-- Every entry of the list of managed resources has an ID (pkg/sanity/resources.go).
use mathlib.Core.List.{reverse-cons}
use csi_test.Prelude.{
  String, Bool, true, ◌&&◌, not, ◌≡◌, refl, ap, ◌∙◌, List, [], ◌∷◌, ◌++◌, reverse, arith, ◌==◌,
}
use csi_test.Csi.Messages.{CreateVolumeRequest, DeleteVolumeRequest, ControllerPublishVolumeRequest}
use csi_test.Csi.Snapshots.{CreateSnapshotRequest, DeleteSnapshotRequest}
use csi_test.Spec.{State, ResourceInfo, ResourceData, volume_info, snapshot_info}
use csi_test.Spec.Keeps.{Keeps}
use csi_test.Rpc
use csi_test.Resources.Keeps.{Manages}
use csi_test.Resources.{
  created_volume_id, created_snapshot_id, add_resource, remove_first, create_volume, delete_volume,
  controller_publish_volume, create_snapshot, delete_snapshot,
}

unfoldable pub all_named : List ResourceInfo → Bool
all_named [] = true
all_named (info ∷ infos) = not (info.id == "") && all_named infos

all_named-append :
    (xs ys : List ResourceInfo) → all_named (xs ++ ys) ≡ (all_named xs && all_named ys)
unfolding all_named
all_named-append [] ys = refl
all_named-append (x ∷ xs) ys = ground (arith, all_named-append xs ys)

pub all_named-reverse : (xs : List ResourceInfo) → all_named (reverse xs) ≡ all_named xs
unfolding all_named
all_named-reverse [] = refl
all_named-reverse (x ∷ xs) =
    ap all_named (reverse-cons x xs)
    ∙ ground (arith, all_named-append (reverse xs) (x ∷ []), all_named-reverse xs)

all_named-add_resource :
    (id : String) (d : ResourceData) (infos : List ResourceInfo)
    → all_named (add_resource id d infos) ≡ (all_named infos && not (id == ""))
unfolding all_named add_resource
all_named-add_resource id d infos =
    ground (arith, all_named-append infos (record { id = id; resource = d } ∷ []))

all_named-remove_first :
    (id : String) (infos : List ResourceInfo)
    → all_named infos ≡ true
    → all_named (remove_first id infos) ≡ true
unfolding all_named remove_first
all_named-remove_first id [] h = refl
all_named-remove_first id (info ∷ infos) h = ground (arith, h, all_named-remove_first id infos)

abbrev pub Named : State → Type 0
Named s = all_named s.managed ≡ true

create_volume-Named : (req : CreateVolumeRequest) → Keeps Named (create_volume req)
unfolding create_volume Rpc.create_volume
create_volume-Named req = record {
  at = λ e s h.
      let id = created_volume_id (e.client.create_volume s.history req).response in
      ground (arith, h, all_named-add_resource id (volume_info "") s.managed);
}

delete_volume-Named : (req : DeleteVolumeRequest) → Keeps Named (delete_volume req)
unfolding delete_volume Rpc.delete_volume
delete_volume-Named req = record {
  at = λ e s h. ground (arith, h, all_named-remove_first req.volume_id s.managed);
}

controller_publish_volume-Named :
    (req : ControllerPublishVolumeRequest) → Keeps Named (controller_publish_volume req)
unfolding controller_publish_volume Rpc.controller_publish
controller_publish_volume-Named req = record {
  at = λ e s h.
      ground (arith, h, all_named-add_resource req.volume_id (volume_info req.node_id) s.managed);
}

create_snapshot-Named : (req : CreateSnapshotRequest) → Keeps Named (create_snapshot req)
unfolding create_snapshot Rpc.create_snapshot
create_snapshot-Named req = record {
  at = λ e s h.
      let id = created_snapshot_id (e.client.create_snapshot s.history req).response in
      ground (arith, h, all_named-add_resource id snapshot_info s.managed);
}

delete_snapshot-Named : (req : DeleteSnapshotRequest) → Keeps Named (delete_snapshot req)
unfolding delete_snapshot Rpc.delete_snapshot
delete_snapshot-Named req = record {
  at = λ e s h. ground (arith, h, all_named-remove_first req.snapshot_id s.managed);
}

-- The resource manager registers nothing without an ID.
pub Named-Manages : Manages Named
Named-Manages = record {
  frame = record { event = λ ev s n h. h; generate = λ s h. h; provide = λ s b h. h };
  create_volume = create_volume-Named;
  delete_volume = delete_volume-Named;
  controller_publish_volume = controller_publish_volume-Named;
  create_snapshot = create_snapshot-Named;
  delete_snapshot = delete_snapshot-Named;
}
