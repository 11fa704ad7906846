-- ===== src/Resources/Refinement.antt =====
-- The list of managed resources against a bag of IDs that is computed from the calls alone: what the
-- resource manager of pkg/sanity/resources.go promises, without its list.
use csi_test.Prelude.{
  ℕ, ◌+◌, ◌-◌, String, Bool, true, ◌&&◌, not, ◌≡◌, refl, ap, ◌∙◌, List, [], ◌∷◌, ◌++◌, is_none,
  is_some, arith, ◌==◌, eq_iff, if◌then◌else◌,
}
use mathlib.Core.Bool.{false≢true}
use csi_test.Csi.Messages.{CreateVolumeRequest, DeleteVolumeRequest, ControllerPublishVolumeRequest}
use csi_test.Csi.Snapshots.{CreateSnapshotRequest, DeleteSnapshotRequest}
use csi_test.Csi.Client.{
  Event, on_create_volume, on_delete_volume, on_controller_publish, on_create_snapshot,
  on_delete_snapshot,
}
use csi_test.Spec.{State, ResourceInfo, ResourceData, volume_info, snapshot_info}
use csi_test.Spec.Keeps.{Keeps}
use csi_test.Rpc.Keeps.{Frame, is_neutral, add_event}
use csi_test.Rpc
use csi_test.Resources.Keeps.{Manages}
use csi_test.Resources.{
  created_volume_id, created_snapshot_id, add_resource, remove_first, create_volume, delete_volume,
  controller_publish_volume, create_snapshot, delete_snapshot,
}

-- What a call means for the bag.
pub data Change : Type 0 where
  nothing : Change
  adds takes : String → Change

abbrev pub adds_if : Bool → String → Change
adds_if test id = if test && not (id == "") then adds id else nothing

abbrev pub takes_if : Bool → String → Change
takes_if test id = if test && not (id == "") then takes id else nothing

-- A volume or snapshot that is created, and a volume that is published on a node, adds its ID; a
-- deletion takes one. An empty ID and a call with an error change nothing.
abbrev pub change : Event → Change
change (on_create_volume req r) =
    adds_if (is_none r.error && is_some r.response) (created_volume_id r.response)
change (on_controller_publish req r) =
    adds_if (is_none r.error && not (req.node_id == "")) req.volume_id
change (on_create_snapshot req r) = adds_if (is_none r.error) (created_snapshot_id r.response)
change (on_delete_volume req r) = takes_if (is_none r.error) req.volume_id
change (on_delete_snapshot req r) = takes_if (is_none r.error) req.snapshot_id
change _ = nothing

-- How often the bag has the ID `v` after a change, where it has had it `n` times.
abbrev pub change_count : Change → String → ℕ → ℕ
change_count nothing v n = n
change_count (adds id) v n = if id == v then 1 + n else n
change_count (takes id) v n = if id == v then n - 1 else n

-- How often the bag has the ID `v` after the calls of a history, which has the newest first.
unfoldable pub replay : List Event → String → ℕ
replay [] v = 0
replay (ev ∷ history) v = change_count (change ev) v (replay history v)

-- How often a list of managed resources has an ID.
unfoldable pub count : List ResourceInfo → String → ℕ
count [] v = 0
count (info ∷ infos) v = (if info.id == v then 1 else 0) + count infos v

pub count-add_resource :
    (v id : String) (d : ResourceData) (infos : List ResourceInfo)
    → count (add_resource id d infos) v ≡ change_count (adds id) v (count infos v)
unfolding count add_resource
count-add_resource v id d [] = ground arith
count-add_resource v id d (info ∷ infos) = ground (arith, count-add_resource v id d infos)

pub count-remove_first :
    (v id : String) (infos : List ResourceInfo)
    → count (remove_first id infos) v ≡ change_count (takes id) v (count infos v)
unfolding count remove_first
count-remove_first v id [] = ground arith
count-remove_first v id (info ∷ infos) =
    ground (arith, count-remove_first v id infos, eq_iff info.id id, eq_iff info.id v, eq_iff id v)

-- The calls made since the history was `base` have led to the bag of the managed resources.
pub record Refines (base : List Event) (s : State) : Type 0 where
  pub recent : List Event
  pub since : s.history ≡ recent ++ base
  pub same : (v : String) → count s.managed v ≡ replay recent v

-- A call, with what the resource manager does with its reply.
step-Refines :
    (base : List Event) (ev : Event) (s t : State)
    → t.history ≡ ev ∷ s.history
    → ((v : String) → count t.managed v ≡ change_count (change ev) v (count s.managed v))
    → Refines base s
    → Refines base t
unfolding replay
step-Refines base ev s t called step h = record {
  recent = ev ∷ h.recent;
  since = called ∙ ap (◌∷◌ ev) h.since;
  same = λ v. step v ∙ ap (change_count (change ev) v) (h.same v);
}

neutral-nothing :
    (ev : Event) (n : ℕ) (v : String) → is_neutral ev ≡ true → n ≡ change_count (change ev) v n
neutral-nothing (on_create_volume req r) n v h = absurd (false≢true h)
neutral-nothing (on_delete_volume req r) n v h = absurd (false≢true h)
neutral-nothing (on_controller_publish req r) n v h = absurd (false≢true h)
neutral-nothing (on_create_snapshot req r) n v h = absurd (false≢true h)
neutral-nothing (on_delete_snapshot req r) n v h = absurd (false≢true h)
neutral-nothing _ n v h = refl

Refines-Frame : (base : List Event) → Frame (Refines base)
Refines-Frame base = record {
  event = λ ev s n h.
      step-Refines base ev s (add_event ev s) refl (λ v. neutral-nothing ev (count s.managed v) v n)
        h;
  generate = λ s h. record { recent = h.recent; since = h.since; same = h.same };
  provide = λ s b h. record { recent = h.recent; since = h.since; same = h.same };
}

module _ (base : List Event) where
  create_volume-Refines : (req : CreateVolumeRequest) → Keeps (Refines base) (create_volume req)
  unfolding create_volume Rpc.create_volume
  create_volume-Refines req = record {
    at = λ e s h.
        let r = e.client.create_volume s.history req in
        let id = created_volume_id r.response in
        step-Refines base (on_create_volume req r) s (create_volume req e s).1 (ground arith)
          (λ v. ground (arith, count-add_resource v id (volume_info "") s.managed)) h;
  }

  delete_volume-Refines : (req : DeleteVolumeRequest) → Keeps (Refines base) (delete_volume req)
  unfolding delete_volume Rpc.delete_volume
  delete_volume-Refines req = record {
    at = λ e s h.
        let r = e.client.delete_volume s.history req in
        step-Refines base (on_delete_volume req r) s (delete_volume req e s).1 (ground arith)
          (λ v. ground (arith, count-remove_first v req.volume_id s.managed)) h;
  }

  controller_publish_volume-Refines :
      (req : ControllerPublishVolumeRequest) → Keeps (Refines base) (controller_publish_volume req)
  unfolding controller_publish_volume Rpc.controller_publish
  controller_publish_volume-Refines req = record {
    at = λ e s h.
        let r = e.client.controller_publish s.history req in
        let infos = volume_info req.node_id in
        step-Refines base (on_controller_publish req r) s (controller_publish_volume req e s).1
          (ground arith) (λ v. ground (arith, count-add_resource v req.volume_id infos s.managed))
          h;
  }

  create_snapshot-Refines :
      (req : CreateSnapshotRequest) → Keeps (Refines base) (create_snapshot req)
  unfolding create_snapshot Rpc.create_snapshot
  create_snapshot-Refines req = record {
    at = λ e s h.
        let r = e.client.create_snapshot s.history req in
        let id = created_snapshot_id r.response in
        step-Refines base (on_create_snapshot req r) s (create_snapshot req e s).1 (ground arith)
          (λ v. ground (arith, count-add_resource v id snapshot_info s.managed)) h;
  }

  delete_snapshot-Refines :
      (req : DeleteSnapshotRequest) → Keeps (Refines base) (delete_snapshot req)
  unfolding delete_snapshot Rpc.delete_snapshot
  delete_snapshot-Refines req = record {
    at = λ e s h.
        let r = e.client.delete_snapshot s.history req in
        step-Refines base (on_delete_snapshot req r) s (delete_snapshot req e s).1 (ground arith)
          (λ v. ground (arith, count-remove_first v req.snapshot_id s.managed)) h;
  }

-- The resource manager implements the bag.
pub Refines-Manages : (base : List Event) → Manages (Refines base)
Refines-Manages base = record {
  frame = Refines-Frame base;
  create_volume = create_volume-Refines base;
  delete_volume = delete_volume-Refines base;
  controller_publish_volume = controller_publish_volume-Refines base;
  create_snapshot = create_snapshot-Refines base;
  delete_snapshot = delete_snapshot-Refines base;
}
