-- ===== src/Resources/Concurrent.antt =====
-- Calls of one resource manager from several goroutines (pkg/sanity/resources.go). A method first
-- makes its remote call, without `mutex`, and then registers or unregisters with it, so other methods
-- can come between the two.
pub mod Balance
pub mod Exclusive
pub mod Race
use csi_test.Prelude.{
  String, Bool, ◌&&◌, not, ◌≡◌, List, [], ◌∷◌, ◌++◌, Option, none, some, is_none, is_some, arith,
  ◌==◌, if◌then◌else◌,
}
use csi_test.Csi.Messages.{CreateVolumeRequest, DeleteVolumeRequest, ControllerPublishVolumeRequest}
use csi_test.Csi.Snapshots.{CreateSnapshotRequest, DeleteSnapshotRequest}
use csi_test.Csi.Client.{
  Event, on_create_volume, on_delete_volume, on_controller_publish, on_create_snapshot,
  on_delete_snapshot,
}
use csi_test.Rpc
use csi_test.Rpc.Keeps.{add_event}
use csi_test.Spec.{Env, State, Spec, pure, ◌>>=◌, ◌>>◌}
use csi_test.Resources

-- A call of an exported method.
pub data Call : Type 0 where
  create_volume : CreateVolumeRequest → Call
  delete_volume : DeleteVolumeRequest → Call
  controller_publish_volume : ControllerPublishVolumeRequest → Call
  create_snapshot : CreateSnapshotRequest → Call
  delete_snapshot : DeleteSnapshotRequest → Call

-- The method from its start to its end, without its result.
abbrev pub whole : Call → Spec (Unit {0})
whole (create_volume req) = do Resources.create_volume req; pure tt
whole (delete_volume req) = do Resources.delete_volume req; pure tt
whole (controller_publish_volume req) = do Resources.controller_publish_volume req; pure tt
whole (create_snapshot req) = do Resources.create_snapshot req; pure tt
whole (delete_snapshot req) = do Resources.delete_snapshot req; pure tt

-- The remote call of a method, with the driver's reply.
abbrev pub event_of : Call → Env → List Event → Event
event_of (create_volume req) e h = on_create_volume req (e.client.create_volume h req)
event_of (delete_volume req) e h = on_delete_volume req (e.client.delete_volume h req)
event_of (controller_publish_volume req) e h =
    on_controller_publish req (e.client.controller_publish h req)
event_of (create_snapshot req) e h = on_create_snapshot req (e.client.create_snapshot h req)
event_of (delete_snapshot req) e h = on_delete_snapshot req (e.client.delete_snapshot h req)

-- What a method does with the mutex held.
pub data Locked : Type 0 where
  register_volume : String → String → Locked
  register_snapshot : String → Locked
  unregister_resource : String → Locked

abbrev pub locked : Locked → Spec (Unit {0})
locked (register_volume id node_id) = Resources.register_volume id node_id
locked (register_snapshot id) = Resources.register_snapshot id
locked (unregister_resource id) = Resources.unregister_resource id

abbrev pub only_if : Bool → Locked → Option Locked
only_if test l = if test then some l else none

-- What is left to do after the remote call.
abbrev pub rest_of : Event → Option Locked
rest_of (on_create_volume req r) =
    let id = Resources.created_volume_id r.response in
    only_if (is_none r.error && is_some r.response && not (id == "")) (register_volume id "")
rest_of (on_delete_volume req r) = only_if (is_none r.error) (unregister_resource req.volume_id)
rest_of (on_controller_publish req r) =
    only_if (is_none r.error && not (req.volume_id == "") && not (req.node_id == ""))
      (register_volume req.volume_id req.node_id)
rest_of (on_create_snapshot req r) =
    let id = Resources.created_snapshot_id r.response in
    only_if (is_none r.error && not (id == "")) (register_snapshot id)
rest_of (on_delete_snapshot req r) =
    only_if (is_none r.error && not (req.snapshot_id == "")) (unregister_resource req.snapshot_id)
rest_of _ = none

abbrev pub finish : Option Locked → Spec (Unit {0})
finish none = pure tt
finish (some l) = locked l

-- A method is its remote call and then what is left to do.
pub whole-finish :
    (c : Call) (e : Env) (s : State)
    → let ev = event_of c e s.history in whole c e s ≡ finish (rest_of ev) e (add_event ev s)
unfolding Resources.create_volume Resources.delete_volume Resources.controller_publish_volume
    Resources.create_snapshot Resources.delete_snapshot Rpc.create_volume Rpc.delete_volume
    Rpc.controller_publish Rpc.create_snapshot Rpc.delete_snapshot pure ◌>>=◌
whole-finish (create_volume req) e s = ground arith
whole-finish (delete_volume req) e s = ground arith
whole-finish (controller_publish_volume req) e s = ground arith
whole-finish (create_snapshot req) e s = ground arith
whole-finish (delete_snapshot req) e s = ground arith

-- The calls made so far and the list of resources, and the methods that have made their remote call
-- and wait for the mutex, in no particular order.
pub record System : Type 0 where
  pub state : State
  pub waiting : List Locked

abbrev pub enlist : Option Locked → List Locked → List Locked
enlist none waiting = waiting
enlist (some l) waiting = l ∷ waiting

abbrev pub started : Call → Env → System → System
started c e x =
    let ev = event_of c e x.state.history in
    record { state = add_event ev x.state; waiting = enlist (rest_of ev) x.waiting }

-- Some method makes its remote call, or gets the mutex.
pub data Step (e : Env) (x : System) : System → Type 0 where
  begin : (c : Call) → Step e x (started c e x)
  commit :
      (before : List Locked) (l : Locked) (after : List Locked)
      → x.waiting ≡ before ++ l ∷ after
      → Step e x (record { state = (locked l e x.state).1; waiting = before ++ after })

-- A manager with an empty list, before the first call.
abbrev pub fresh_system : State → System
fresh_system s = record { state = record s { managed = [] }; waiting = [] }

pub data Reach (e : Env) (s : State) : System → Type 0 where
  start : Reach e s (fresh_system s)
  next : {x y : System} → Reach e s x → Step e x y → Reach e s y
