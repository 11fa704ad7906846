-- ===== src/Resources/Concurrent/Race.antt =====
-- A race between DeleteVolume and CreateVolume: the list of managed resources can lose a volume.
use csi_test.Prelude.{
  String, true, false, ◌≡◌, refl, ap, ◌∙◌, [], ◌∷◌, Option, none, some, is_some, arith, ◌==◌,
  eq_iff, eq_refl,
}
use csi_test.Csi.Messages.{CreateVolumeRequest, CreateVolumeResponse, DeleteVolumeRequest}
use csi_test.Csi.Client.{on_delete_volume}
use csi_test.Spec.{Env, State, done, ◌>>=◌}
use csi_test.Resources.Cleanup.{cleanup}
use csi_test.Resources.Cleanup.Counted.{cleanup-nothing}
use csi_test.Resources
use csi_test.Resources.{created_volume_id, add_resource, remove_first}
use csi_test.Resources.Tracking.{volume}
use csi_test.Resources.Liveness.{is_live}
use csi_test.Resources.Concurrent.{
  create_volume, delete_volume, register_volume, unregister_resource, locked, System, started,
  begin, commit, fresh_system, Reach, start, next,
}

has_response :
    (o : Option CreateVolumeResponse) (v : String)
    → (v == "") ≡ false
    → created_volume_id o ≡ v
    → is_some o ≡ true
has_response none v named same = ground (arith, eq_iff v "")
has_response (some r) v named same = refl

module _ (e : Env) (s : State) (del : DeleteVolumeRequest) (req : CreateVolumeRequest) where
  -- Both methods have made their remote calls, the deletion first.
  abbrev both_called : System
  both_called = started (create_volume req) e (started (delete_volume del) e (fresh_system s))

  -- Then the creation gets the mutex first.
  abbrev both_done : System
  both_done =
      let id = del.volume_id in
      let registered = (locked (register_volume id "") e both_called.state).1 in
      record { state = (locked (unregister_resource id) e registered).1; waiting = [] }

-- If a driver accepts the deletion of an ID and then creates a volume with that ID, two concurrent
-- calls can end such that the volume exists and the list of managed resources is empty: Cleanup then
-- succeeds, and the volume still exists.
pub race-unmanaged :
    (e : Env) (s : State) (del : DeleteVolumeRequest) (req : CreateVolumeRequest)
    → let deleted = e.client.delete_volume s.history del in
      let created = e.client.create_volume (on_delete_volume del deleted ∷ s.history) req in
      (del.volume_id == "") ≡ false
      → deleted.error ≡ none
      → created.error ≡ none
      → created_volume_id created.response ≡ del.volume_id
      → (y : System) × Reach e s y
        × (y.waiting ≡ [])
        × (y.state.managed ≡ [])
        × ((cleanup e y.state).0 ≡ done tt)
        × (is_live volume del.volume_id (cleanup e y.state).1.history ≡ true)
unfolding is_live add_resource remove_first Resources.register_volume Resources.unregister_resource
    ◌>>=◌
race-unmanaged e s del req named deleted created same =
    let id = del.volume_id in
    let h = on_delete_volume del (e.client.delete_volume s.history del) ∷ s.history in
    let there = has_response (e.client.create_volume h req).response id named same in
    let called : Reach e s (both_called e s del req) =
      next (next start (begin (delete_volume del))) (begin (create_volume req)) in
    let wait : (both_called e s del req).waiting
        ≡ register_volume id "" ∷ unregister_resource id ∷ [] =
      ground (arith, named, deleted, created, same, there) in
    let registered =
      next called (commit [] (register_volume id "") (unregister_resource id ∷ []) wait) in
    let left = both_done e s del req in
    let empty : left.state.managed ≡ [] = ground (arith, named, eq_refl id) in
    let cleaned = cleanup-nothing e left.state empty in
    let live : is_live volume id left.state.history ≡ true =
      ground (arith, named, deleted, created, same, there, eq_refl id) in
    (
      left,
      next registered (commit [] (unregister_resource id) [] refl),
      refl,
      empty,
      ap (λ r. r.0) cleaned,
      ap (λ r. is_live volume id r.1.history) cleaned ∙ live,
    )
