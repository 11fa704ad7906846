-- ===== src/Resources/Cleanup/Forgotten.antt =====
-- A deletion of a snapshot with the ID of a volume: the list of managed resources loses the volume.
use mathlib.Core.List.{reverse-cons}
use csi_test.Prelude.{
  map, ◌++◌, String, true, false, ◌≡◌, ap, ◌∙◌, List, [], ◌∷◌, none, arith, ◌==◌, eq_refl, reverse,
}
use csi_test.Csi.Snapshots.{DeleteSnapshotRequest}
use csi_test.Spec.{Env, State, ResourceInfo, volume_info, snapshot_info, ◌>>=◌}
use csi_test.Rpc
use csi_test.Resources.{delete_snapshot, unregister_resource, remove_first}
use csi_test.Resources.Tracking.{volume, snapshot}
use csi_test.Resources.Liveness.{is_live}
use csi_test.Resources.Cleanup.{cleanup, cleanup_all, cleanup_resource, cleanup_snapshot}
use csi_test.Resources.Cleanup.Order.{
  CanClean, target, deletions, secret-eq-done, cleanup-deletions, all-Run, resource-Run,
}

-- A volume that is registered before a snapshot with the same ID.
abbrev pub shared : String → String → List ResourceInfo
shared id node_id =
    record { id = id; resource = volume_info node_id }
    ∷ record { id = id; resource = snapshot_info }
    ∷ []

abbrev pub left_over : String → List ResourceInfo
left_over id = record { id = id; resource = snapshot_info } ∷ []

module _ (e : Env) (can : CanClean e) where
  snapshot-live :
      (id v : String) (s : State)
      → is_live volume v (cleanup_snapshot id e s).1.history ≡ is_live volume v s.history
  unfolding cleanup_snapshot Rpc.delete_snapshot is_live
  snapshot-live id v s = ground (arith, secret-eq-done e can (λ x. x.delete_snapshot_secret) s)

  all-live :
      (id v : String) (s : State)
      → is_live volume v (cleanup_all (left_over id) e s).1.history ≡ is_live volume v s.history
  unfolding cleanup_all cleanup_resource ◌>>=◌
  all-live id v s = ground (arith, resource-Run e can id snapshot_info s, snapshot-live id v s)

  cleanup-history :
      (s : State) → (cleanup e s).1.history ≡ (cleanup_all (reverse s.managed) e s).1.history
  unfolding cleanup ◌>>=◌
  cleanup-history s = ground (arith, all-Run e can (reverse s.managed) s)

  cleanup-live :
      (id v : String) (s : State)
      → s.managed ≡ left_over id
      → is_live volume v (cleanup e s).1.history ≡ is_live volume v s.history
  cleanup-live id v s managed =
      let one : reverse s.managed ≡ left_over id = ap reverse managed ∙ reverse-cons _ [] in
      ap (is_live volume v) (cleanup-history s)
      ∙ (ap (λ infos. is_live volume v (cleanup_all infos e s).1.history) one ∙ all-live id v s)

-- The managed resources are a volume, which is live, and after it a snapshot with the same ID, which is
-- not empty: DeleteSnapshot, if the driver carries it out, unregisters the volume. Cleanup then asks for
-- the deletion of the snapshot only, once more, and the volume is still live. The context has secrets,
-- and the driver answers NodeGetCapabilities where there is a NodeClient.
pub delete_snapshot-forgets :
    (e : Env) (s : State) (req : DeleteSnapshotRequest) (node_id : String)
    → CanClean e
    → (req.snapshot_id == "") ≡ false
    → s.managed ≡ shared req.snapshot_id node_id
    → is_live volume req.snapshot_id s.history ≡ true
    → (e.client.delete_snapshot s.history req).error ≡ none
    → let t = (delete_snapshot req e s).1 in
      (t.managed ≡ left_over req.snapshot_id)
      × (deletions (cleanup e t).1.history ≡ (snapshot, req.snapshot_id) ∷ deletions t.history)
      × (is_live volume req.snapshot_id (cleanup e t).1.history ≡ true)
unfolding delete_snapshot Rpc.delete_snapshot unregister_resource remove_first is_live ◌>>=◌
delete_snapshot-forgets e s req node_id can named managed live deleted =
    let id = req.snapshot_id in
    let t = (delete_snapshot req e s).1 in
    let left : t.managed ≡ left_over id = ground (arith, named, managed, deleted, eq_refl id) in
    let still : is_live volume id t.history ≡ true = ground (arith, named, live, deleted) in
    (
      left,
      cleanup-deletions e can t ∙ ap (λ m. map target m ++ deletions t.history) left,
      cleanup-live e can id id t left ∙ still,
    )
