-- ===== src/Resources/Cleanup/Freed.antt =====
-- What Cleanup leaves behind: nothing whose deletion it has asked for should be known afterwards, unless
-- the driver has refused a call, and Cleanup makes nothing.
use mathlib.Core.Bool.{false≢true}
use csi_test.Prelude.{
  String, Bool, true, false, ◌||◌, ◌≡◌, refl, List, [], ◌∷◌, arith, ◌==◌, ◌++◌, reverse,
}
use mathlib.Core.List.{reverse-cons}
use csi_test.Csi.Client.{
  Event, on_create_volume, on_delete_volume, on_controller_publish, on_create_snapshot,
  on_delete_snapshot,
}
use csi_test.Csi.Messages.{DeleteVolumeRequest}
use csi_test.Csi.Snapshots.{DeleteSnapshotRequest}
use csi_test.Spec.{done, Env, State, ResourceInfo, ResourceData, volume_info, snapshot_info}
use csi_test.Spec.Keeps.{Keeps}
use csi_test.Rpc
use csi_test.Rpc.Keeps.{Frame, is_neutral, add_event}
use csi_test.Resources.Tracking.{Kind, volume, snapshot, is_known, has_entry, Tracks}
use csi_test.Resources.Cleanup.{
  cleanup_node, cleanup_publish, cleanup_delete, cleanup_volume, cleanup_snapshot, cleanup_resource,
  cleanup_all, cleanup,
}
use csi_test.Resources.Cleanup.Keeps.{Cleans, all-Keeps}
use csi_test.Resources.Cleanup.Order.{
  CanClean, refusals, secret-eq-done, delete-Run, resource-Run, all-Run, node-Run, publish-Run,
  cleanup-outcome,
}

abbrev pub Dead : Kind → String → State → Type 0
Dead k v s = is_known k v s.history ≡ false

neutral-Dead :
    (k : Kind) (v : String) (ev : Event) (s : State)
    → is_neutral ev ≡ true
    → Dead k v s
    → Dead k v (add_event ev s)
unfolding is_known
neutral-Dead k v (on_create_volume req r) s n h = absurd (false≢true n)
neutral-Dead k v (on_delete_volume req r) s n h = absurd (false≢true n)
neutral-Dead k v (on_controller_publish req r) s n h = absurd (false≢true n)
neutral-Dead k v (on_create_snapshot req r) s n h = absurd (false≢true n)
neutral-Dead k v (on_delete_snapshot req r) s n h = absurd (false≢true n)
neutral-Dead volume v _ s n h = h
neutral-Dead snapshot v _ s n h = h

Dead-Frame : (k : Kind) (v : String) → Frame (Dead k v)
Dead-Frame k v = record { event = neutral-Dead k v; generate = λ s h. h; provide = λ s b h. h }

-- One of the resources has the ID.
unfoldable has_id : String → List ResourceInfo → Bool
has_id v [] = false
has_id v (info ∷ infos) = info.id == v || has_id v infos

module _ (k : Kind) (v : String) where
  delete_volume-Dead : (req : DeleteVolumeRequest) → Keeps (Dead k v) (Rpc.delete_volume req)
  unfolding is_known Rpc.delete_volume
  delete_volume-Dead req = record { at = λ e s h. ground (arith, h) }

  delete_snapshot-Dead : (req : DeleteSnapshotRequest) → Keeps (Dead k v) (Rpc.delete_snapshot req)
  unfolding is_known Rpc.delete_snapshot
  delete_snapshot-Dead req = record { at = λ e s h. ground (arith, h) }

Dead-Cleans : (k : Kind) (v : String) → Cleans (Dead k v)
Dead-Cleans k v = record {
  frame = Dead-Frame k v;
  delete_volume = delete_volume-Dead k v;
  delete_snapshot = delete_snapshot-Dead k v;
}

module _ (k : Kind) (v : String) where
  module _ (e : Env) (can : CanClean e) where
    -- A deletion that the driver does not refuse.
    delete-gone :
        (id : String) (s : State)
        → (id == v) ≡ true
        → refusals (cleanup_delete id e s).1.history ≡ refusals s.history
        → Dead k v (cleanup_delete id e s).1
    unfolding cleanup_delete Rpc.delete_volume is_known refusals
    delete-gone id s same r =
        ground (arith, same, r, secret-eq-done e can (λ x. x.delete_volume_secret) s)

    snapshot-gone :
        (id : String) (s : State)
        → (id == v) ≡ true
        → refusals (cleanup_snapshot id e s).1.history ≡ refusals s.history
        → Dead k v (cleanup_snapshot id e s).1
    unfolding cleanup_snapshot Rpc.delete_snapshot is_known refusals
    snapshot-gone id s same r =
        ground (arith, same, r, secret-eq-done e can (λ x. x.delete_snapshot_secret) s)

    volume-gone :
        (id node_id : String) (s : State)
        → (id == v) ≡ true
        → refusals (cleanup_volume id node_id e s).1.history ≡ refusals s.history
        → Dead k v (cleanup_volume id node_id e s).1
    unfolding cleanup_volume
    volume-gone id node_id s same r =
        let s1 = (cleanup_node id e s).1 in
        let s2 = (cleanup_publish id node_id e s1).1 in
        ground (
          arith,
          r,
          node-Run e can id s,
          publish-Run e can id node_id s1,
          delete-Run e can id s2,
          delete-gone id s2 same,
        )

    resource-gone :
        (id : String) (d : ResourceData) (s : State)
        → (id == v) ≡ true
        → refusals (cleanup_resource id d e s).1.history ≡ refusals s.history
        → Dead k v (cleanup_resource id d e s).1
    unfolding cleanup_resource
    resource-gone id (volume_info node_id) s same r = volume-gone id node_id s same r
    resource-gone id snapshot_info s same r = snapshot-gone id s same r

    all-gone :
        (infos : List ResourceInfo) (s : State)
        → has_id v infos ≡ true
        → refusals (cleanup_all infos e s).1.history ≡ refusals s.history
        → Dead k v (cleanup_all infos e s).1
    unfolding cleanup_all has_id
    all-gone [] s has r = absurd (false≢true has)
    all-gone (info ∷ infos) s has r =
        let s1 = (cleanup_resource info.id info.resource e s).1 in
        ground (
          arith,
          has,
          r,
          resource-Run e can info.id info.resource s,
          all-Run e can infos s1,
          resource-gone info.id info.resource s,
          (all-Keeps (Dead-Cleans k v) infos).at e s1,
          all-gone infos s1,
        )

has_id-append :
    (v : String) (xs ys : List ResourceInfo) → has_id v (xs ++ ys) ≡ (has_id v xs || has_id v ys)
unfolding has_id
has_id-append v [] ys = refl
has_id-append v (x ∷ xs) ys = ground (arith, has_id-append v xs ys)

has_id-reverse : (v : String) (xs : List ResourceInfo) → has_id v (reverse xs) ≡ has_id v xs
unfolding has_id
has_id-reverse v [] = refl
has_id-reverse v (x ∷ xs) =
    rw (reverse-cons x xs) ground
      (arith, has_id-append v (reverse xs) (x ∷ []), has_id-reverse v xs)

has_entry-has_id :
    (k : Kind) (v : String) (xs : List ResourceInfo) → has_entry k v xs ≡ true → has_id v xs ≡ true
unfolding has_id has_entry
has_entry-has_id k v [] h = h
has_entry-has_id k v (x ∷ xs) h = ground (arith, h, has_entry-has_id k v xs)

-- A cleanup that succeeds leaves nothing to know of what the managed resources know.
pub cleanup-Dead :
    (k : Kind) (v : String) (e : Env) (s : State)
    → CanClean e
    → Tracks k v s
    → (cleanup e s).0 ≡ done tt
    → Dead k v (cleanup e s).1
unfolding cleanup
cleanup-Dead k v e s can tracks clean =
    let infos = reverse s.managed in
    ground (
      arith,
      tracks,
      clean,
      cleanup-outcome e can s,
      all-Run e can infos s,
      all-gone k v e can infos s,
      (all-Keeps (Dead-Cleans k v) infos).at e s,
      has_id-reverse v s.managed,
      has_entry-has_id k v s.managed,
    )
