-- ===== src/Suite/Acceptance/Snapshots.antt =====
-- The specs under DeleteSnapshot and CreateSnapshot, with a driver that conforms.
use csi_test.Prelude.{
  String, true, false, ◌≡◌, inl, inr, refl, sym, ap, ◌∙◌, List, Bool-cases, arith, ◌==◌, eq_iff,
  is_none,
}
use mathlib.Core.Bool.{false≢true}
use csi_test.Csi.Snapshots.{CreateSnapshotRequest, DeleteSnapshotRequest}
use csi_test.Csi.Client.{Event}
use csi_test.Rpc
use csi_test.Spec.{Env, State, done, pure, ◌>>=◌, ◌>>◌}
use csi_test.Requests.{
  make_create_volume_req, make_create_snapshot_req, make_delete_snapshot_req, max_name_length,
}
use csi_test.Resources.{
  must_create_volume, must_create_snapshot, created_volume_id, delete_snapshot, create_snapshot,
  unregister_resource, register_snapshot,
}
use csi_test.Resources.Tracking.{volume}
use csi_test.Resources.Liveness.{is_live}
use csi_test.Controller.Create.{letters}
use csi_test.Controller.Snapshots.{
  delete_snapshot_accepts_invalid_id, deletes_snapshot, creates_snapshot_twice,
  create_snapshot_fails_on_other_source, creates_snapshot_with_longest_name,
}
use csi_test.Controller.Verdicts.Creation.{created_volume, created_volume-id, after_create}
use csi_test.Suite.Acceptance.{Conforms, Clear}
use csi_test.Suite.Acceptance.Existing.{holder, snapped, original, snapped_as}
use csi_test.Suite.Acceptance.Leads.{
  Ends, then-Leads, value-Leads, requires-Leads, asks-done, pure-Ends, expect-done, expect-Ends,
  expect_status-Ends,
}
use csi_test.Suite.Acceptance.Made.{
  must_create-done, create_volume-done, live-created, taken-other, created-nonempty, created-parts,
}
use csi_test.Suite.Acceptance.Sources.{
  after_snapshot, must_create_snapshot-done, holds-snapshot, live-snapped, original-snapped,
  request, source-created, source-live, source-nonempty, source-done,
}

ids-differ :
    (a b : String) (h : List Event)
    → is_live volume a h ≡ true
    → is_live volume b h ≡ false
    → (a == b) ≡ false
ids-differ a b h live dead = elim (Bool-cases (a == b)) [
  | inl same ↦
      absurd
        (false≢true (sym dead ∙ (ap (λ i. is_live volume i h) (sym ((eq_iff a b).0 same)) ∙ live)))
  | inr differ ↦ differ
]

module _ (e : Env) (c : Conforms e) where
  delete_snapshot-done :
      (req : DeleteSnapshotRequest) (s : State)
      → (req.snapshot_id == "") ≡ false
      → delete_snapshot req e s
        ≡ (done (e.client.delete_snapshot s.history req), (delete_snapshot req e s).1)
  unfolding delete_snapshot Rpc.delete_snapshot unregister_resource ◌>>=◌
  delete_snapshot-done req s named = ground (arith, named)

  pub delete_snapshot_accepts_invalid_id-Ends :
      (s : State) → Clear s → Ends e delete_snapshot_accepts_invalid_id s
  unfolding delete_snapshot_accepts_invalid_id make_delete_snapshot_req
  delete_snapshot_accepts_invalid_id-Ends s clear =
      then-Leads e _ _ s (requires-Leads e _ s (λ o. o.snapshots) c.queries clear) λ t s1 clear1.
        value-Leads e _ _ s1 (asks-done e _ s1) (
          value-Leads e _ _ s1 (delete_snapshot-done _ s1 refl)
            (expect-Ends e _ _ (c.deletes_no_snapshot s1.history _ refl (clear1.snapshots _))))

  pub create_snapshot-done :
      (req : CreateSnapshotRequest) (s : State)
      → create_snapshot req e s
        ≡ (done (e.client.create_snapshot s.history req), (create_snapshot req e s).1)
  unfolding create_snapshot Rpc.create_snapshot register_snapshot ◌>>=◌
  create_snapshot-done req s = ground arith

  -- The same request once more.
  again-snapped :
      (req : CreateSnapshotRequest) (s : State)
      → (req.name == "") ≡ false
      → (req.source_volume_id == "") ≡ false
      → snapped (e.client.create_snapshot s.history req) ≡ true
      → snapped (e.client.create_snapshot (after_snapshot req e s).history req) ≡ true
  again-snapped req s named sourced ok =
      let r = e.client.create_snapshot s.history req in
      c.snapshots_again (after_snapshot req e s).history req (snapped_as req r) named sourced
        (original-snapped req r s.history ok) (live-snapped req r s.history ok) refl

  pub deletes_snapshot-Ends : (s : State) → Clear s → Ends e deletes_snapshot s
  unfolding deletes_snapshot make_create_volume_req make_create_snapshot_req is_live
  deletes_snapshot-Ends s clear =
      let source : String = "DeleteSnapshot-volume-1" in
      let snap : String = "DeleteSnapshot-snapshot-1" in
      then-Leads e _ _ s (requires-Leads e _ s (λ o. o.snapshots) c.queries clear) λ t s1 clear1.
        let req = request e c source in
        let r = e.client.create_volume s1.history req in
        let ok = source-created e c source s1 refl clear1 in
        let (response, v, no_error, present, there, same, named) = created-parts r ok in
        let s2 = after_create req e s1 in
        let snap_req = make_create_snapshot_req e.sc snap (created_volume_id r.response) in
        let snap_ok =
          c.snapshots s2.history snap_req refl (created-nonempty r ok)
            (live-created req r s1.history ok) clear1.snapshots in
        value-Leads e _ _ s1 (asks-done e _ s1) (
          value-Leads e _ _ s1 (create_volume-done e req s1) (
            value-Leads e _ _ s2 (expect-done e _ s2 (ap is_none no_error)) (
              value-Leads e _ _ s2 (must_create_snapshot-done snap_req e s2 snap_ok).1
                (pure-Ends e _))))

  -- A new volume, and two equal requests for a snapshot of it.
  twice-Ends :
      (source snap : String) (s : State)
      → (source == "") ≡ false
      → (snap == "") ≡ false
      → Clear s
      → Ends e
          (do
            v ← must_create_volume (make_create_volume_req e.sc source)
            must_create_snapshot (make_create_snapshot_req e.sc snap v.volume_id)
            must_create_snapshot (make_create_snapshot_req e.sc snap v.volume_id)
            pure tt)
          s
  unfolding make_create_snapshot_req is_live
  twice-Ends source snap s named snap_named clear =
      let req = request e c source in
      let r = e.client.create_volume s.history req in
      let ok = source-created e c source s named clear in
      let s2 = after_create req e s in
      let snap_req = make_create_snapshot_req e.sc snap (created_volume r.response).volume_id in
      let sourced = source-nonempty e c source s ok in
      let first =
        c.snapshots s2.history snap_req snap_named sourced (source-live e c source s ok)
          clear.snapshots in
      let s3 = after_snapshot snap_req e s2 in
      value-Leads e _ _ s (must_create-done e req s ok) (
        value-Leads e _ _ s2 (must_create_snapshot-done snap_req e s2 first).1 (
          value-Leads e _ _ s3
            (must_create_snapshot-done snap_req e s3
              (again-snapped snap_req s2 snap_named sourced first)).1
            (pure-Ends e _)))

  pub creates_snapshot_twice-Ends : (s : State) → Clear s → Ends e creates_snapshot_twice s
  unfolding creates_snapshot_twice
  creates_snapshot_twice-Ends s clear =
      then-Leads e _ _ s (requires-Leads e _ s (λ o. o.snapshots) c.queries clear)
        λ t s1 clear1. value-Leads e _ _ s1 (asks-done e _ s1) (twice-Ends _ _ s1 refl refl clear1)

  pub creates_snapshot_with_longest_name-Ends :
      (s : State) → Clear s → Ends e creates_snapshot_with_longest_name s
  unfolding creates_snapshot_with_longest_name letters
  creates_snapshot_with_longest_name-Ends s clear =
      then-Leads e _ _ s (requires-Leads e _ s (λ o. o.snapshots) c.queries clear) λ t s1 clear1.
        value-Leads e _ _ s1 (asks-done e _ s1)
          (twice-Ends _ (letters max_name_length) s1 refl refl clear1)

  pub create_snapshot_fails_on_other_source-Ends :
      (s : State) → Clear s → Ends e create_snapshot_fails_on_other_source s
  unfolding create_snapshot_fails_on_other_source make_create_volume_req make_create_snapshot_req
      is_live holder original
  create_snapshot_fails_on_other_source-Ends s clear =
      let source : String = "CreateSnapshot-volume-2" in
      let snap : String = "CreateSnapshot-snapshot-2" in
      let other : String = "CreateSnapshot-volume-3" in
      then-Leads e _ _ s (requires-Leads e _ s (λ o. o.snapshots) c.queries clear) λ t s1 clear1.
        let req = request e c source in
        let r = e.client.create_volume s1.history req in
        let ok = source-created e c source s1 refl clear1 in
        let s2 = after_create req e s1 in
        let live = source-live e c source s1 ok in
        let snap_req = make_create_snapshot_req e.sc snap (created_volume r.response).volume_id in
        let snap_ok =
          c.snapshots s2.history snap_req refl (source-nonempty e c source s1 ok) live
            clear1.snapshots in
        let x = e.client.create_snapshot s2.history snap_req in
        let s3 = after_snapshot snap_req e s2 in
        let req2 = request e c other in
        let r2 = e.client.create_volume s3.history req2 in
        let (ok2, enough, fresh) = c.creates s3.history req2 refl refl refl (
          holds-snapshot (holder other s2.history) snap_req x s2.history
          ∙ taken-other other req r s1 clear1 ok refl) in
        let s4 = after_create req2 e s3 in
        let id2 = created_volume-id r2.response in
        value-Leads e _ _ s1 (asks-done e _ s1) (
          value-Leads e _ _ s1
            (source-done e c _ _ s1 ok (must_create_snapshot-done snap_req e s2 snap_ok).1)
            (value-Leads e _ _ s3 (must_create-done e req2 s3 ok2) (
              value-Leads e _ _ s4 (create_snapshot-done _ s4) (
                expect_status-Ends e _ _ _ (
                  c.snapshots_conflict s4.history _ (snapped_as snap_req x) refl
                    (ap (λ i. i == "") id2 ∙ created-nonempty r2 ok2)
                    (original-snapped snap_req x s2.history snap_ok)
                    (live-snapped snap_req x s2.history snap_ok)
                    (ids-differ _ _ s3.history live
                      (ap (λ i. is_live volume i s3.history) id2 ∙ fresh)))))))
