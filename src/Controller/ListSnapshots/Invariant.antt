-- ===== src/Controller/ListSnapshots/Invariant.antt =====
-- The specs of Controller/ListSnapshots.antt keep what the resource manager keeps.
use csi_test.Csi.Snapshots.{Snapshot, ListSnapshotsRequest}
use csi_test.Prelude.{List, Option, ℕ, String, Each, [], ◌∷◌, suc, zero}
use csi_test.Spec.{State}
use csi_test.Spec.Keeps.{Keeps, Keeps-bind, Keeps-pure, Keeps-fail}
use csi_test.Resources.Keeps.{Manages}
use csi_test.Assert.Invariant.{suite_rules}
use csi_test.Controller.ListSnapshots.{
  list_snapshots, verify_snapshots, make_snapshot, make_target, expect_one, make_snapshots,
  lists_snapshots, lists_by_snapshot_id, lists_nothing_for_missing_id, lists_by_source_volume,
  lists_nothing_for_missing_source, list_shows_new_snapshots, list_pages, list_snapshots_specs,
}

module _ {P : State → Type 0} (m : Manages P) where
  pub list_snapshots-Keeps : (req : ListSnapshotsRequest) → Keeps P (list_snapshots req)
  unfolding list_snapshots
  list_snapshots-Keeps req = search suite_rules depth 60 fits 3000

  pub verify_snapshots-Keeps :
      (entries : List (Option Snapshot)) → Keeps P (verify_snapshots entries)
  unfolding verify_snapshots
  verify_snapshots-Keeps [] = search suite_rules depth 60 fits 3000
  verify_snapshots-Keeps (s ∷ snaps) =
      Keeps-bind _ _ (search suite_rules depth 60 fits 3000) λ _. verify_snapshots-Keeps snaps

  pub make_snapshot-Keeps :
      (volume_name : String) (snapshot_name : String)
      → Keeps P (make_snapshot volume_name snapshot_name)
  unfolding make_snapshot
  make_snapshot-Keeps volume_name snapshot_name = search suite_rules depth 60 fits 3000

  pub make_target-Keeps : Keeps P make_target
  unfolding make_target
  make_target-Keeps = search (suite_rules, make_snapshot-Keeps) depth 60 fits 3000

  pub expect_one-Keeps : (entries : List (Option Snapshot)) → Keeps P (expect_one entries)
  unfolding expect_one
  expect_one-Keeps [] = Keeps-fail
  expect_one-Keeps (s ∷ []) = Keeps-pure s
  expect_one-Keeps (s ∷ t ∷ snaps) = Keeps-fail

  pub make_snapshots-Keeps : (i : ℕ) (left : ℕ) → Keeps P (make_snapshots i left)
  unfolding make_snapshots
  make_snapshots-Keeps i zero = search suite_rules depth 60 fits 3000
  make_snapshots-Keeps i (suc left) =
      Keeps-bind _ _ (search (suite_rules, make_snapshot-Keeps) depth 60 fits 3000) λ _.
        Keeps-bind _ _ (search suite_rules depth 60 fits 3000)
          λ _. make_snapshots-Keeps (suc i) left

  pub list_snapshots_specs-Keep : Each (Keeps P) list_snapshots_specs
  unfolding lists_snapshots lists_by_snapshot_id lists_nothing_for_missing_id lists_by_source_volume
      lists_nothing_for_missing_source list_shows_new_snapshots list_pages
  list_snapshots_specs-Keep =
      search
        (
          suite_rules, list_snapshots-Keeps, verify_snapshots-Keeps, make_snapshot-Keeps,
          make_target-Keeps, expect_one-Keeps, make_snapshots-Keeps,
        )
        depth 60 fits 3000 parts 20
