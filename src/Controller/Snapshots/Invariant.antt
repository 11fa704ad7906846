-- ===== src/Controller/Snapshots/Invariant.antt =====
-- The specs of Controller/Snapshots.antt keep what the resource manager keeps.
use csi_test.Prelude.{Each}
use csi_test.Spec.{State}
use csi_test.Spec.Keeps.{Keeps}
use csi_test.Resources.Keeps.{Manages}
use csi_test.Assert.Invariant.{suite_rules}
use csi_test.Controller.Snapshots.{
  delete_snapshot_fails_without_id, delete_snapshot_accepts_invalid_id, deletes_snapshot,
  create_snapshot_fails_without_name, create_snapshot_fails_without_source, creates_snapshot_twice,
  create_snapshot_fails_on_other_source, creates_snapshot_with_longest_name, snapshots_specs,
}

module _ {P : State → Type 0} (m : Manages P) where
  pub snapshots_specs-Keep : Each (Keeps P) snapshots_specs
  unfolding delete_snapshot_fails_without_id delete_snapshot_accepts_invalid_id deletes_snapshot
      create_snapshot_fails_without_name create_snapshot_fails_without_source creates_snapshot_twice
      create_snapshot_fails_on_other_source creates_snapshot_with_longest_name
  snapshots_specs-Keep = search suite_rules depth 60 fits 3000 parts 20
