-- ===== src/Suite/Acceptance/Passes.antt =====
-- The specs under CreateVolume, DeleteVolume, ValidateVolumeCapabilities, DeleteSnapshot and
-- CreateSnapshot, and those of ExpandVolume that leave out a field, with a driver that conforms.
use csi_test.Prelude.{[], ◌∷◌, ◌≡◌, ◌⊎◌, List, ◌++◌, Each}
use csi_test.Spec.{Env, State, Spec, done, skipped}
use csi_test.Controller.Create.{
  create_specs, create_fails_without_name, create_fails_without_capabilities,
  creates_without_capacity, creates_with_capacity, creates_twice, create_fails_on_other_capacity,
  creates_with_longest_name, creates_from_snapshot, create_fails_on_missing_snapshot,
  creates_from_volume, create_fails_on_missing_volume,
}
use csi_test.Controller.Delete.{
  delete_specs, delete_fails_without_id, delete_accepts_invalid_id, deletes_volume,
  validate_fails_without_id, validate_fails_without_capabilities, validates,
  validate_fails_on_missing_volume,
}
use csi_test.Controller.Expand.{expand_fails_without_id, expand_fails_without_range}
use csi_test.Controller.Snapshots.{
  snapshots_specs, delete_snapshot_fails_without_id, delete_snapshot_accepts_invalid_id,
  deletes_snapshot, create_snapshot_fails_without_name, create_snapshot_fails_without_source,
  creates_snapshot_twice, create_snapshot_fails_on_other_source, creates_snapshot_with_longest_name,
}
use csi_test.Suite.Acceptance.{Conforms, Configured, Clear, Offers}
use csi_test.Suite.Acceptance.Refusals.{
  create_fails_without_name-Ends, create_fails_without_capabilities-Ends,
  delete_fails_without_id-Ends, validate_fails_without_id-Ends, expand_fails_without_id-Ends,
  expand_fails_without_range-Ends, delete_snapshot_fails_without_id-Ends,
  create_snapshot_fails_without_name-Ends, create_snapshot_fails_without_source-Ends,
}
use csi_test.Suite.Acceptance.Leads.{Ends, Ends-Accepts}
use csi_test.Suite.Acceptance.Create.{
  creates_without_capacity-Ends, creates_with_capacity-Ends, creates_twice-Ends,
  create_fails_on_other_capacity-Ends, creates_with_longest_name-Ends,
}
use csi_test.Suite.Acceptance.Copies.{
  creates_from_volume-Ends, create_fails_on_missing_volume-Ends,
  create_fails_on_missing_snapshot-Ends, creates_from_snapshot-Ends,
}
use csi_test.Suite.Acceptance.Snapshots.{
  delete_snapshot_accepts_invalid_id-Ends, deletes_snapshot-Ends, creates_snapshot_twice-Ends,
  create_snapshot_fails_on_other_source-Ends, creates_snapshot_with_longest_name-Ends,
}
use csi_test.Suite.Acceptance.Delete.{
  delete_accepts_invalid_id-Ends, deletes_volume-Ends, validate_fails_without_capabilities-Ends,
  validates-Ends, validate_fails_on_missing_volume-Ends,
}

-- Where no volume and no snapshot is left, the spec passes, or it is skipped and the driver lacks a
-- capability.
abbrev pub Passes : Env → Spec (Unit {0}) → Type 0
Passes e spec =
    (s : State) → Clear s → (((spec e s).0 ≡ skipped) × ¬ (Offers e)) ⊎ ((spec e s).0 ≡ done tt)

abbrev pub expand_refusals : List (Spec (Unit {0}))
expand_refusals = expand_fails_without_id ∷ expand_fails_without_range ∷ []

abbrev pub storage_specs : List (Spec (Unit {0}))
storage_specs = create_specs ++ (delete_specs ++ (expand_refusals ++ snapshots_specs))

module _ {e : Env} (c : Conforms e) where
  Ends-Passes : (spec : Spec (Unit {0})) → ((s : State) → Clear s → Ends e spec s) → Passes e spec
  Ends-Passes spec ends s clear = Ends-Accepts e spec s (ends s clear)

  pub storage_specs-Pass : Configured e → Each (Passes e) storage_specs
  storage_specs-Pass k =
      search
        (
          Ends-Passes create_fails_without_name (create_fails_without_name-Ends e c),
          Ends-Passes create_fails_without_capabilities
              (create_fails_without_capabilities-Ends e c),
          Ends-Passes creates_without_capacity (creates_without_capacity-Ends e c),
          Ends-Passes creates_with_capacity (creates_with_capacity-Ends e c),
          Ends-Passes creates_twice (creates_twice-Ends e c),
          Ends-Passes create_fails_on_other_capacity (create_fails_on_other_capacity-Ends e c k),
          Ends-Passes creates_with_longest_name (creates_with_longest_name-Ends e c),
          Ends-Passes creates_from_snapshot (creates_from_snapshot-Ends e c),
          Ends-Passes create_fails_on_missing_snapshot (create_fails_on_missing_snapshot-Ends e c),
          Ends-Passes creates_from_volume (creates_from_volume-Ends e c),
          Ends-Passes create_fails_on_missing_volume (create_fails_on_missing_volume-Ends e c),
          Ends-Passes delete_fails_without_id (delete_fails_without_id-Ends e c),
          Ends-Passes delete_accepts_invalid_id (delete_accepts_invalid_id-Ends e c k),
          Ends-Passes deletes_volume (deletes_volume-Ends e c),
          Ends-Passes validate_fails_without_id (validate_fails_without_id-Ends e c),
          Ends-Passes validate_fails_without_capabilities
              (validate_fails_without_capabilities-Ends e c),
          Ends-Passes validates (validates-Ends e c),
          Ends-Passes validate_fails_on_missing_volume
              (validate_fails_on_missing_volume-Ends e c k),
          Ends-Passes expand_fails_without_id (expand_fails_without_id-Ends e c),
          Ends-Passes expand_fails_without_range (expand_fails_without_range-Ends e c),
          Ends-Passes delete_snapshot_fails_without_id (delete_snapshot_fails_without_id-Ends e c),
          Ends-Passes delete_snapshot_accepts_invalid_id
              (delete_snapshot_accepts_invalid_id-Ends e c),
          Ends-Passes deletes_snapshot (deletes_snapshot-Ends e c),
          Ends-Passes create_snapshot_fails_without_name
              (create_snapshot_fails_without_name-Ends e c),
          Ends-Passes create_snapshot_fails_without_source
              (create_snapshot_fails_without_source-Ends e c),
          Ends-Passes creates_snapshot_twice (creates_snapshot_twice-Ends e c),
          Ends-Passes create_snapshot_fails_on_other_source
              (create_snapshot_fails_on_other_source-Ends e c),
          Ends-Passes creates_snapshot_with_longest_name
              (creates_snapshot_with_longest_name-Ends e c),
        )
        parts 40
