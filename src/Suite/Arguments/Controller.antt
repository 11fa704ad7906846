-- ===== src/Suite/Arguments/Controller.antt =====
-- The specs of pkg/sanity/controller.go that leave out a required field.
use csi_test.Prelude.{arith, refl, List, [], ◌∷◌, Each}
use csi_test.Spec.{Env, Spec}
use csi_test.Suite.Arguments.{Probes, Queries}
use csi_test.Suite.Arguments.Goes.{
  then-Probes, asks-Goes, unique_volume_id-Goes, unique_node_id-Goes, unique_string-Goes,
  secret-Goes, requires-Goes,
}
use csi_test.Suite.Arguments.Calls.{
  validate-Probes, controller_unpublish-Probes, create_volume-Probes, delete_volume-Probes,
  controller_publish_volume-Probes, create_snapshot-Probes, delete_snapshot-Probes,
  controller_expand-Probes,
}
use csi_test.Controller.Create.{create_fails_without_name, create_fails_without_capabilities}
use csi_test.Controller.Delete.{delete_fails_without_id, validate_fails_without_id}
use csi_test.Controller.Publish.{
  publish_fails_without_volume_id, publish_fails_without_node_id, publish_fails_without_capability,
  unpublish_fails_without_volume_id,
}
use csi_test.Controller.Expand.{expand_fails_without_id, expand_fails_without_range}
use csi_test.Controller.Snapshots.{
  delete_snapshot_fails_without_id, create_snapshot_fails_without_name,
  create_snapshot_fails_without_source,
}

abbrev pub controller_argument_specs : List (Spec (Unit {0}))
controller_argument_specs =
    create_fails_without_name ∷ create_fails_without_capabilities ∷ delete_fails_without_id
    ∷ validate_fails_without_id ∷ publish_fails_without_volume_id ∷ publish_fails_without_node_id
    ∷ publish_fails_without_capability ∷ unpublish_fails_without_volume_id ∷ expand_fails_without_id
    ∷ expand_fails_without_range ∷ delete_snapshot_fails_without_id
    ∷ create_snapshot_fails_without_name ∷ create_snapshot_fails_without_source ∷ []

module _ {e : Env} (q : Queries e) where
  create_fails_without_name-Probes : Probes e create_fails_without_name
  unfolding create_fails_without_name
  create_fails_without_name-Probes = then-Probes e _ _ (requires-Goes q _) λ t.
      then-Probes e _ _ (asks-Goes e _)
        λ sc. then-Probes e _ _ (secret-Goes q _) λ secrets. create_volume-Probes e _ refl

  create_fails_without_capabilities-Probes : Probes e create_fails_without_capabilities
  unfolding create_fails_without_capabilities
  create_fails_without_capabilities-Probes = then-Probes e _ _ (requires-Goes q _) λ t.
      then-Probes e _ _ (unique_string-Goes e _) λ name.
        then-Probes e _ _ (asks-Goes e _) λ sc.
          then-Probes e _ _ (secret-Goes q _) λ secrets. create_volume-Probes e _ (ground arith)

  delete_fails_without_id-Probes : Probes e delete_fails_without_id
  unfolding delete_fails_without_id
  delete_fails_without_id-Probes =
      then-Probes e _ _ (requires-Goes q _)
        λ t. then-Probes e _ _ (secret-Goes q _) λ secrets. delete_volume-Probes e _ refl

  validate_fails_without_id-Probes : Probes e validate_fails_without_id
  unfolding validate_fails_without_id
  validate_fails_without_id-Probes =
      then-Probes e _ _ (secret-Goes q _) λ secrets. validate-Probes e _ refl

  publish_fails_without_volume_id-Probes : Probes e publish_fails_without_volume_id
  unfolding publish_fails_without_volume_id
  publish_fails_without_volume_id-Probes =
      then-Probes e _ _ (requires-Goes q _) λ t.
        then-Probes e _ _ (secret-Goes q _) λ secrets. controller_publish_volume-Probes e _ refl

  publish_fails_without_node_id-Probes : Probes e publish_fails_without_node_id
  unfolding publish_fails_without_node_id
  publish_fails_without_node_id-Probes = then-Probes e _ _ (requires-Goes q _) λ t.
      then-Probes e _ _ (unique_volume_id-Goes e) λ vol_id.
        then-Probes e _ _ (secret-Goes q _)
          λ secrets. controller_publish_volume-Probes e _ (ground arith)

  publish_fails_without_capability-Probes : Probes e publish_fails_without_capability
  unfolding publish_fails_without_capability
  publish_fails_without_capability-Probes = then-Probes e _ _ (requires-Goes q _) λ t.
      then-Probes e _ _ (unique_volume_id-Goes e) λ vol_id.
        then-Probes e _ _ (unique_node_id-Goes e) λ node_id.
          then-Probes e _ _ (secret-Goes q _)
            λ secrets. controller_publish_volume-Probes e _ (ground arith)

  unpublish_fails_without_volume_id-Probes : Probes e unpublish_fails_without_volume_id
  unfolding unpublish_fails_without_volume_id
  unpublish_fails_without_volume_id-Probes =
      then-Probes e _ _ (requires-Goes q _)
        λ t. then-Probes e _ _ (secret-Goes q _) λ secrets. controller_unpublish-Probes e _ refl

  expand_fails_without_id-Probes : Probes e expand_fails_without_id
  unfolding expand_fails_without_id
  expand_fails_without_id-Probes = then-Probes e _ _ (requires-Goes q _) λ t.
      then-Probes e _ _ (asks-Goes e _)
        λ sc. then-Probes e _ _ (secret-Goes q _) λ secrets. controller_expand-Probes e _ refl

  expand_fails_without_range-Probes : Probes e expand_fails_without_range
  unfolding expand_fails_without_range
  expand_fails_without_range-Probes =
      then-Probes e _ _ (requires-Goes q _)
        λ t. then-Probes e _ _ (secret-Goes q _) λ secrets. controller_expand-Probes e _ refl

  delete_snapshot_fails_without_id-Probes : Probes e delete_snapshot_fails_without_id
  unfolding delete_snapshot_fails_without_id
  delete_snapshot_fails_without_id-Probes =
      then-Probes e _ _ (requires-Goes q _)
        λ t. then-Probes e _ _ (asks-Goes e _) λ sc. delete_snapshot-Probes e _ refl

  create_snapshot_fails_without_name-Probes : Probes e create_snapshot_fails_without_name
  unfolding create_snapshot_fails_without_name
  create_snapshot_fails_without_name-Probes =
      then-Probes e _ _ (requires-Goes q _)
        λ t. then-Probes e _ _ (asks-Goes e _) λ sc. create_snapshot-Probes e _ refl

  create_snapshot_fails_without_source-Probes : Probes e create_snapshot_fails_without_source
  unfolding create_snapshot_fails_without_source
  create_snapshot_fails_without_source-Probes =
      then-Probes e _ _ (requires-Goes q _)
        λ t. then-Probes e _ _ (asks-Goes e _) λ sc. create_snapshot-Probes e _ refl

  pub controller_argument_specs-Probe : Each (Probes e) controller_argument_specs
  controller_argument_specs-Probe =
      search
        (
          create_fails_without_name-Probes, create_fails_without_capabilities-Probes,
          delete_fails_without_id-Probes, validate_fails_without_id-Probes,
          publish_fails_without_volume_id-Probes, publish_fails_without_node_id-Probes,
          publish_fails_without_capability-Probes, unpublish_fails_without_volume_id-Probes,
          expand_fails_without_id-Probes, expand_fails_without_range-Probes,
          delete_snapshot_fails_without_id-Probes, create_snapshot_fails_without_name-Probes,
          create_snapshot_fails_without_source-Probes,
        )
        parts 20
