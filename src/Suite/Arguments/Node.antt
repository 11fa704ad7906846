-- ===== src/Suite/Arguments/Node.antt =====
-- The specs of pkg/sanity/node.go that leave out a required field.
use csi_test.Prelude.{arith, refl, not, List, [], ◌∷◌, Each}
use csi_test.Spec.{Env, Spec}
use csi_test.Suite.Arguments.{Goes, Probes, Queries}
use csi_test.Suite.Arguments.Goes.{
  then-Goes, then-Probes, asks-Goes, skip_if-Goes, unique_volume_id-Goes, secret-Goes,
  before_each-Goes,
}
use csi_test.Suite.Arguments.Calls.{
  node_stage-Probes, node_unstage-Probes, node_publish-Probes, node_unpublish-Probes,
  volume_stats-Probes, node_expand-Probes,
}
use csi_test.Node.Publish.{
  node_publish_fails_without_id, node_publish_fails_without_target,
  node_publish_fails_without_capability, node_unpublish_fails_without_id,
  node_unpublish_fails_without_target,
}
use csi_test.Node.Stage.{
  requires_staging, stage_fails_without_id, stage_fails_without_path, unstage_fails_without_id,
  unstage_fails_without_path,
}
use csi_test.Node.Stats.{
  requires_stats, requires_node_expansion, stats_fails_without_id, stats_fails_without_path,
  node_expand_fails_without_id,
}

abbrev pub node_argument_specs : List (Spec (Unit {0}))
node_argument_specs =
    node_publish_fails_without_id ∷ node_publish_fails_without_target
    ∷ node_publish_fails_without_capability ∷ node_unpublish_fails_without_id
    ∷ node_unpublish_fails_without_target ∷ stage_fails_without_id ∷ stage_fails_without_path
    ∷ unstage_fails_without_id ∷ unstage_fails_without_path ∷ stats_fails_without_id
    ∷ stats_fails_without_path ∷ node_expand_fails_without_id ∷ []

module _ {e : Env} (q : Queries e) where
  requires_staging-Goes : Goes e requires_staging
  unfolding requires_staging
  requires_staging-Goes =
      then-Goes e _ _ (before_each-Goes q) λ supports. skip_if-Goes e (not supports.node_stage)

  requires_stats-Goes : Goes e requires_stats
  unfolding requires_stats
  requires_stats-Goes =
      then-Goes e _ _ (before_each-Goes q)
        λ supports. then-Goes e _ _ (skip_if-Goes e (not supports.volume_stats)) λ t. asks-Goes e _

  requires_node_expansion-Goes : Goes e requires_node_expansion
  unfolding requires_node_expansion
  requires_node_expansion-Goes =
      then-Goes e _ _ (before_each-Goes q) λ supports.
        then-Goes e _ _ (skip_if-Goes e (not supports.node_expansion)) λ t. asks-Goes e _

  node_publish_fails_without_id-Probes : Probes e node_publish_fails_without_id
  unfolding node_publish_fails_without_id
  node_publish_fails_without_id-Probes =
      then-Probes e _ _ (before_each-Goes q)
        λ supports. then-Probes e _ _ (secret-Goes q _) λ secrets. node_publish-Probes e _ refl

  node_publish_fails_without_target-Probes : Probes e node_publish_fails_without_target
  unfolding node_publish_fails_without_target
  node_publish_fails_without_target-Probes = then-Probes e _ _ (before_each-Goes q) λ supports.
      then-Probes e _ _ (unique_volume_id-Goes e) λ vol_id.
        then-Probes e _ _ (secret-Goes q _) λ secrets. node_publish-Probes e _ (ground arith)

  node_publish_fails_without_capability-Probes : Probes e node_publish_fails_without_capability
  unfolding node_publish_fails_without_capability
  node_publish_fails_without_capability-Probes = then-Probes e _ _ (before_each-Goes q) λ supports.
      then-Probes e _ _ (asks-Goes e _) λ sc. then-Probes e _ _ (unique_volume_id-Goes e) λ vol_id.
        then-Probes e _ _ (secret-Goes q _) λ secrets. node_publish-Probes e _ (ground arith)

  node_unpublish_fails_without_id-Probes : Probes e node_unpublish_fails_without_id
  unfolding node_unpublish_fails_without_id
  node_unpublish_fails_without_id-Probes =
      then-Probes e _ _ (before_each-Goes q) λ supports. node_unpublish-Probes e _ refl

  node_unpublish_fails_without_target-Probes : Probes e node_unpublish_fails_without_target
  unfolding node_unpublish_fails_without_target
  node_unpublish_fails_without_target-Probes = then-Probes e _ _ (before_each-Goes q) λ supports.
      then-Probes e _ _ (unique_volume_id-Goes e) λ vol_id. node_unpublish-Probes e _ (ground arith)

  stage_fails_without_id-Probes : Probes e stage_fails_without_id
  unfolding stage_fails_without_id
  stage_fails_without_id-Probes = then-Probes e _ _ requires_staging-Goes λ t.
      then-Probes e _ _ (asks-Goes e _)
        λ sc. then-Probes e _ _ (secret-Goes q _) λ secrets. node_stage-Probes e _ refl

  stage_fails_without_path-Probes : Probes e stage_fails_without_path
  unfolding stage_fails_without_path
  stage_fails_without_path-Probes = then-Probes e _ _ requires_staging-Goes λ t.
      then-Probes e _ _ (asks-Goes e _) λ sc. then-Probes e _ _ (unique_volume_id-Goes e) λ vol_id.
        then-Probes e _ _ (secret-Goes q _) λ secrets. node_stage-Probes e _ (ground arith)

  unstage_fails_without_id-Probes : Probes e unstage_fails_without_id
  unfolding unstage_fails_without_id
  unstage_fails_without_id-Probes =
      then-Probes e _ _ requires_staging-Goes
        λ t. then-Probes e _ _ (asks-Goes e _) λ sc. node_unstage-Probes e _ refl

  unstage_fails_without_path-Probes : Probes e unstage_fails_without_path
  unfolding unstage_fails_without_path
  unstage_fails_without_path-Probes = then-Probes e _ _ requires_staging-Goes λ t.
      then-Probes e _ _ (unique_volume_id-Goes e) λ vol_id. node_unstage-Probes e _ (ground arith)

  stats_fails_without_id-Probes : Probes e stats_fails_without_id
  unfolding stats_fails_without_id
  stats_fails_without_id-Probes =
      then-Probes e _ _ requires_stats-Goes λ supports. volume_stats-Probes e _ refl

  stats_fails_without_path-Probes : Probes e stats_fails_without_path
  unfolding stats_fails_without_path
  stats_fails_without_path-Probes = then-Probes e _ _ requires_stats-Goes λ supports.
      then-Probes e _ _ (unique_volume_id-Goes e) λ vol_id. volume_stats-Probes e _ (ground arith)

  node_expand_fails_without_id-Probes : Probes e node_expand_fails_without_id
  unfolding node_expand_fails_without_id
  node_expand_fails_without_id-Probes =
      then-Probes e _ _ requires_node_expansion-Goes
        λ supports. then-Probes e _ _ (asks-Goes e _) λ sc. node_expand-Probes e _ refl

  pub node_argument_specs-Probe : Each (Probes e) node_argument_specs
  node_argument_specs-Probe =
      search
        (
          node_publish_fails_without_id-Probes, node_publish_fails_without_target-Probes,
          node_publish_fails_without_capability-Probes, node_unpublish_fails_without_id-Probes,
          node_unpublish_fails_without_target-Probes, stage_fails_without_id-Probes,
          stage_fails_without_path-Probes, unstage_fails_without_id-Probes,
          unstage_fails_without_path-Probes, stats_fails_without_id-Probes,
          stats_fails_without_path-Probes, node_expand_fails_without_id-Probes,
        )
        parts 20
