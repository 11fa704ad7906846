-- ===== src/Node/Stats/Invariant.antt =====
-- The specs of Node/Stats.antt keep what the resource manager keeps.
use csi_test.Csi.Messages.{Volume}
use csi_test.Node.Setup.{Supports}
use csi_test.Prelude.{Each}
use csi_test.Spec.{State}
use csi_test.Spec.Keeps.{Keeps}
use csi_test.Resources.Keeps.{Manages}
use csi_test.Node.Setup.Invariant.{setup_rules}
use csi_test.Node.Stats.{
  requires_stats, requires_node_expansion, expand_on_controller, stats_fails_without_id,
  stats_fails_without_path, stats_fails_on_missing_volume, stats_fails_on_other_path,
  node_expand_fails_without_id, node_expand_fails_without_path, node_expand_fails_on_missing_volume,
  node_expands_volume, node_stats_specs,
}

module _ {P : State → Type 0} (m : Manages P) where
  pub requires_stats-Keeps : Keeps P requires_stats
  unfolding requires_stats
  requires_stats-Keeps = search setup_rules depth 60 fits 3000

  pub requires_node_expansion-Keeps : Keeps P requires_node_expansion
  unfolding requires_node_expansion
  requires_node_expansion-Keeps = search setup_rules depth 60 fits 3000

  pub expand_on_controller-Keeps :
      (support : Supports) (vol : Volume) → Keeps P (expand_on_controller support vol)
  unfolding expand_on_controller
  expand_on_controller-Keeps support vol = search setup_rules depth 60 fits 3000

  pub node_stats_specs-Keep : Each (Keeps P) node_stats_specs
  unfolding stats_fails_without_id stats_fails_without_path stats_fails_on_missing_volume
      stats_fails_on_other_path node_expand_fails_without_id node_expand_fails_without_path
      node_expand_fails_on_missing_volume node_expands_volume
  node_stats_specs-Keep =
      search
        (
          setup_rules, requires_stats-Keeps, requires_node_expansion-Keeps,
          expand_on_controller-Keeps,
        )
        depth 60 fits 3000 parts 20
