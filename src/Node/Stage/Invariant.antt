-- ===== src/Node/Stage/Invariant.antt =====
-- The specs of Node/Stage.antt keep what the resource manager keeps.
use csi_test.Prelude.{Each}
use csi_test.Spec.{State}
use csi_test.Spec.Keeps.{Keeps}
use csi_test.Resources.Keeps.{Manages}
use csi_test.Node.Setup.Invariant.{setup_rules}
use csi_test.Node.Stage.{
  requires_staging, stage_fails_without_id, stage_fails_without_path,
  stage_fails_without_capability, unstage_fails_without_id, unstage_fails_without_path,
  node_stage_specs,
}

module _ {P : State → Type 0} (m : Manages P) where
  pub requires_staging-Keeps : Keeps P requires_staging
  unfolding requires_staging
  requires_staging-Keeps = search setup_rules depth 60 fits 3000

  pub node_stage_specs-Keep : Each (Keeps P) node_stage_specs
  unfolding stage_fails_without_id stage_fails_without_path stage_fails_without_capability
      unstage_fails_without_id unstage_fails_without_path
  node_stage_specs-Keep = search (setup_rules, requires_staging-Keeps) depth 60 fits 3000 parts 20
