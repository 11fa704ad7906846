-- ===== src/Controller/Expand/Invariant.antt =====
-- The specs of Controller/Expand.antt keep what the resource manager keeps.
use csi_test.Prelude.{Each}
use csi_test.Spec.{State}
use csi_test.Spec.Keeps.{Keeps}
use csi_test.Resources.Keeps.{Manages}
use csi_test.Assert.Invariant.{suite_rules}
use csi_test.Controller.Expand.{
  expand_fails_without_id, expand_fails_without_range, expands_volume, expand_specs,
}

module _ {P : State → Type 0} (m : Manages P) where
  pub expand_specs-Keep : Each (Keeps P) expand_specs
  unfolding expand_fails_without_id expand_fails_without_range expands_volume
  expand_specs-Keep = search suite_rules depth 60 fits 3000 parts 20
