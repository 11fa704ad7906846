-- ===== src/Controller/Lifecycle/Invariant.antt =====
-- The specs of Controller/Lifecycle.antt keep what the resource manager keeps.
use csi_test.Prelude.{ℕ, String, Each, suc, zero}
use csi_test.Spec.{State}
use csi_test.Spec.Keeps.{Keeps, Keeps-bind}
use csi_test.Resources.Keeps.{Manages}
use csi_test.Assert.Invariant.{suite_rules}
use csi_test.Controller.Lifecycle.{
  publish_repeatedly, volume_lifecycle, lifecycle_works, lifecycle_is_idempotent, lifecycle_specs,
}

module _ {P : State → Type 0} (m : Manages P) where
  pub publish_repeatedly-Keeps :
      (volume_id : String) (node_id : String) (count : ℕ)
      → Keeps P (publish_repeatedly volume_id node_id count)
  unfolding publish_repeatedly
  publish_repeatedly-Keeps volume_id node_id zero = search (suite_rules) depth 60 fits 3000
  publish_repeatedly-Keeps volume_id node_id (suc count) =
      Keeps-bind _ _ (search suite_rules depth 60 fits 3000) λ _.
        Keeps-bind _ _ (search suite_rules depth 60 fits 3000)
          λ _. publish_repeatedly-Keeps volume_id node_id count

  pub volume_lifecycle-Keeps : (count : ℕ) → Keeps P (volume_lifecycle count)
  unfolding volume_lifecycle
  volume_lifecycle-Keeps count = search (suite_rules, publish_repeatedly-Keeps) depth 60 fits 3000

  pub lifecycle_specs-Keep : Each (Keeps P) lifecycle_specs
  unfolding lifecycle_works lifecycle_is_idempotent
  lifecycle_specs-Keep = search (suite_rules, volume_lifecycle-Keeps) depth 60 fits 3000 parts 20
