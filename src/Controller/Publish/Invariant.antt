-- ===== src/Controller/Publish/Invariant.antt =====
-- The specs of Controller/Publish.antt keep what the resource manager keeps.
use csi_test.Prelude.{ℕ, String, Each, suc, zero}
use csi_test.Spec.{State}
use csi_test.Spec.Keeps.{Keeps, Keeps-bind}
use csi_test.Resources.Keeps.{Manages}
use csi_test.Assert.Invariant.{suite_rules}
use csi_test.Controller.Publish.{
  publish_volumes, publish_fails_without_volume_id, publish_fails_without_node_id,
  publish_fails_without_capability, publish_fails_over_attach_limit,
  publish_fails_on_missing_volume, publish_fails_on_missing_node, publish_fails_on_incompatible,
  unpublish_fails_without_volume_id, publish_specs,
}

module _ {P : State → Type 0} (m : Manages P) where
  pub publish_volumes-Keeps :
      (node_id : String) (i : ℕ) (left : ℕ) → Keeps P (publish_volumes node_id i left)
  unfolding publish_volumes
  publish_volumes-Keeps node_id i zero = search (suite_rules) depth 60 fits 3000
  publish_volumes-Keeps node_id i (suc left) =
      Keeps-bind _ _ (search suite_rules depth 60 fits 3000) λ _.
        Keeps-bind _ _ (search suite_rules depth 60 fits 3000) λ _.
          Keeps-bind _ _ (search suite_rules depth 60 fits 3000) λ _.
            Keeps-bind _ _ (search suite_rules depth 60 fits 3000) λ _.
              Keeps-bind _ _ (search suite_rules depth 60 fits 3000)
                λ _. publish_volumes-Keeps node_id (suc i) left

  pub publish_specs-Keep : Each (Keeps P) publish_specs
  unfolding publish_fails_without_volume_id publish_fails_without_node_id
      publish_fails_without_capability publish_fails_over_attach_limit
      publish_fails_on_missing_volume publish_fails_on_missing_node publish_fails_on_incompatible
      unpublish_fails_without_volume_id
  publish_specs-Keep = search (suite_rules, publish_volumes-Keeps) depth 60 fits 3000 parts 20
