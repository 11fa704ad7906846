-- ===== src/Node/Publish/Invariant.antt =====
-- The specs of Node/Publish.antt keep what the resource manager keeps.
use csi_test.Csi.Capabilities.{ServiceCapability}
use csi_test.Prelude.{String, List, Each, [], ◌∷◌}
use csi_test.Spec.{State}
use csi_test.Spec.Keeps.{Keeps, Keeps-bind}
use csi_test.Resources.Keeps.{Manages}
use csi_test.Node.Setup.Invariant.{setup_rules}
use csi_test.Node.Publish.{
  check_known_node, check_path_now, returns_node_capabilities, returns_node_info,
  node_publish_fails_without_id, node_publish_fails_without_target,
  node_publish_fails_without_capability, node_unpublish_fails_without_id,
  node_unpublish_fails_without_target, node_unpublish_removes_target, node_publish_specs,
}

module _ {P : State → Type 0} (m : Manages P) where
  pub check_known_node-Keeps : (caps : List ServiceCapability) → Keeps P (check_known_node caps)
  unfolding check_known_node
  check_known_node-Keeps [] = search (setup_rules) depth 60 fits 3000
  check_known_node-Keeps (c ∷ caps) =
      Keeps-bind _ _ (search setup_rules depth 60 fits 3000)
        λ _. Keeps-bind _ _ (search setup_rules depth 60 fits 3000) λ _. check_known_node-Keeps caps

  pub check_path_now-Keeps : (path : String) → Keeps P (check_path_now path)
  unfolding check_path_now
  check_path_now-Keeps path = search setup_rules depth 60 fits 3000

  pub node_publish_specs-Keep : Each (Keeps P) node_publish_specs
  unfolding returns_node_capabilities returns_node_info node_publish_fails_without_id
      node_publish_fails_without_target node_publish_fails_without_capability
      node_unpublish_fails_without_id node_unpublish_fails_without_target
      node_unpublish_removes_target
  node_publish_specs-Keep =
      search (setup_rules, check_known_node-Keeps, check_path_now-Keeps) depth 60 fits 3000 parts 20
