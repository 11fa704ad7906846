-- ===== src/Node/Setup/Invariant.antt =====
-- The specs of Node/Setup.antt keep what the resource manager keeps.
use csi_test.Csi.Messages.{Volume, ControllerPublishVolumeResponse}
use csi_test.Csi.Node.{NodeGetInfoResponse}
use csi_test.Prelude.{Option, String, Bool, true, false}
use csi_test.Spec.{State, Spec}
use csi_test.Spec.Keeps.{Keeps, Keeps-pure}
use csi_test.Resources.Keeps.{Manages}
use csi_test.Assert.Invariant.{suite_rules}
use csi_test.Node.Setup.{
  Supports, supported_if, before_each, create_test_volume, publish_on_controller, stage_on_node,
  publish_on_node, node_info,
}

module _ {P : State → Type 0} (m : Manages P) where
  pub supported_if-Keeps : (b : Bool) (m' : Spec Bool) → Keeps P m' → Keeps P (supported_if b m')
  unfolding supported_if
  supported_if-Keeps true m' km = km
  supported_if-Keeps false m' km = Keeps-pure false

  pub before_each-Keeps : Keeps P before_each
  unfolding before_each
  before_each-Keeps = search (suite_rules, supported_if-Keeps) depth 60 fits 3000

  pub create_test_volume-Keeps : (name : String) → Keeps P (create_test_volume name)
  unfolding create_test_volume
  create_test_volume-Keeps name = search suite_rules depth 60 fits 3000

  pub publish_on_controller-Keeps :
      (supports : Supports) (vol : Volume) (nid : NodeGetInfoResponse)
      → Keeps P (publish_on_controller supports vol nid)
  unfolding publish_on_controller
  publish_on_controller-Keeps supports vol nid = search suite_rules depth 60 fits 3000

  pub stage_on_node-Keeps :
      (supports : Supports) (vol : Volume) (conpubvol : Option ControllerPublishVolumeResponse)
      → Keeps P (stage_on_node supports vol conpubvol)
  unfolding stage_on_node
  stage_on_node-Keeps supports vol conpubvol = search suite_rules depth 60 fits 3000

  pub publish_on_node-Keeps :
      (supports : Supports) (vol : Volume) (conpubvol : Option ControllerPublishVolumeResponse)
      → Keeps P (publish_on_node supports vol conpubvol)
  unfolding publish_on_node
  publish_on_node-Keeps supports vol conpubvol = search suite_rules depth 60 fits 3000

  pub node_info-Keeps : Keeps P node_info
  unfolding node_info
  node_info-Keeps = search suite_rules depth 60 fits 3000

pub ruleset setup_rules = (
  suite_rules, before_each-Keeps, create_test_volume-Keeps, publish_on_controller-Keeps,
  stage_on_node-Keeps, publish_on_node-Keeps, node_info-Keeps, supported_if-Keeps,
)
