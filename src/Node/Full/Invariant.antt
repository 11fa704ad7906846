-- ===== src/Node/Full/Invariant.antt =====
-- The specs of Node/Full.antt keep what the resource manager keeps.
use csi_test.Csi.Messages.{Volume}
use csi_test.Node.Setup.{Supports}
use csi_test.Prelude.{zero, suc, ℕ, Each}
use csi_test.Spec.{State, Spec}
use csi_test.Spec.Keeps.{Keeps, Keeps-pure, Keeps-bind}
use csi_test.Resources.Keeps.{Manages}
use csi_test.Node.Setup.Invariant.{setup_rules}
use csi_test.Node.Full.{
  repeat, check_stats, run_controller_test, node_works, node_is_idempotent, node_full_specs,
}

module _ {P : State → Type 0} (m : Manages P) where
  repeat-Keeps : (count : ℕ) (body : Spec (Unit {0})) → Keeps P body → Keeps P (repeat count body)
  unfolding repeat
  repeat-Keeps zero body k = Keeps-pure tt
  repeat-Keeps (suc count) body k = Keeps-bind body _ k λ _. repeat-Keeps count body k

  pub check_stats-Keeps : (support : Supports) (vol : Volume) → Keeps P (check_stats support vol)
  unfolding check_stats
  check_stats-Keeps support vol = search setup_rules depth 60 fits 3000

  pub run_controller_test-Keeps :
      (support : Supports) (count : ℕ) → Keeps P (run_controller_test support count)
  unfolding run_controller_test
  run_controller_test-Keeps support count =
      search (setup_rules, repeat-Keeps, check_stats-Keeps) depth 60 fits 3000

  pub node_full_specs-Keep : Each (Keeps P) node_full_specs
  unfolding node_works node_is_idempotent
  node_full_specs-Keep = search (setup_rules, run_controller_test-Keeps) depth 60 fits 3000 parts 20
