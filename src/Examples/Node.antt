-- ===== src/Examples/Node.antt =====
-- A Node spec on a driver that stages and publishes.
use csi_test.Prelude.{String, true, ◌≡◌, refl, ◌++◌, [], some}
use csi_test.Csi.Client.{Client}
use csi_test.Spec.{Env, done, ◌>>=◌}
use csi_test.Rpc
use csi_test.Requests.{secret, unique_string}
use csi_test.Resources.{
  create_volume, must_create_volume, register_volume, controller_publish_volume,
  must_controller_publish_volume,
}
use csi_test.Assert.{writer_request}
use csi_test.Node.Setup.{Supports, publish_on_controller, stage_on_node, publish_on_node, node_info}
use csi_test.Node.Full.{repeat, check_stats, run_controller_test}
use csi_test.Node.Full.Calls.{steps}
use csi_test.Node.Full.Order.{full_steps, run_controller_test-steps}
use csi_test.Examples.Drivers.{answer, small_driver, env_with, empty_state}

abbrev full_driver : Client
full_driver = record small_driver {
  node_stage = λ h req. answer tt;
  node_publish = λ h req. answer tt;
  volume_stats = λ h req. answer (record { usage = some [] });
}

abbrev full_env : Env
full_env = env_with full_driver

abbrev all_supported : Supports
all_supported = record {
  controller_service = true;
  controller_publish = true;
  node_stage = true;
  volume_stats = true;
  node_expansion = true;
  controller_expansion = true;
}

full_run-done : (run_controller_test all_supported 2 full_env empty_state).0 ≡ done tt
unfolding run_controller_test repeat check_stats publish_on_controller stage_on_node publish_on_node
    node_info unique_string writer_request secret must_create_volume create_volume register_volume
    must_controller_publish_volume controller_publish_volume Rpc.create_volume Rpc.node_info
    Rpc.controller_publish Rpc.node_stage Rpc.node_publish Rpc.volume_stats ◌>>=◌
full_run-done = refl

run_controller_test-steps_example :
    (id : String) × (node_id : String) × (steps
        (run_controller_test all_supported 2 full_env empty_state).1
      ≡ full_steps all_supported 2 full_env.sc id node_id ++ steps empty_state)
run_controller_test-steps_example =
    run_controller_test-steps all_supported 2 full_env empty_state full_run-done
