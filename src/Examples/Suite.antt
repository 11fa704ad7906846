-- ===== src/Examples/Suite.antt =====
-- The suite and its resource manager with the small driver.
use csi_test.Prelude.{
  true, false, ◌≡◌, refl, none, [], ◌∷◌, ◌++◌, map, replicate, eqb, if◌then◌else◌, arith,
}
use csi_test.Prelude.Int.{pos}
use csi_test.Csi.ControllerCapability
use csi_test.Csi.Client.{on_create_volume}
use csi_test.Csi.Messages.{CreateVolumeRequest}
use csi_test.Resources.Cleanup.Forgotten.{shared, left_over, delete_snapshot-forgets}
use csi_test.Config.{zero_secrets, new_test_config}
use csi_test.Spec.{State, volume_info, snapshot_info, done, failed, ◌>>=◌}
use csi_test.Rpc
use csi_test.Requests.{secret, unique_string, make_controller_publish_req, test_volume_expand_size}
use csi_test.Requests.Sizes.{test_volume_expand_size-eq}
use csi_test.Resources.{
  create_volume, delete_snapshot, must_create_volume, register_volume, controller_publish_volume,
  must_controller_publish_volume,
}
use csi_test.Resources.Tracking.{volume, snapshot}
use csi_test.Resources.Liveness.{is_live}
use csi_test.Resources.Named.{Named-Manages}
use csi_test.Resources.Cleanup.{cleanup}
use csi_test.Resources.Cleanup.Order.{
  deletions, target, refuses, refusals, cleanup-deletions, cleanup-outcome,
}
use csi_test.Resources.Cleanup.Obliging.{Obliging}
use csi_test.Capability.Queries.{has_rpc}
use csi_test.Controller.Lifecycle.{volume_lifecycle, publish_repeatedly}
use csi_test.Controller.Lifecycle.Entries.{published, volume_of, node_of, volume_lifecycle-managed}
use csi_test.Controller.Verdicts.{Answers}
use mathlib.Core.List.{List}
use mathlib.Core.List.Memᴰ.{head, tail}
use csi_test.Spec.{Env}
use csi_test.Assert.{requires, writer_request, expect_status}
use csi_test.Capability.{find_rpc, is_controller_capability_supported, is_node_capability_supported}
use csi_test.Resources.Cleanup.{
  cleanup_all, cleanup_resource, cleanup_volume, cleanup_node, cleanup_staging, cleanup_publish,
  cleanup_delete,
}
use csi_test.Resources.{add_resource}
use csi_test.Resources.Liveness.{is_confused}
use csi_test.Controller.Create.{creates_without_capacity, create_fails_without_name}
use csi_test.Suite.{Planned, run_spec, run_suite}
use csi_test.Suite.Leaks.{IsPlan, plan-Keep, suite-Dead, suite-Dead-Obliging, specs-clean}
use csi_test.Examples.Drivers.{
  env, env_with, obliging_driver, stubborn_driver, empty_state, env-CanClean, obliging-CanClean,
  stubborn-CanClean,
}

-- A volume that is published, and a snapshot.
abbrev two_resources : State
two_resources = record empty_state {
  managed =
      record { id = "vol-1"; resource = volume_info "node-1" }
      ∷ record { id = "snap-1"; resource = snapshot_info }
      ∷ [];
}

driver-Obliging : Obliging (env_with obliging_driver)
unfolding refuses
driver-Obliging = record {
  staging = refl;
  delete_volume = λ h req named. refl;
  delete_snapshot = λ h req named. refl;
  controller_unpublish = λ h req named. refl;
  node_unpublish = λ h req named path. refl;
  node_unstage = λ h req named path. refl;
}

-- Two specs in another order than that of their files, the first without a NodeClient.
abbrev two_specs : List Planned
two_specs =
    record { body = creates_without_capacity; has_node_client = false }
    ∷ record { body = create_fails_without_name; has_node_client = true }
    ∷ []

two_specs-IsPlan : IsPlan two_specs
two_specs-IsPlan = (
  tail (tail (tail (tail (tail (tail (tail (head refl))))))),
  (tail (tail (tail (tail (tail (head refl))))), tt),
)

abbrev obliging_env : Env
obliging_env = env_with obliging_driver

unconfused :
    is_confused volume "vol-1" (run_suite two_specs obliging_env empty_state).1.history ≡ false
unfolding is_confused is_live run_suite run_spec creates_without_capacity create_fails_without_name
    requires is_controller_capability_supported find_rpc secret unique_string writer_request
    must_create_volume create_volume register_volume add_resource Rpc.create_volume
    Rpc.controller_capabilities Rpc.delete_volume Rpc.node_unpublish Rpc.controller_unpublish
    Rpc.node_capabilities Rpc.node_unstage is_node_capability_supported expect_status cleanup
    cleanup_all cleanup_resource cleanup_volume cleanup_node cleanup_staging cleanup_publish
    cleanup_delete ◌>>=◌
unconfused = refl

suite-Dead_example :
    is_live volume "vol-1" (run_suite two_specs obliging_env empty_state).1.history ≡ false
unfolding is_live
suite-Dead_example =
    suite-Dead obliging_env empty_state two_specs volume "vol-1" two_specs-IsPlan obliging-CanClean
      refl
      (specs-clean obliging_env obliging-CanClean driver-Obliging two_specs empty_state
        (plan-Keep Named-Manages two_specs two_specs-IsPlan))
      unconfused

suite-Dead-Obliging_example :
    is_live volume "vol-1" (run_suite two_specs obliging_env empty_state).1.history ≡ false
unfolding is_live
suite-Dead-Obliging_example =
    suite-Dead-Obliging obliging_env empty_state two_specs volume "vol-1" two_specs-IsPlan
      obliging-CanClean driver-Obliging refl unconfused

abbrev request : CreateVolumeRequest
request = record {
  name = "first";
  capacity_range = none;
  volume_capabilities = [];
  parameters = [];
  secrets = [];
  volume_content_source = none;
  accessibility_requirements = none;
}

-- A driver has made a volume and a snapshot with one ID.
abbrev both_made : State
both_made = record empty_state {
  managed = shared "vol-1" "";
  history = on_create_volume request (env.client.create_volume [] request) ∷ [];
}

delete_snapshot-forgets_example :
    let t = (delete_snapshot (record { snapshot_id = "vol-1"; secrets = [] }) env both_made).1 in
    (t.managed ≡ left_over "vol-1")
    × (deletions (cleanup env t).1.history ≡ (snapshot, "vol-1") ∷ deletions t.history)
    × (is_live volume "vol-1" (cleanup env t).1.history ≡ true)
unfolding is_live
delete_snapshot-forgets_example =
    delete_snapshot-forgets env both_made (record { snapshot_id = "vol-1"; secrets = [] }) ""
      env-CanClean refl refl refl refl

cleanup-deletions_example :
    deletions (cleanup env two_resources).1.history
    ≡ map target two_resources.managed ++ deletions two_resources.history
cleanup-deletions_example = cleanup-deletions env env-CanClean two_resources

cleanup-outcome_example :
    let t = (cleanup (env_with stubborn_driver) two_resources).1 in
    let clean = eqb (refusals t.history) (refusals two_resources.history) in
    ((cleanup (env_with stubborn_driver) two_resources).0 ≡ (if clean then done tt else failed))
    × (t.managed ≡ (if clean then [] else two_resources.managed))
cleanup-outcome_example = cleanup-outcome (env_with stubborn_driver) stubborn-CanClean two_resources

lifecycle_done : (volume_lifecycle 2 env empty_state).0 ≡ done tt
unfolding volume_lifecycle publish_repeatedly must_create_volume create_volume register_volume
    Rpc.create_volume Rpc.node_info writer_request secret unique_string ◌>>=◌
    make_controller_publish_req must_controller_publish_volume controller_publish_volume
    Rpc.controller_publish
lifecycle_done = refl

volume_lifecycle-managed_example :
    (volume_lifecycle 2 env empty_state).1.managed
    ≡ []
      ++ published (volume_of env zero_secrets empty_state) ""
        ∷ replicate 2 (
            published
              (volume_of env zero_secrets empty_state)
              (node_of env zero_secrets empty_state))
volume_lifecycle-managed_example =
    volume_lifecycle-managed env zero_secrets 2 empty_state refl lifecycle_done

create-Answers : Answers ControllerCapability.create_delete_volume true env
unfolding has_rpc
create-Answers = record {
  secrets = zero_secrets;
  has_secrets = refl;
  answers = λ h. refl;
  offers = λ h. refl;
}

expand-Answers : Answers ControllerCapability.expand_volume true env
unfolding has_rpc
expand-Answers = record {
  secrets = zero_secrets;
  has_secrets = refl;
  answers = λ h. refl;
  offers = λ h. refl;
}

test_volume_expand_size-eq_example : test_volume_expand_size env.sc ≡ pos 11811160064
unfolding new_test_config
test_volume_expand_size-eq_example =
    test_volume_expand_size-eq env.sc 10737418240 refl (omega arith) refl
