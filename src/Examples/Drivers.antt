-- ===== src/Examples/Drivers.antt =====
-- A small driver with volumes and without snapshots, and environments with it.
use csi_test.Prelude.{ℕ, true, false, refl, [], ◌∷◌, none, some, ◌==◌, if◌then◌else◌}
use csi_test.Prelude.Int.{pos}
use csi_test.Csi.Status.{Reply, invalid_argument, unimplemented}
use csi_test.Csi.Messages.{Volume}
use csi_test.Csi.Client.{Client}
use csi_test.Csi.ControllerCapability
use csi_test.Config.{TestConfig, new_test_config, zero_secrets}
use csi_test.Spec.{Env, State}
use csi_test.Resources.Cleanup.Order.{CanClean}

abbrev pub answer : {A : Type 0} → A → Reply A
answer response = record { response = some response; error = none }

abbrev pub status : {A : Type 0} → ℕ → Reply A
status code = record { response = none; error = some (record { code = code; is_status = true }) }

abbrev one_volume : Volume
one_volume = record { capacity_bytes = pos 0; volume_id = "vol-1"; volume_context = [] }

-- It refuses empty names and IDs.
abbrev pub small_driver : Client
small_driver = record {
  create_volume = λ h req.
      if req.name == ""
      then status invalid_argument
      else answer (record { volume = some one_volume });
  delete_volume = λ h req. if req.volume_id == "" then status invalid_argument else answer tt;
  controller_publish = λ h req. answer (record { publish_context = [] });
  controller_unpublish = λ h req. answer tt;
  validate = λ h req. status unimplemented;
  list_volumes = λ h req. status unimplemented;
  get_capacity = λ h. status unimplemented;
  controller_capabilities = λ h. answer (record {
    capabilities = some (
        record { rpc = some ControllerCapability.create_delete_volume }
        ∷ record { rpc = some ControllerCapability.publish_unpublish_volume }
        ∷ record { rpc = some ControllerCapability.expand_volume }
        ∷ []);
  });
  controller_expand = λ h req.
      if req.volume_id == ""
      then status invalid_argument
      else answer (record { capacity_bytes = pos 0 });
  create_snapshot = λ h req. status unimplemented;
  delete_snapshot = λ h req. answer tt;
  list_snapshots = λ h req. status unimplemented;
  node_stage = λ h req. status unimplemented;
  node_unstage = λ h req. status unimplemented;
  node_publish = λ h req. status unimplemented;
  node_unpublish = λ h req. answer tt;
  volume_stats = λ h req. status unimplemented;
  node_expand = λ h req. status unimplemented;
  node_capabilities = λ h. answer (record { capabilities = [] });
  node_info = λ h.
      answer
        (record { node_id = "node-1"; max_volumes_per_node = pos 0; accessible_topology = none });
  plugin_capabilities = λ h. answer (record { capabilities = [] });
  probe = λ h. answer (record { ready = none });
  plugin_info = λ h. answer (record { name = "small"; vendor_version = "1"; manifest = [] });
}

-- Nothing that Cleanup asks for is refused.
abbrev pub obliging_driver : Client
obliging_driver = record small_driver {
  delete_volume = λ h req. answer tt;
  node_unstage = λ h req. answer tt;
}

-- Deletions of volumes always fail.
abbrev pub stubborn_driver : Client
stubborn_driver = record small_driver { delete_volume = λ h req. status unimplemented }

abbrev pub example_config : TestConfig
example_config = new_test_config "/tmp" (λ n. "00000000-0000")

abbrev pub env_with : Client → Env
env_with client = record {
  client = client;
  has_node_client = true;
  sc = record {
    config = example_config;
    secrets = some zero_secrets;
    target_path = "/tmp/csi-mount";
    staging_path = "/tmp/csi-staging";
  };
  unique_suffix = "-0";
  check_path = λ h path. record { value = "directory"; err = none };
}

abbrev pub env : Env
env = env_with small_driver

abbrev pub empty_state : State
empty_state = record { history = []; managed = []; generated = 0; provides_controller = false }

pub env-CanClean : CanClean env
env-CanClean = record { secrets = zero_secrets; has_secrets = refl; answers = λ has history. refl }

pub stubborn-CanClean : CanClean (env_with stubborn_driver)
stubborn-CanClean = record {
  secrets = zero_secrets;
  has_secrets = refl;
  answers = λ has history. refl;
}

pub obliging-CanClean : CanClean (env_with obliging_driver)
obliging-CanClean = record {
  secrets = zero_secrets;
  has_secrets = refl;
  answers = λ has history. refl;
}
