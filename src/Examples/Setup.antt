-- ===== src/Examples/Setup.antt =====
-- Setup with a host on which everything works.
use csi_test.Prelude.{
  List, ◌≢◌, String, ◌==◌, if◌then◌else◌, true, false, ◌≡◌, refl, [], ◌∷◌, none, some, is_some,
  length, arith,
}
use csi_test.Config.{new_test_config}
use csi_test.Spec.{done}
use csi_test.Connect.{Dialled, ready, timed_out, refused}
use csi_test.Setup.Connections.{
  Dialler, no_connections, connect_node, connect_controller, connect, finalize,
}
use csi_test.Setup.Connections.Reuse.{
  address_at, timed_out-misleads, Wired, connect-Wired, connect-again, controller_conn-closed,
}
use csi_test.Setup.Connections.Closing.{
  is_in, Steady, connect_times, finalize-connect, controller_conn-leaked,
}
use csi_test.Setup.Paths.{Host, regular, check_path, create_mount_target_location}
use csi_test.Setup.Paths.Kinds.{is_proper, check_path-proper}
use csi_test.Setup.Context.{
  World, Context, ◌>=>◌, load_from_file, load_secrets, load_volume_parameters,
  load_snapshot_parameters, set_secrets, open_connections, create_target, create_staging, setup,
}
use csi_test.Setup.Context.Ready.{target_result, staging_result, setup-ready}
use csi_test.Examples.Drivers.{example_config}

abbrev ready_dialler : Dialler
ready_dialler = record { node = λ address. ready; controller = λ address. ready }

abbrev example_host : Host
example_host = record {
  trim_space = λ s. s;
  run = λ cmd path timeout. record { value = "directory"; err = none };
  mkdir = λ path. none;
  remove = λ path. none;
  stat = λ path. regular;
}

abbrev example_world : World
example_world = record {
  host = example_host;
  files = record {
    read_file = λ path. record { value = ""; err = some "no files" };
    unmarshal_map = λ text m. (m, none);
    unmarshal_secrets = λ text s. (s, none);
  };
  dial = ready_dialler;
}

abbrev example_context : Context
example_context = record {
  sc = record { config = example_config; secrets = none; target_path = ""; staging_path = "" };
  connections = no_connections;
}

no_connections-Wired : Wired no_connections
no_connections-Wired = record {
  node = λ n h. ground (arith, h);
  controller = λ n h. ground (arith, h);
}

connect_done : (connect ready_dialler "driver" "controller" no_connections).0 ≡ true
unfolding connect connect_node connect_controller
connect_done = refl

connect-Wired_example :
    let d = (connect ready_dialler "driver" "controller" no_connections).1 in
    Wired d × (d.conn_address ≡ "driver") × (is_some d.conn ≡ true)
connect-Wired_example =
    connect-Wired ready_dialler "driver" "controller" no_connections no_connections-Wired
      connect_done

abbrev slow_at : String → Dialled
slow_at address = if address == "slow" then timed_out else ready

abbrev slow_dialler : Dialler
slow_dialler = record { node = slow_at; controller = slow_at }

timed_out-misleads_example :
    let c1 = (connect slow_dialler "driver" "" no_connections).1 in
    let c2 = (connect slow_dialler "slow" "" c1).1 in
    let c3 = (connect slow_dialler "driver" "" c2).1 in
    ((connect slow_dialler "driver" "" c2).0 ≡ true)
    × (c3.conn_address ≡ "driver")
    × (c3.conn ≡ some 1)
    × (address_at 1 c3.opened ≡ some "slow")
timed_out-misleads_example = timed_out-misleads slow_dialler "driver" "slow" refl refl refl refl

connect-again_example :
    let c1 = (connect ready_dialler "driver" "controller" no_connections).1 in
    connect ready_dialler "driver" "controller" c1 ≡ (true, c1)
connect-again_example =
    connect-again ready_dialler "driver" "controller" no_connections connect_done

controller_conn-closed_example :
    let c1 = (connect ready_dialler "old" "" no_connections).1 in
    let c2 = (connect ready_dialler "new" "old" c1).1 in
    ((connect ready_dialler "new" "old" c1).0 ≡ true)
    × (c2.controller_conn ≡ some 0)
    × (c2.closed ≡ 0 ∷ [])
controller_conn-closed_example =
    controller_conn-closed ready_dialler "old" "new" refl refl refl refl

check_path-proper_example : is_proper (check_path example_host "/tmp" (some example_config)) ≡ true
unfolding new_test_config
check_path-proper_example =
    check_path-proper example_host "/tmp" example_config (λ check h. ground (arith, h))

setup_done : (setup example_world example_context).0 ≡ done tt
unfolding setup ◌>=>◌ load_volume_parameters load_snapshot_parameters set_secrets open_connections
    create_target create_staging create_mount_target_location load_from_file load_secrets connect
    new_test_config
setup_done = refl

setup-ready_example :
    let d = (setup example_world example_context).1 in
    (is_some d.sc.secrets ≡ true)
    × Wired d.connections
    × (is_some d.connections.conn ≡ true)
    × (d.connections.conn_address ≡ example_config.address)
    × (target_result example_world example_config ≡ record { value = d.sc.target_path; err = none })
    × (staging_result example_world example_config
        ≡ record { value = d.sc.staging_path; err = none })
setup-ready_example = setup-ready example_world example_context no_connections-Wired setup_done

-- A Setup that finds no driver, and two that do.
abbrev late_diallers : List Dialler
late_diallers =
    record { node = λ address. timed_out; controller = λ address. refused }
    ∷ ready_dialler
    ∷ ready_dialler
    ∷ []

ready-Steady : Steady "controller" ready_dialler
ready-Steady h = ground (arith, h)

refused-Steady : refused ≢ timed_out
refused-Steady h = ground (arith, h)

finalize-connect_example :
    is_in 2 (finalize (connect_times late_diallers "driver" "controller" no_connections)).closed
    ≡ true
unfolding connect_times connect connect_node connect_controller
finalize-connect_example =
    finalize-connect late_diallers "driver" "controller" 2
      (refused-Steady, (ready-Steady, (ready-Steady, tt))) (omega arith)

controller_conn-leaked_example :
    let c = connect_times (slow_dialler ∷ slow_dialler ∷ []) "driver" "slow" no_connections in
    (length c.opened ≡ 3) × (is_in 1 (finalize c).closed ≡ false)
controller_conn-leaked_example = controller_conn-leaked slow_dialler "driver" "slow" refl refl refl
