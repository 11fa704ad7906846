-- ===== src/Examples/Mock.antt =====
-- A mock driver with an Identity service that a test starts, uses and closes.
use csi_test.Prelude.{
  String, true, false, ◌≡◌, ◌≢◌, refl, [], ◌∷◌, ◌++◌, none, some, is_some, arith,
}
use csi_test.Connect.{Dialled, ready, timed_out}
use csi_test.Driver.Server.{stop_server, is_running}
use csi_test.Driver.Mock.{
  MockCsiDriverServers, MockCsiDriver, Listen, new_mock_csi_driver, nexus, close_mock,
}
use csi_test.Driver.Mock.Life.{
  Steps, stay, step, connected, serving, close_mock-nexus, is_running-nexus,
}

abbrev identity_only : MockCsiDriverServers
identity_only = record { controller = false; identity = true; node = false }

abbrev new_mock : MockCsiDriver
new_mock = new_mock_csi_driver identity_only

abbrev loopback : Listen
loopback network address = some "127.0.0.1:40000"

abbrev ready_at : String → Dialled
ready_at address = ready

abbrev slow_at : String → Dialled
slow_at address = timed_out

slow-unready : slow_at "127.0.0.1:40000" ≢ ready
slow-unready h = ground (arith, h)

abbrev in_use : MockCsiDriver
in_use = (nexus loopback ready_at new_mock).1

in_use-Steps : Steps new_mock in_use
in_use-Steps = step new_mock new_mock in_use (stay new_mock) (connected loopback ready_at new_mock)

close_mock-nexus_example :
    ((nexus loopback ready_at new_mock).0 ≡ none)
    × (in_use.conn ≡ some "127.0.0.1:40000")
    × ((c : MockCsiDriver) × (close_mock in_use ≡ some c)
        × (c.driver.actions
            ≡ new_mock.driver.actions ++ serving "127.0.0.1:40000" ++ stop_server ∷ [])
        × (c.closed ≡ "127.0.0.1:40000" ∷ new_mock.closed))
close_mock-nexus_example =
    close_mock-nexus identity_only new_mock (stay new_mock) loopback ready_at "127.0.0.1:40000" refl
      refl

is_running-nexus_example :
    let n = (nexus loopback slow_at new_mock).1 in
    (is_some (nexus loopback slow_at new_mock).0 ≡ true)
    × (is_running n.driver ≡ true)
    × (n.driver.actions ≡ new_mock.driver.actions ++ serving "127.0.0.1:40000")
is_running-nexus_example =
    is_running-nexus identity_only new_mock (stay new_mock) loopback slow_at "127.0.0.1:40000" refl
      slow-unready
