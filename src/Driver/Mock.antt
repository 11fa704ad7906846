-- ===== src/Driver/Mock.antt =====
-- driver/mock.go: the mock driver with a connection of its own. net.Listen and utils.Connect are
-- parameters; a listener and a connection are the address that they listen on or lead to.
pub mod Life
use csi_test.Prelude.{String, Bool, true, List, [], ◌∷◌, Option, none, some}
use csi_test.Connect.{Dialled, ready, timed_out, refused}
use csi_test.Driver.Server.{Backend, csi_driver, CsiDriver, new_csi_driver, start, close}

-- Which pointers of MockCSIDriverServers are not nil.
pub record MockCsiDriverServers : Type 0 where
  pub controller : Bool
  pub identity : Bool
  pub node : Bool

-- The embedded driver, the connection, and the connections closed, the newest first.
pub record MockCsiDriver : Type 0 where
  pub driver : CsiDriver
  pub conn : Option String
  pub closed : List String

-- A nil pointer of a concrete type that is stored in a field of interface type is not a nil interface:
-- the driver has all three services, whatever the pointers are.
abbrev pub interfaces_of : MockCsiDriverServers → Backend
interfaces_of servers = csi_driver (record { controller = true; identity = true; node = true })

unfoldable pub new_mock_csi_driver : MockCsiDriverServers → MockCsiDriver
unfolding new_csi_driver
new_mock_csi_driver servers = record {
  driver = new_csi_driver (interfaces_of servers);
  conn = none;
  closed = [];
}

-- The ways in which a method fails.
pub data MockError : Type 0 where
  listen_failed not_connected connection_timed_out : MockError

-- net.Listen by network and address: the address that is listened on, or an error.
abbrev pub Listen : Type 0
Listen = String → String → Option String

-- CSIDriver.Start returns nil always, so the listener is never closed.
unfoldable pub start_on_address :
    Listen → String → String → MockCsiDriver → Option MockError × MockCsiDriver
unfolding start
start_on_address listen network address m = elim (listen network address) [
  | none ↦ (some listen_failed, m)
  | some l ↦ (none, record m { driver = start l m.driver })
]

unfoldable pub start_mock : Listen → MockCsiDriver → Option MockError × MockCsiDriver
unfolding start_on_address
start_mock listen m = start_on_address listen "tcp" "127.0.0.1:0" m

-- Address(): that of the listener. A nil listener panics, but Nexus asks after a Start.
abbrev pub address : CsiDriver → String
address c = elim c.listener [ none ↦ "" | some l ↦ l ]

-- `m.conn, err = utils.Connect(…)`: the field gets the connection also where there is an error.
abbrev pub connect_to : String → Dialled → MockCsiDriver → Option MockError × MockCsiDriver
connect_to address ready m = (none, record m { conn = some address })
connect_to address timed_out m = (some connection_timed_out, record m { conn = some address })
connect_to address refused m = (some not_connected, record m { conn = none })

abbrev pub nexus_after :
    (String → Dialled) → Option MockError × MockCsiDriver → Option MockError × MockCsiDriver
nexus_after dial (some err, m) = (some err, m)
nexus_after dial (none, m) = connect_to (address m.driver) (dial (address m.driver)) m

-- Nexus(): the connection that it returns without an error is `conn` then.
unfoldable pub nexus :
    Listen → (String → Dialled) → MockCsiDriver → Option MockError × MockCsiDriver
unfolding start_mock
nexus listen dial m = nexus_after dial (start_mock listen m)

-- m.conn.Close() and m.server.Stop(), which panic on nil pointers: the result is none then.
unfoldable pub close_mock : MockCsiDriver → Option MockCsiDriver
unfolding close
close_mock m = elim m.conn [
  | none ↦ none
  | some conn ↦ (elim (close m.driver) [
    | none ↦ none
    | some c ↦ some (record m { driver = c; closed = conn ∷ m.closed })
  ])
]
