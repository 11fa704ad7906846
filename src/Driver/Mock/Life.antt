-- ===== src/Driver/Mock/Life.antt =====
-- What Nexus and Close do to a mock driver that its methods have led to.
use mathlib.Core.List.{append_assoc}
use csi_test.Prelude.{
  ap, ◌∙◌, String, true, ◌≡◌, ◌≢◌, refl, List, [], ◌∷◌, ◌++◌, none, some, is_some, arith,
}
use csi_test.Connect.{Dialled, ready}
use csi_test.Driver.Server.{
  Action, new_server, register_controller, register_identity, register_node, register_reflection,
  serve, stop_server, new_csi_driver, start, stop, close, is_running, set_creds, registrations,
}
use csi_test.Driver.Mock.{
  MockCsiDriverServers, MockCsiDriver, new_mock_csi_driver, Listen, start_on_address, start_mock,
  nexus, close_mock,
}

-- One call of a method, also of those of the embedded driver; a Close that panics is no step.
pub data Step : MockCsiDriver → MockCsiDriver → Type 0 where
  started :
      (listen : Listen) (network address : String) (m : MockCsiDriver)
      → Step m (start_on_address listen network address m).1
  connected :
      (listen : Listen) (dial : String → Dialled) (m : MockCsiDriver)
      → Step m (nexus listen dial m).1
  closed : (m n : MockCsiDriver) → close_mock m ≡ some n → Step m n
  stopped : (m : MockCsiDriver) → Step m (record m { driver = stop m.driver })
  creds_set : (m : MockCsiDriver) → Step m (record m { driver = set_creds m.driver })

pub data Steps : MockCsiDriver → MockCsiDriver → Type 0 where
  stay : (m : MockCsiDriver) → Steps m m
  step : (a b c : MockCsiDriver) → Steps a b → Step b c → Steps a c

-- The actions of a Start that registers all three services.
abbrev pub serving : String → List Action
serving l =
    new_server
    ∷ register_controller
    ∷ register_identity
    ∷ register_node
    ∷ register_reflection
    ∷ serve l
    ∷ []

-- What every method keeps: three services, and a server wherever there is a connection.
record Sound (m : MockCsiDriver) : Type 0 where
  services :
      registrations m.driver.servers ≡ register_controller ∷ register_identity ∷ register_node ∷ []
  has_server : is_some m.conn ≡ true → is_some m.driver.server ≡ true

start-Sound :
    (listen : Listen) (network address : String) (m : MockCsiDriver)
    → Sound m
    → Sound (start_on_address listen network address m).1
unfolding start_on_address start
start-Sound listen network address m h = ground (arith, h)

step-Sound : (m n : MockCsiDriver) → Step m n → Sound m → Sound n
unfolding nexus start_mock start_on_address close_mock start stop close set_creds
step-Sound _ _ (started listen network address m) h = start-Sound listen network address m h
step-Sound _ _ (connected listen dial m) h = ground (arith, h)
step-Sound _ _ (closed m n p) h = ground (arith, h, p)
step-Sound _ _ (stopped m) h = ground (arith, h)
step-Sound _ _ (creds_set m) h = ground (arith, h)

Steps-Sound : (a b : MockCsiDriver) → Steps a b → Sound a → Sound b
Steps-Sound _ _ (stay m) h = h
Steps-Sound _ _ (step a b c past now) h = step-Sound b c now (Steps-Sound a b past h)

new-Sound : (servers : MockCsiDriverServers) → Sound (new_mock_csi_driver servers)
unfolding new_mock_csi_driver new_csi_driver
new-Sound servers = record { services = refl; has_server = λ h. ground (arith, h) }

module _ (servers : MockCsiDriverServers) (m : MockCsiDriver)
    (path : Steps (new_mock_csi_driver servers) m) where
  reachable-Sound : Sound m
  reachable-Sound = Steps-Sound (new_mock_csi_driver servers) m path (new-Sound servers)

  start-actions : (l : String) → (start l m.driver).actions ≡ m.driver.actions ++ serving l
  unfolding start
  start-actions l = rw (reachable-Sound.services) (
      append_assoc m.driver.actions
        (new_server ∷ register_controller ∷ register_identity ∷ register_node ∷ [])
        (register_reflection ∷ serve l ∷ []))

  -- If the listener opens at `l` and the connection to `l` is ready, Nexus returns without an error,
  -- and a Close after it closes that connection and stops the server: the driver has made a server
  -- with all three services, whatever services it was given, has served `l`, and has stopped.
  pub close_mock-nexus :
      (listen : Listen) (dial : String → Dialled) (l : String)
      → listen "tcp" "127.0.0.1:0" ≡ some l
      → dial l ≡ ready
      → let n = (nexus listen dial m).1 in
        ((nexus listen dial m).0 ≡ none)
        × (n.conn ≡ some l)
        × ((c : MockCsiDriver) × (close_mock n ≡ some c)
            × (c.driver.actions ≡ m.driver.actions ++ serving l ++ stop_server ∷ [])
            × (c.closed ≡ l ∷ m.closed))
  unfolding nexus start_mock start_on_address close_mock start close
  close_mock-nexus listen dial l p q =
      let d = start l m.driver in
      let stopped_driver = record d { actions = d.actions ++ stop_server ∷ [] } in
      (
        ground (arith, p, q),
        ground (arith, p, q),
        (
          record m { driver = stopped_driver; conn = some l; closed = l ∷ m.closed },
          ground (arith, p, q),
          ap (λ actions. actions ++ stop_server ∷ []) (start-actions l),
          refl,
        ),
      )

  -- If the listener opens at `l` and the connection to `l` is not ready, Nexus returns an error and
  -- leaves the server running that it has started.
  pub is_running-nexus :
      (listen : Listen) (dial : String → Dialled) (l : String)
      → listen "tcp" "127.0.0.1:0" ≡ some l
      → dial l ≢ ready
      → let n = (nexus listen dial m).1 in
        (is_some (nexus listen dial m).0 ≡ true)
        × (is_running n.driver ≡ true)
        × (n.driver.actions ≡ m.driver.actions ++ serving l)
  unfolding nexus start_mock start_on_address start is_running
  is_running-nexus listen dial l p q =
      let n = (nexus listen dial m).1 in
      let acted : n.driver.actions ≡ (start l m.driver).actions = ground (arith, p, q) in
      (ground (arith, p, q), ground (arith, p, q), acted ∙ start-actions l)
