-- ===== src/Driver/Server.antt =====
-- driver/driver.go, driver-node.go and driver-controller.go: Start, Stop, Close, IsRunning and
-- SetDefaultCreds of the three kinds of driver. What the driver has its gRPC servers do is a list of
-- actions, in order. `lock` makes Start and Stop single steps.
pub mod Reachable
use csi_test.Prelude.{
  ℕ, suc, String, Bool, true, false, List, [], ◌∷◌, ◌++◌, Option, none, some, if◌then◌else◌,
}
use csi_test.Driver.Auth.{CsiCreds, set_default_creds}

-- Which services the driver has, by whether the field of CSIDriverServers is not nil.
pub record CsiDriverServers : Type 0 where
  pub controller : Bool
  pub identity : Bool
  pub node : Bool

-- driver/driver-node.go: the services of CSIDriverNode.
pub record CsiDriverNodeServer : Type 0 where
  pub node : Bool
  pub identity : Bool

-- driver/driver-controller.go: the services of CSIDriverController.
pub record CsiDriverControllerServer : Type 0 where
  pub controller : Bool
  pub identity : Bool

-- The three kinds of driver; their methods differ in what Start registers.
pub data Backend : Type 0 where
  csi_driver : CsiDriverServers → Backend
  csi_driver_node : CsiDriverNodeServer → Backend
  csi_driver_controller : CsiDriverControllerServer → Backend

pub data Action : Type 0 where
  new_server register_controller register_identity register_node register_reflection : Action
  serve : String → Action
  stop_server : Action

-- `listener` is the address listened on; `server` is none for a nil pointer, and otherwise the
-- number of the server among those made. `actions` has the oldest first.
pub record CsiDriver : Type 0 where
  pub listener : Option String
  pub server : Option ℕ
  pub servers : Backend
  pub running : Bool
  pub creds : Option CsiCreds
  pub actions : List Action

unfoldable pub new_csi_driver : Backend → CsiDriver
new_csi_driver servers = record {
  listener = none;
  server = none;
  servers = servers;
  running = false;
  creds = none;
  actions = [];
}

abbrev pub action_if : Bool → Action → List Action
action_if test action = if test then action ∷ [] else []

abbrev pub next_server : Option ℕ → ℕ
next_server none = 0
next_server (some n) = suc n

abbrev pub node_registrations : CsiDriverNodeServer → List Action
node_registrations s = action_if s.node register_node ++ action_if s.identity register_identity

abbrev pub controller_registrations : CsiDriverControllerServer → List Action
controller_registrations s =
    action_if s.controller register_controller ++ action_if s.identity register_identity

abbrev pub registrations : Backend → List Action
registrations (csi_driver s) =
    action_if s.controller register_controller
    ++ action_if s.identity register_identity
    ++ action_if s.node register_node
registrations (csi_driver_node s) = node_registrations s
registrations (csi_driver_controller s) = controller_registrations s

-- Start(l); its error is always nil. The goroutine of goServe serves once it has sent on `started`.
unfoldable pub start : String → CsiDriver → CsiDriver
start l c = record c {
  listener = some l;
  server = some (next_server c.server);
  running = true;
  actions = c.actions ++ new_server ∷ registrations c.servers ++ register_reflection ∷ serve l ∷ [];
}

-- Stop(). The source passes `running` by value and never sets it to false.
unfoldable pub stop : CsiDriver → CsiDriver
stop c = if c.running then record c { actions = c.actions ++ stop_server ∷ [] } else c

-- Close(), which panics on a nil server: the result is none then.
unfoldable pub close : CsiDriver → Option CsiDriver
close c = elim c.server [
  | none ↦ none
  | some n ↦ some (record c { actions = c.actions ++ stop_server ∷ [] })
]

unfoldable pub is_running : CsiDriver → Bool
is_running c = c.running

-- c.SetDefaultCreds()
unfoldable pub set_creds : CsiDriver → CsiDriver
unfolding set_default_creds
set_creds c = record c { creds = set_default_creds c.creds }
