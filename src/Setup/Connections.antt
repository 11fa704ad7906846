-- ===== src/Setup/Connections.antt =====
-- pkg/sanity/sanity.go: the connections that Setup opens or reuses and that Finalize closes. A
-- connection is its number among those opened.
pub mod Reuse
pub mod Closing
use csi_test.Prelude.{
  ℕ, String, Bool, true, false, not, ◌||◌, List, [], ◌∷◌, Option, none, some, length, is_none, ◌==◌,
  if◌then◌else◌,
}
use csi_test.Connect.{Dialled, ready, refused}

-- `conn`, `connAddress`, `ControllerConn` and `controllerConnAddress` of TestContext, the addresses of
-- the connections opened so far, the newest first, and the connections closed.
pub record Connections : Type 0 where
  pub conn : Option ℕ
  pub conn_address : String
  pub controller_conn : Option ℕ
  pub controller_conn_address : String
  pub opened : List String
  pub closed : List ℕ

abbrev pub no_connections : Connections
no_connections = record {
  conn = none;
  conn_address = "";
  controller_conn = none;
  controller_conn_address = "";
  opened = [];
  closed = [];
}

-- sc.Conn != nil { sc.Conn.Close() }
abbrev pub close_if : Option ℕ → List ℕ → List ℕ
close_if none closed = closed
close_if (some n) closed = n ∷ closed

-- utils.Connect with the dial options of the configuration, which the controller has its own of.
pub record Dialler : Type 0 where
  pub node : String → Dialled
  pub controller : String → Dialled

abbrev pub is_ready : Dialled → Bool
is_ready ready = true
is_ready _ = false

abbrev pub has_connection : Dialled → Bool
has_connection refused = false
has_connection _ = true

abbrev pub connection : Dialled → List String → Option ℕ
connection dialled opened = if has_connection dialled then some (length opened) else none

abbrev pub opened_after : Dialled → String → List String → List String
opened_after dialled address opened = if has_connection dialled then address ∷ opened else opened

-- The part of Setup for `Conn`. The first result is false where an assertion fails.
unfoldable pub connect_node : Dialler → String → Connections → Bool × Connections
connect_node dial address c =
    if is_none c.conn || not (c.conn_address == address)
    then (
      is_ready (dial.node address),
      record c {
        conn = connection (dial.node address) c.opened;
        conn_address = if is_ready (dial.node address) then address else c.conn_address;
        opened = opened_after (dial.node address) address c.opened;
        closed = close_if c.conn c.closed;
      },
    )
    else (true, c)

-- The part of Setup for `ControllerConn`.
unfoldable pub connect_controller : Dialler → String → String → Connections → Bool × Connections
connect_controller dial address controller_address c =
    if is_none c.controller_conn || not (c.controller_conn_address == controller_address)
    then (if controller_address == ""
        then (true, record c { controller_conn = c.conn; controller_conn_address = address })
        else (
          is_ready (dial.controller controller_address),
          record c {
            controller_conn = connection (dial.controller controller_address) c.opened;
            controller_conn_address =
                if is_ready (dial.controller controller_address)
                then controller_address
                else c.controller_conn_address;
            opened = opened_after (dial.controller controller_address) controller_address c.opened;
          },
        ))
    else (true, c)

unfoldable pub connect : Dialler → String → String → Connections → Bool × Connections
unfolding connect_node connect_controller
connect dial address controller_address c =
    let (ok, c1) = connect_node dial address c in
    if ok then connect_controller dial address controller_address c1 else (false, c1)

-- Finalize()
unfoldable pub finalize : Connections → Connections
finalize c = record c { closed = close_if c.controller_conn (close_if c.conn c.closed) }
