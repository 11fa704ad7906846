-- ===== src/Setup/Connections/Reuse.antt =====
-- Which connections Setup uses: the reuse of those that fit, and one that is closed already.
use csi_test.Prelude.{
  ℕ, ◌<◌, String, true, false, ◌≡◌, List, [], ◌∷◌, Option, none, some, length, eqb, is_some, arith,
  ◌==◌, eq_iff, eq_refl, if◌then◌else◌,
}
use csi_test.Connect.{ready, timed_out}
use csi_test.Setup.Connections.{
  Dialler, Connections, no_connections, connect_node, connect_controller, connect,
}

-- A Setup that has connected opens and closes nothing when it runs again with the same addresses: the
-- context stays as it is.
pub connect-again :
    (dial : Dialler) (address controller_address : String) (c : Connections)
    → (connect dial address controller_address c).0 ≡ true
    → let c1 = (connect dial address controller_address c).1 in
      connect dial address controller_address c1 ≡ (true, c1)
unfolding connect connect_node connect_controller
connect-again dial address controller_address c ok = ground (
  arith,
  ok,
  eq_refl address,
  eq_refl controller_address,
  eq_iff c.conn_address address,
  eq_iff c.controller_conn_address controller_address,
)

-- A context whose tests first use one address for everything, and then another one while the
-- controller gets the first: the controller's connection is the one that Setup has just closed.
pub controller_conn-closed :
    (dial : Dialler) (old new : String)
    → dial.node old ≡ ready
    → dial.node new ≡ ready
    → (old == new) ≡ false
    → (old == "") ≡ false
    → let c1 = (connect dial old "" no_connections).1 in
      let c2 = (connect dial new old c1).1 in
      ((connect dial new old c1).0 ≡ true) × (c2.controller_conn ≡ some 0) × (c2.closed ≡ 0 ∷ [])
unfolding connect connect_node connect_controller
controller_conn-closed dial old new ao an diff nonempty =
    ground (arith, ao, an, diff, nonempty, eq_refl old, eq_refl "")

-- The address of a connection.
unfoldable pub address_at : ℕ → List String → Option String
address_at n [] = none
address_at n (address ∷ older) =
    let rest = address_at n older in if eqb n (length older) then some address else rest

address_at-lt :
    (n : ℕ) (a : String) (opened : List String) → address_at n opened ≡ some a → n < length opened
unfolding address_at
address_at-lt n a [] h = ground (arith, h)
address_at-lt n a (x ∷ older) h = ground (arith, h, address_at-lt n a older)

address_at-cons :
    (n : ℕ) (a x : String) (opened : List String)
    → address_at n opened ≡ some a
    → address_at n (x ∷ opened) ≡ some a
unfolding address_at
address_at-cons n a x opened h = ground (arith, h, address_at-lt n a opened h)

-- The connections are to the addresses that the context remembers for them.
pub record Wired (c : Connections) : Type 0 where
  pub node : (n : ℕ) → c.conn ≡ some n → address_at n c.opened ≡ some c.conn_address
  pub controller :
      (n : ℕ) → c.controller_conn ≡ some n → address_at n c.opened ≡ some c.controller_conn_address

connect_node-Wired :
    (dial : Dialler) (address : String) (c : Connections)
    → (connect_node dial address c).0 ≡ true
    → Wired c
    → Wired (connect_node dial address c).1
unfolding connect_node address_at
connect_node-Wired dial address c ok w = record {
  node = λ n h. ground (arith, ok, h, w.node n, address_at-cons n c.conn_address address c.opened);
  controller = λ n h.
      ground (
        arith,
        ok,
        h,
        w.controller n,
        address_at-cons n c.controller_conn_address address c.opened,
      );
}

connect_controller-Wired :
    (dial : Dialler) (address controller_address : String) (c : Connections)
    → (connect_controller dial address controller_address c).0 ≡ true
    → c.conn_address ≡ address
    → Wired c
    → Wired (connect_controller dial address controller_address c).1
unfolding connect_controller address_at
connect_controller-Wired dial address controller_address c ok same w = record {
  node = λ n h.
      ground (arith, ok, h, w.node n, address_at-cons n c.conn_address controller_address c.opened);
  controller = λ n h. ground (
    arith,
    ok,
    h,
    same,
    w.node n,
    w.controller n,
    address_at-cons n c.controller_conn_address controller_address c.opened,
  );
}

connect_node-address :
    (dial : Dialler) (address : String) (c : Connections)
    → (connect_node dial address c).0 ≡ true
    → ((connect_node dial address c).1.conn_address ≡ address)
      × (is_some (connect_node dial address c).1.conn ≡ true)
unfolding connect_node
connect_node-address dial address c ok = ground (arith, ok, eq_iff c.conn_address address)

connect_controller-conn :
    (dial : Dialler) (address controller_address : String) (c : Connections)
    → let d = (connect_controller dial address controller_address c).1 in
      (d.conn_address ≡ c.conn_address) × (d.conn ≡ c.conn)
unfolding connect_controller
connect_controller-conn dial address controller_address c = ground arith

-- The two parts of a connect that succeeds.
connect-parts :
    (dial : Dialler) (address controller_address : String) (c : Connections)
    → (connect dial address controller_address c).0 ≡ true
    → let c1 = (connect_node dial address c).1 in
      ((connect_node dial address c).0 ≡ true)
      × ((connect_controller dial address controller_address c1).0 ≡ true)
      × ((connect dial address controller_address c).1
          ≡ (connect_controller dial address controller_address c1).1)
unfolding connect
connect-parts dial address controller_address c ok = ground (arith, ok)

-- A Setup that succeeds keeps every connection one to the address that is remembered for it; there is
-- a connection then, and the remembered address is the configured one.
pub connect-Wired :
    (dial : Dialler) (address controller_address : String) (c : Connections)
    → Wired c
    → (connect dial address controller_address c).0 ≡ true
    → let d = (connect dial address controller_address c).1 in
      Wired d × (d.conn_address ≡ address) × (is_some d.conn ≡ true)
connect-Wired dial address controller_address c w ok =
    let c1 = (connect_node dial address c).1 in
    let (ok1, ok2, ends) = connect-parts dial address controller_address c ok in
    let (same, there) = connect_node-address dial address c ok1 in
    let wired1 = connect_node-Wired dial address c ok1 w in
    let kept = connect_controller-conn dial address controller_address c1 in
    (
      rw (ends) (connect_controller-Wired dial address controller_address c1 ok2 same wired1),
      ground (arith, ends, kept, same),
      ground (arith, ends, kept, there),
    )

-- A timeout leaves the new connection under the old address: if a driver at `old` is ready and one at
-- `new` times out, then a test with `old`, one with `new` that fails, and another one with `old` end
-- with a Setup that succeeds and takes the connection to `new` for one to `old`.
pub timed_out-misleads :
    (dial : Dialler) (old new : String)
    → dial.node old ≡ ready
    → dial.node new ≡ timed_out
    → (old == new) ≡ false
    → (old == "") ≡ false
    → let c1 = (connect dial old "" no_connections).1 in
      let c2 = (connect dial new "" c1).1 in
      let c3 = (connect dial old "" c2).1 in
      ((connect dial old "" c2).0 ≡ true)
      × (c3.conn_address ≡ old)
      × (c3.conn ≡ some 1)
      × (address_at 1 c3.opened ≡ some new)
unfolding connect connect_node connect_controller address_at
timed_out-misleads dial old new ao an diff nonempty =
    ground (arith, ao, an, diff, nonempty, eq_refl old, eq_refl "")
