-- ===== src/Setup/Connections/Closing.antt =====
-- Which connections Finalize closes.
use csi_test.Prelude.{
  Each, ap, ◌∙◌, ℕ, ◌<◌, String, Bool, true, false, ◌||◌, ◌≡◌, ◌≢◌, refl, List, [], ◌∷◌, Option,
  none, some, length, eqb, arith, ◌==◌, eq_iff, eq_refl, is_none, Bool-cases, inl, inr,
}
use csi_test.Connect.{ready, timed_out}
use csi_test.Setup.Connections.{
  Dialler, Connections, no_connections, connect_node, connect_controller, connect, finalize,
}

abbrev pub is_in : ℕ → List ℕ → Bool
is_in k [] = false
is_in k (n ∷ ns) = eqb n k || is_in k ns

abbrev is_it : ℕ → Option ℕ → Bool
is_it k none = false
is_it k (some n) = eqb n k

-- Setup runs once for each element of the list, with the same addresses, whatever its outcome is.
unfoldable pub connect_times : List Dialler → String → String → Connections → Connections
connect_times [] address controller_address c = c
connect_times (dial ∷ dials) address controller_address c =
    connect_times dials address controller_address (connect dial address controller_address c).1

-- Every connection opened is closed or in the context. A connection to the controller is one to its
-- address, if it has one, and otherwise one that is closed or that to the node.
record Held (controller_address : String) (c : Connections) : Type 0 where
  held :
      (k : ℕ)
      → k < length c.opened
      → (is_in k c.closed || is_it k c.conn || is_it k c.controller_conn) ≡ true
  current :
      (controller_address == "") ≡ false
      → (is_none c.controller_conn || c.controller_conn_address == controller_address) ≡ true
  shared :
      (controller_address == "") ≡ true
      → (k : ℕ) → is_it k c.controller_conn ≡ true
      → (is_in k c.closed || is_it k c.conn) ≡ true

module _ (dial : Dialler) (address controller_address : String)
    (steady : dial.controller controller_address ≢ timed_out) where
  node-Held :
      (c : Connections)
      → Held controller_address c
      → Held controller_address (connect_node dial address c).1
  unfolding connect_node
  node-Held c h = record {
    held = λ k less. ground (arith, less, h.held k);
    current = λ named. ground (arith, h.current named);
    shared = λ unnamed k it. ground (arith, it, h.shared unnamed k);
  }

  controller-Held :
      (c : Connections)
      → Held controller_address c
      → Held controller_address (connect_controller dial address controller_address c).1
  unfolding connect_controller
  controller-Held c h = record {
    held = λ k less. elim (Bool-cases (controller_address == "")) [
      | inl unnamed ↦ ground (arith, less, h.held k, unnamed, h.shared unnamed k)
      | inr named ↦ ground (arith, less, h.held k, named, h.current named, steady)
    ];
    current = λ named. ground (arith, named, h.current named, eq_refl controller_address);
    shared = λ unnamed k it. ground (arith, it, unnamed, h.shared unnamed k);
  }

  connect-Held :
      (c : Connections)
      → Held controller_address c
      → Held controller_address (connect dial address controller_address c).1
  unfolding connect
  connect-Held c h =
      let c1 = (connect_node dial address c).1 in
      elim (Bool-cases (connect_node dial address c).0) [
        | inl ok ↦ rw (ok) (controller-Held c1 (node-Held c h))
        | inr failed ↦ rw (failed) (node-Held c h)
      ]

-- Dialling the address of the controller does not time out.
abbrev pub Steady : String → Dialler → Type 0
Steady controller_address dial = dial.controller controller_address ≢ timed_out

times-Held :
    (dials : List Dialler) (address controller_address : String) (c : Connections)
    → Each (Steady controller_address) dials
    → Held controller_address c
    → Held controller_address (connect_times dials address controller_address c)
unfolding connect_times
times-Held [] address controller_address c steady h = h
times-Held (dial ∷ dials) address controller_address c (steady, rest) h =
    times-Held dials address controller_address (connect dial address controller_address c).1 rest
      (connect-Held dial address controller_address steady c h)

no_connections-Held : (controller_address : String) → Held controller_address no_connections
no_connections-Held controller_address = record {
  held = λ k less. absurd (omega (arith, less));
  current = λ named. refl;
  shared = λ unnamed k it. ground (arith, it);
}

finalize-Held :
    (controller_address : String) (c : Connections)
    → Held controller_address c
    → (k : ℕ) → k < length c.opened
    → is_in k (finalize c).closed ≡ true
unfolding finalize
finalize-Held controller_address c h k less = ground (arith, h.held k less)

-- Setup runs any number of times with the same addresses, whatever dialling comes to each time, and
-- Finalize after them: every connection that has been opened is closed, if dialling the address of
-- the controller never times out.
pub finalize-connect :
    (dials : List Dialler) (address controller_address : String) (k : ℕ)
    → Each (Steady controller_address) dials
    → let c = connect_times dials address controller_address no_connections in
      k < length c.opened → is_in k (finalize c).closed ≡ true
finalize-connect dials address controller_address k steady less =
    let c = connect_times dials address controller_address no_connections in
    finalize-Held controller_address c
      (times-Held dials address controller_address no_connections steady
        (no_connections-Held controller_address))
      k less

module _ (dial : Dialler) (address controller_address : String) where
  -- The context after a Setup whose dialling of the controller timed out, and after another one.
  abbrev once : Connections
  once = record {
    conn = some 0;
    conn_address = address;
    controller_conn = some 1;
    controller_conn_address = "";
    opened = controller_address ∷ address ∷ [];
    closed = [];
  }

  abbrev twice : Connections
  twice = record once {
    controller_conn = some 2;
    opened = controller_address ∷ controller_address ∷ address ∷ [];
  }

  -- If the node's address is ready and dialling that of the controller times out, a second Setup opens
  -- another connection to the controller and forgets the first one: Finalize does not close that one.
  pub controller_conn-leaked :
      dial.node address ≡ ready
      → dial.controller controller_address ≡ timed_out
      → (controller_address == "") ≡ false
      → let c = connect_times (dial ∷ dial ∷ []) address controller_address no_connections in
        (length c.opened ≡ 3) × (is_in 1 (finalize c).closed ≡ false)
  unfolding connect_times connect connect_node connect_controller finalize
  controller_conn-leaked node controller named =
      let first : connect dial address controller_address no_connections ≡ (false, once) =
        ground (arith, node, controller, named) in
      let second : connect dial address controller_address once ≡ (false, twice) = ground (
        arith,
        node,
        controller,
        named,
        eq_refl address,
        eq_iff controller_address "",
        eq_iff "" controller_address,
      ) in
      let times : connect_times (dial ∷ dial ∷ []) address controller_address no_connections
          ≡ twice =
        ap (λ r. (connect dial address controller_address r.1).1) first ∙ ap (λ r. r.1) second in
      rw (times) (refl, refl)
