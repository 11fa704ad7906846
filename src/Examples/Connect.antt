-- ===== src/Examples/Connect.antt =====
-- A connection that becomes ready in its second round, and one that does not.
use mathlib.Core.Path.{subst}
use csi_test.Prelude.{ap, Option, ◌≡◌, refl, [], none, some, arith, eqb, ltb, if◌then◌else◌}
use csi_test.Connect.Connectivity
use csi_test.Connect.{ClientConn, ready, connect}
use csi_test.Connect.Waiting.{Expires, seen_ready, connect-outcome}

-- The context of this connection is done in the sixth round.
abbrev slow_conn : ClientConn
slow_conn = record {
  state_before = λ n. Connectivity.connecting;
  wait_for_state_change = λ n state. ltb n 5;
  state_after = λ n. if eqb n 1 then Connectivity.ready else Connectivity.connecting;
}

slow_conn-Expires : Expires slow_conn 5
slow_conn-Expires = record { before = λ n less. ground (arith, less); then_done = refl }

abbrev conn_or_slow : Option ClientConn → ClientConn
conn_or_slow none = slow_conn
conn_or_slow (some conn) = conn

connect-outcome_example :
    connect (λ address. none) (λ address options. some slow_conn) 6 "driver" [] ≡ some ready
unfolding seen_ready
connect-outcome_example =
    connect-outcome (λ address. none) (λ address options. some slow_conn) "driver" [] 5 6
      (λ conn h. subst (λ c. Expires c 5) (ap conn_or_slow h) slow_conn-Expires) (omega arith)
