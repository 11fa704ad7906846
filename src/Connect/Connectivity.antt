-- ===== src/Connect/Connectivity.antt =====
-- The states of a connection, as google.golang.org/grpc/connectivity numbers them.
use csi_test.Prelude.{ℕ}

abbrev pub idle : ℕ
idle = 0

abbrev pub connecting : ℕ
connecting = 1

abbrev pub ready : ℕ
ready = 2

abbrev pub transient_failure : ℕ
transient_failure = 3
