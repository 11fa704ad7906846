-- ===== src/Examples/Proxy.antt =====
-- The proxy with two endpoints.
use csi_test.Prelude.{ℕ, Bool, true, false, ◌≡◌, List, [], ◌∷◌}
use csi_test.GoText.{codes, codes_eq}
use csi_test.Endpoint.{unix, absent, Network}
use csi_test.Proxy.{connects, fails, copy, close_connection, serve}
use csi_test.Proxy.Pairing.{connections, is_done, joined, serve-joined}
use csi_test.Proxy.Run.{run}
use csi_test.Proxy.Run.Balance.{and_close, opened, closed, has_socket, run-close}

serve-joined_example :
    serve (connects 1 ∷ fails false ∷ connects 2 ∷ []) (connects 3 ∷ fails true ∷ [])
    ≡ copy 1 3 ∷ copy 3 1 ∷ close_connection 2 ∷ []
unfolding connections is_done joined
serve-joined_example =
    serve-joined (connects 1 ∷ fails false ∷ connects 2 ∷ []) (connects 3 ∷ fails true ∷ [])

-- The first endpoint is a socket, and the second one cannot be listened on.
abbrev half_open : List ℕ → List ℕ → Bool
half_open proto addr = codes_eq proto unix

abbrev example_network : Network
example_network = record { remove = λ path. absent; can_listen = half_open }

run-close_example :
    let effects =
      and_close (run example_network example_network (codes "unix://a") (codes "tcp://b")) in
    (opened effects ≡ closed effects) × (has_socket (codes "/a") false effects ≡ false)
run-close_example =
    run-close example_network example_network (codes "unix://a") (codes "tcp://b") (codes "/a")
