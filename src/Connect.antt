-- ===== src/Connect.antt =====
-- utils/grpcutil.go: Connect, which dials an address and waits for the connection to be ready. net/url
-- and grpc are parameters: the parser, the dialler, and what a connection reports in each round of
-- the loop.
pub mod Connectivity
pub mod Waiting
use csi_test.Prelude.{
  ℕ, zero, suc, String, Bool, not, ◌||◌, List, [], ◌∷◌, ◌++◌, Option, none, some, eqb, ◌==◌,
  if◌then◌else◌,
}
use csi_test.Connect.Connectivity

-- What net/url finds in an address.
pub record Url : Type 0 where
  pub is_abs : Bool
  pub scheme : String
  pub path : String

-- grpc.WithDialer with the dialler of the source, which opens the socket at a path, or an option of the
-- caller.
pub data DialOption : Type 0 where
  with_unix_dialer : String → DialOption
  caller_option : ℕ → DialOption

-- What a connection reports in the n-th round: its state when the round begins, whether
-- WaitForStateChange sees it leave a state before the context is done, and its state then.
pub record ClientConn : Type 0 where
  pub state_before : ℕ → ℕ
  pub wait_for_state_change : ℕ → ℕ → Bool
  pub state_after : ℕ → ℕ

-- What Connect comes to: a connection that is ready, one with the error of a timeout, or an error
-- without a connection.
pub data Dialled : Type 0 where
  ready timed_out refused : Dialled

-- u.Scheme == "unix" and an address without a scheme are dialled as sockets.
abbrev pub dial_options : Option Url → List DialOption → List DialOption
dial_options none options = options
dial_options (some u) options =
    if not u.is_abs || u.scheme == "unix" then options ++ with_unix_dialer u.path ∷ [] else options

-- The loop of Connect from its n-th round on; none where the fuel runs out before it returns.
unfoldable pub wait_ready : ClientConn → ℕ → ℕ → Option Dialled
wait_ready conn n zero = none
wait_ready conn n (suc fuel) =
    let rest = wait_ready conn (suc n) fuel in
    if not (conn.wait_for_state_change n (conn.state_before n))
    then some timed_out
    else if eqb (conn.state_after n) Connectivity.ready
    then some ready
    else rest

unfoldable pub connect :
    (String → Option Url)
    → (String → List DialOption → Option ClientConn)
    → ℕ
    → String
    → List DialOption
    → Option Dialled
unfolding wait_ready
connect parse dial fuel address options =
    elim (dial address (dial_options (parse address) options)) [
      | none ↦ some refused
      | some conn ↦ wait_ready conn 0 fuel
    ]
