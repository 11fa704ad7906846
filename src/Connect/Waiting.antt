-- ===== src/Connect/Waiting.antt =====
-- Connect returns, and with what.
use csi_test.Prelude.{
  inl, inr, Option-cases, ℕ, zero, suc, ◌+◌, ◌<◌, String, Bool, true, false, ◌||◌, ◌≡◌, List,
  Option, none, some, eqb, arith, if◌then◌else◌,
}
use csi_test.Connect.Connectivity
use csi_test.Connect.{
  Url, DialOption, ClientConn, ready, timed_out, refused, dial_options, wait_ready, connect,
}

-- Whether WaitForStateChange returns true in the n-th round.
abbrev pub changes : ClientConn → ℕ → Bool
changes conn n = conn.wait_for_state_change n (conn.state_before n)

-- The context is done in the round `last`: WaitForStateChange returns true before, and false then, as
-- grpc documents it for a context with a timeout.
pub record Expires (conn : ClientConn) (last : ℕ) : Type 0 where
  pub before : (n : ℕ) → n < last → changes conn n ≡ true
  pub then_done : changes conn last ≡ false

-- The connection is ready at the end of one of `count` rounds from `n` on.
unfoldable pub seen_ready : ClientConn → ℕ → ℕ → Bool
seen_ready conn n zero = false
seen_ready conn n (suc count) =
    eqb (conn.state_after n) Connectivity.ready || seen_ready conn (suc n) count

-- The loop from the round `n` on, `count` rounds before the last one.
wait-outcome :
    (conn : ClientConn) (last n count fuel : ℕ)
    → Expires conn last
    → n + count ≡ last
    → count < fuel
    → wait_ready conn n fuel ≡ some (if seen_ready conn n count then ready else timed_out)
unfolding wait_ready seen_ready
wait-outcome conn last n count zero ex at enough = absurd (omega (arith, enough))
wait-outcome conn last n zero (suc fuel) ex at enough =
    let here : n ≡ last = omega (arith, at) in ground (arith, here, ex.then_done)
wait-outcome conn last n (suc count) (suc fuel) ex at enough = ground (
  arith,
  at,
  ex.before n (omega (arith, at)),
  wait-outcome conn last (suc n) count fuel ex (omega (arith, at)) (omega (arith, enough)),
)

-- Whatever the fuel is beyond the round in which the context is done, Connect returns: an error where
-- grpc.Dial fails, and otherwise a connection, which is ready exactly if it has been seen ready at the
-- end of a round before that one, and comes with the error of a timeout if not.
pub connect-outcome :
    (parse : String → Option Url) (dial : String → List DialOption → Option ClientConn)
    (address : String) (options : List DialOption) (last fuel : ℕ)
    → ((conn : ClientConn)
        → dial address (dial_options (parse address) options) ≡ some conn
        → Expires conn last)
    → last < fuel
    → connect parse dial fuel address options
      ≡ (elim (dial address (dial_options (parse address) options)) [
        | none ↦ some refused
        | some conn ↦ some (if seen_ready conn 0 last then ready else timed_out)
      ])
unfolding connect
connect-outcome parse dial address options last fuel ex enough =
    elim (Option-cases (dial address (dial_options (parse address) options))) [
      | inl p ↦ ground (arith, p)
      | inr (conn, p) ↦
          ground (arith, p, wait-outcome conn last 0 last fuel (ex conn p) (omega arith) enough)
    ]
