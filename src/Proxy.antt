-- ===== src/Proxy.antt =====
-- internal/proxy/proxy.go: accept, and the loop of Run that joins the connections of two endpoints. What
-- comes in at a listener is a list of the results of its Accept, the first one first; log output is
-- left out. Run and Close are in Proxy/Run.
pub mod Pairing
pub mod Run
use csi_test.Prelude.{ℕ, zero, suc, Bool, true, false, List, [], ◌∷◌, length}

-- A connection by its number, or an error, with whether the context is done by then.
pub data Incoming : Type 0 where
  connects : ℕ → Incoming
  fails : Bool → Incoming

-- A connection with what comes in after it, nil, or no result yet.
pub data Accepted : Type 0 where
  got : ℕ → List Incoming → Accepted
  shut_down blocked : Accepted

unfoldable pub accept : List Incoming → Accepted
accept [] = blocked
accept (connects c ∷ s) = got c s
accept (fails true ∷ s) = shut_down
accept (fails false ∷ s) = accept s

-- What the loop starts or does: go copy(from, to, …), or conn1.Close().
pub data Action : Type 0 where
  copy : ℕ → ℕ → Action
  close_connection : ℕ → Action

-- A round once there is a connection of the first endpoint, by what the second one accepts; `next` is
-- the rest of the loop.
abbrev pub after_second : ℕ → (List Incoming → List Action) → Accepted → List Action
after_second conn1 next shut_down = close_connection conn1 ∷ []
after_second conn1 next blocked = []
after_second conn1 next (got conn2 rest2) = copy conn1 conn2 ∷ copy conn2 conn1 ∷ next rest2

-- A round, by what the first endpoint accepts.
unfoldable pub after_first :
    (List Incoming → List Incoming → List Action) → Accepted → List Incoming → List Action
unfolding accept
after_first loop shut_down s2 = []
after_first loop blocked s2 = []
after_first loop (got conn1 rest1) s2 = after_second conn1 (loop rest1) (accept s2)

-- The loop of Run, with `fuel` rounds at most.
unfoldable pub serve_fuel : ℕ → List Incoming → List Incoming → List Action
unfolding after_first accept
serve_fuel zero s1 s2 = []
serve_fuel (suc fuel) s1 s2 = after_first (serve_fuel fuel) (accept s1) s2

-- Each round but the last takes something of what comes in at the first endpoint.
unfoldable pub serve : List Incoming → List Incoming → List Action
unfolding serve_fuel
serve s1 s2 = serve_fuel (suc (length s1)) s1 s2
