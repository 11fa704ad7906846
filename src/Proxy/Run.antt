-- ===== src/Proxy/Run.antt =====
-- internal/proxy/proxy.go: what Run opens before its loop, and Close. The answers of the host may differ
-- between the two calls of Listen.
pub mod Balance
use csi_test.Prelude.{ℕ, Bool, true, List, [], ◌∷◌, ◌++◌, map, Option, none, some, if◌then◌else◌}
use csi_test.Endpoint.{
  Network, Listener, CleanUp, nil_function, no_operation, remove_socket, ListenError, Listened,
  listen,
}
use csi_test.Endpoint as Endpoint

-- What Run and Close do, in order: what Listen does, `cancel()` of the context, the start of the loop,
-- the closing of a listener, and the removal of a socket by a clean-up.
pub data Effect : Type 0 where
  of_listen : Endpoint.Effect → Effect
  cancels starts_loop : Effect
  closes : Listener → Effect
  cleans_up : List ℕ → Effect

pub record Proxy : Type 0 where
  pub has_cancel : Bool
  pub s1 : Option Listener
  pub s2 : Option Listener
  pub cleanup1 : CleanUp
  pub cleanup2 : CleanUp

abbrev pub close_listener : Option Listener → List Effect
close_listener none = []
close_listener (some l) = closes l ∷ []

abbrev pub run_clean_up : CleanUp → List Effect
run_clean_up nil_function = []
run_clean_up no_operation = []
run_clean_up (remove_socket path) = cleans_up path ∷ []

-- Close(), which returns nil always.
unfoldable pub close : Proxy → List Effect
close p =
    (if p.has_cancel then cancels ∷ [] else [])
    ++ close_listener p.s1
    ++ close_listener p.s2
    ++ run_clean_up p.cleanup1
    ++ run_clean_up p.cleanup2

-- The proxy or the error that Run returns, and what it does.
pub record Started : Type 0 where
  pub proxy : Option Proxy
  pub err : Option ListenError
  pub effects : List Effect

-- A Run that returns an error: the deferred function closes the proxy.
abbrev pub fail_run : Proxy → ListenError → List Effect → Started
fail_run p err effects = record { proxy = none; err = some err; effects = effects ++ close p }

abbrev pub effects_of : Listened → List Effect
effects_of r = map of_listen r.effects

-- Run once both calls of Listen are made.
abbrev pub after_second : Listened → Listened → Started
after_second r1 r2 =
    let p : Proxy = record {
      has_cancel = true;
      s1 = r1.listener;
      s2 = r2.listener;
      cleanup1 = r1.clean_up;
      cleanup2 = r2.clean_up;
    } in
    elim r2.err [
      | none ↦ record {
        proxy = some p;
        err = none;
        effects = effects_of r1 ++ effects_of r2 ++ starts_loop ∷ [];
      }
      | some err ↦ fail_run p err (effects_of r1 ++ effects_of r2)
    ]

-- Run once the first call of Listen is made; `r2` is what the second one comes to, if it is made.
abbrev pub after_first : Listened → Listened → Started
after_first r1 r2 =
    let p : Proxy = record {
      has_cancel = true;
      s1 = r1.listener;
      s2 = none;
      cleanup1 = r1.clean_up;
      cleanup2 = nil_function;
    } in
    elim r1.err [ none ↦ after_second r1 r2 | some err ↦ fail_run p err (effects_of r1) ]

unfoldable pub run : Network → Network → List ℕ → List ℕ → Started
unfolding close listen
run n1 n2 endpoint1 endpoint2 = after_first (listen n1 endpoint1) (listen n2 endpoint2)
