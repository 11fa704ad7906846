-- ===== src/Driver/Server/Reachable.antt =====
-- The states that a driver can reach by its methods.
use csi_test.Prelude.{String, true, ◌≡◌, refl, none, some, is_some, arith}
use csi_test.Csi.Status.{Reply}
use csi_test.Driver.Auth.{Request, call_interceptor, auth_interceptor, set_default_creds}
use csi_test.Driver.Server.{
  Backend, CsiDriver, new_csi_driver, start, stop, close, is_running, set_creds,
}

-- One call of a method; a Close that panics is no step.
pub data Step : CsiDriver → CsiDriver → Type 0 where
  started : (l : String) (c : CsiDriver) → Step c (start l c)
  stopped : (c : CsiDriver) → Step c (stop c)
  closed : (c d : CsiDriver) → close c ≡ some d → Step c d
  creds_set : (c : CsiDriver) → Step c (set_creds c)

pub data Steps : CsiDriver → CsiDriver → Type 0 where
  stay : (c : CsiDriver) → Steps c c
  step : (b c d : CsiDriver) → Steps b c → Step c d → Steps b d

-- What every method keeps: no credentials, and a server exactly when the driver runs.
record Sound (c : CsiDriver) : Type 0 where
  open_to_all : c.creds ≡ none
  has_server : is_some c.server ≡ c.running

step-Sound : (c d : CsiDriver) → Step c d → Sound c → Sound d
unfolding start stop close set_creds set_default_creds
step-Sound _ _ (started l c) h = record { open_to_all = h.open_to_all; has_server = refl }
step-Sound _ _ (stopped c) h = ground (arith, h)
step-Sound _ _ (closed c d p) h = ground (arith, h, p)
step-Sound _ _ (creds_set c) h = ground (arith, h)

Steps-Sound : (b c : CsiDriver) → Steps b c → Sound b → Sound c
Steps-Sound _ _ (stay c) h = h
Steps-Sound _ _ (step b c d past now) h = step-Sound c d now (Steps-Sound b c past h)

new-Sound : (servers : Backend) → Sound (new_csi_driver servers)
unfolding new_csi_driver
new-Sound servers = record { open_to_all = refl; has_server = refl }

-- Whatever methods are called on a new driver, SetDefaultCreds among them, its interceptor hands every
-- request to its handler.
pub reachable-open :
    {A : Type 0} (servers : Backend) (c : CsiDriver)
    → Steps (new_csi_driver servers) c
    → (req : Request) (handler : Request → Reply A)
    → call_interceptor c.creds req handler ≡ handler req
unfolding call_interceptor auth_interceptor
reachable-open servers c path req handler =
    ground (arith, Steps-Sound (new_csi_driver servers) c path (new-Sound servers))

step-running : (c d : CsiDriver) → Step c d → is_running c ≡ true → is_running d ≡ true
unfolding is_running start stop close set_creds
step-running _ _ (started l c) h = refl
step-running _ _ (stopped c) h = ground (arith, h)
step-running _ _ (closed c d p) h = ground (arith, h, p)
step-running _ _ (creds_set c) h = h

-- Once a driver has been started, IsRunning stays true, whatever methods are called after it, Stop and
-- Close among them.
pub started-is_running : (l : String) (b c : CsiDriver) → Steps (start l b) c → is_running c ≡ true
unfolding is_running start
started-is_running l b c path = stays (start l b) c path refl
  where
    stays : (x y : CsiDriver) → Steps x y → x.running ≡ true → y.running ≡ true
    stays _ _ (stay x) h = h
    stays _ _ (step x y z past now) h = step-running y z now (stays x y past h)

-- A driver that its methods have led to closes without a panic exactly if it has been started.
pub reachable-close :
    (servers : Backend) (c : CsiDriver)
    → Steps (new_csi_driver servers) c
    → is_some (close c) ≡ is_running c
unfolding close is_running
reachable-close servers c path =
    ground (arith, Steps-Sound (new_csi_driver servers) c path (new-Sound servers))
