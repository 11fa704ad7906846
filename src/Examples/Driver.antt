-- ===== src/Examples/Driver.antt =====
-- The mock driver's interceptor and life cycle.
use csi_test.Prelude.{◌≡◌, true, [], ◌∷◌, none, some, is_some, if◌then◌else◌}
use csi_test.Csi.Status.{Reply}
use csi_test.Csi.Client.{Empty}
use csi_test.Driver.Auth.{Request, delete_volume_request, default_creds, call_interceptor}
use csi_test.Driver.Auth.Access.{may_pass, refusal, call_interceptor-eq}
use csi_test.Driver.Server.{
  Backend, csi_driver_node, CsiDriver, new_csi_driver, start, stop, close, is_running, set_creds,
}
use csi_test.Driver.Server.Reachable.{
  Steps, stay, step, started, stopped, creds_set, reachable-open, started-is_running,
  reachable-close,
}

abbrev handler : Request → Reply Empty
handler req = record { response = some tt; error = none }

abbrev wrong_request : Request
wrong_request =
    delete_volume_request (record { volume_id = "vol-1"; secrets = ("secretKey", "wrong") ∷ [] })

abbrev node_servers : Backend
node_servers = csi_driver_node (record { node = true; identity = true })

abbrev fresh_driver : CsiDriver
fresh_driver = new_csi_driver node_servers

call_interceptor-eq_example : call_interceptor (some default_creds) wrong_request handler ≡ (
    if may_pass (some default_creds) wrong_request
    then handler wrong_request
    else record { response = none; error = some (refusal wrong_request) })
call_interceptor-eq_example = call_interceptor-eq (some default_creds) wrong_request handler

-- SetDefaultCreds, then Start.
abbrev with_creds : CsiDriver
with_creds = start "/tmp/csi.sock" (set_creds fresh_driver)

with_creds-Steps : Steps fresh_driver with_creds
with_creds-Steps =
    step fresh_driver (set_creds fresh_driver) with_creds
      (step fresh_driver fresh_driver (set_creds fresh_driver) (stay fresh_driver)
        (creds_set fresh_driver))
      (started "/tmp/csi.sock" (set_creds fresh_driver))

reachable-open_example :
    call_interceptor with_creds.creds wrong_request handler ≡ handler wrong_request
reachable-open_example =
    reachable-open node_servers with_creds with_creds-Steps wrong_request handler

reachable-close_example : is_some (close with_creds) ≡ is_running with_creds
reachable-close_example = reachable-close node_servers with_creds with_creds-Steps

started-is_running_example : is_running (stop (start "/tmp/csi.sock" fresh_driver)) ≡ true
started-is_running_example =
    started-is_running "/tmp/csi.sock" fresh_driver (stop (start "/tmp/csi.sock" fresh_driver)) (
      step (start "/tmp/csi.sock" fresh_driver) (start "/tmp/csi.sock" fresh_driver)
        (stop (start "/tmp/csi.sock" fresh_driver)) (stay (start "/tmp/csi.sock" fresh_driver))
        (stopped (start "/tmp/csi.sock" fresh_driver)))
