-- ===== src/Controller/Verdicts.antt =====
-- What a driver has to reply for a spec of controller.go to pass.
pub mod Creation
use csi_test.Prelude.{
  ℕ, Bool, true, ◌&&◌, refl, ◌≡◌, List, Option, none, some, is_some, eqb, arith, if◌then◌else◌,
}
use csi_test.Csi.Status.{GoError, Code, status_code, from_error_ok, invalid_argument}
use csi_test.Csi.Messages.{
  CreateVolumeRequest, zero_create_volume, ControllerExpandVolumeRequest, DeleteVolumeRequest,
}
use csi_test.Csi.Client.{Event, on_controller_capabilities}
use csi_test.Csi.ControllerCapability
use csi_test.Config.{CsiSecrets}
use csi_test.Spec.{Env, State, done, failed, skipped, ◌>>=◌}
use csi_test.Rpc
use csi_test.Rpc.Keeps.{add_event}
use csi_test.Requests.{secret}
use csi_test.Capability.Queries.{
  has_rpc, is_controller_answer, controller_list, is_controller_capability_supported-eq-done,
}
use csi_test.Resources.{create_volume, delete_volume}
use csi_test.Assert.{expect_status, requires}
use csi_test.Controller.Create.{create_fails_without_name}
use csi_test.Controller.Delete.{delete_fails_without_id}
use csi_test.Controller.Expand.{expand_fails_without_range}

-- The error that `expect_status` accepts.
abbrev pub is_status_error : Code → Option GoError → Bool
is_status_error code err = is_some err && from_error_ok err && eqb (status_code err) code

-- The driver answers the query of the controller's capabilities, always with the same truth about
-- `t`, and the context has secrets.
pub record Answers (t : ℕ) (offered : Bool) (e : Env) : Type 0 where
  pub secrets : CsiSecrets
  pub has_secrets : e.sc.secrets ≡ some secrets
  pub answers :
      (history : List Event)
      → is_controller_answer (e.client.controller_capabilities history) ≡ true
  pub offers :
      (history : List Event)
      → has_rpc t (controller_list (e.client.controller_capabilities history).response) ≡ offered

-- The state after the query.
abbrev pub asked : Env → State → State
asked e s = add_event (on_controller_capabilities (e.client.controller_capabilities s.history)) s

-- The guard of a spec skips it exactly if the driver does not report the capability.
pub requires-eq :
    (t : ℕ) (offered : Bool) (e : Env) (s : State)
    → Answers t offered e
    → requires t e s ≡ ((if offered then done tt else skipped), asked e s)
unfolding requires ◌>>=◌
requires-eq t offered e s a = ground (
  arith,
  a.offers s.history,
  is_controller_capability_supported-eq-done t e s (a.answers s.history),
)

-- The request of "should fail when no name is provided".
abbrev pub nameless_request : Env → CsiSecrets → CreateVolumeRequest
nameless_request e secrets = record zero_create_volume {
  secrets = secrets.create_volume_secret;
  parameters = e.sc.config.test_volume_parameters;
}

-- "should fail when no name is provided" passes exactly if the driver replies to the request without
-- a name with a status error InvalidArgument.
pub create_fails_without_name-eq :
    (e : Env) (s : State) (a : Answers ControllerCapability.create_delete_volume true e)
    → (create_fails_without_name e s).0 ≡ (
        let r = e.client.create_volume (asked e s).history (nameless_request e a.secrets) in
        if is_status_error invalid_argument r.error then done tt else failed)
unfolding create_fails_without_name create_volume Rpc.create_volume secret expect_status ◌>>=◌
create_fails_without_name-eq e s a =
    ground (arith, a.has_secrets, requires-eq ControllerCapability.create_delete_volume true e s a)

-- "should fail when no volume id is provided" of DeleteVolume passes exactly if the driver replies to
-- the empty volume ID with a status error InvalidArgument; a reply without an error fails it too.
pub delete_fails_without_id-eq :
    (e : Env) (s : State) (a : Answers ControllerCapability.create_delete_volume true e)
    → (delete_fails_without_id e s).0 ≡ (
        let req : DeleteVolumeRequest = record {
          volume_id = "";
          secrets = a.secrets.delete_volume_secret;
        } in
        let r = e.client.delete_volume (asked e s).history req in
        if is_status_error invalid_argument r.error then done tt else failed)
unfolding delete_fails_without_id delete_volume Rpc.delete_volume secret expect_status ◌>>=◌
delete_fails_without_id-eq e s a =
    ground (arith, a.has_secrets, requires-eq ControllerCapability.create_delete_volume true e s a)

-- A driver that looks at nothing but the volume ID of an expansion: it refuses an empty one, with
-- InvalidArgument and without a response, and pays no heed to the range.
pub record ChecksOnlyId (e : Env) : Type 0 where
  pub refuses :
      (history : List Event) (req : ControllerExpandVolumeRequest)
      → req.volume_id ≡ ""
      → e.client.controller_expand history req ≡ record {
        response = none;
        error = some (record { code = invalid_argument; is_status = true });
      }

-- "should fail if no capacity range is given" passes with every driver that checks the volume ID,
-- also if that driver never looks at the capacity range, since the request has no volume ID.
pub expand_fails_without_range-blind :
    (e : Env) (s : State)
    → Answers ControllerCapability.expand_volume true e
    → ChecksOnlyId e
    → (expand_fails_without_range e s).0 ≡ done tt
unfolding expand_fails_without_range Rpc.controller_expand secret expect_status ◌>>=◌
expand_fails_without_range-blind e s a blind =
    let req : ControllerExpandVolumeRequest = record {
      volume_id = "";
      capacity_range = none;
      secrets = a.secrets.controller_expand_volume_secret;
      volume_capability = none;
    } in
    ground (
      arith,
      a.has_secrets,
      requires-eq ControllerCapability.expand_volume true e s a,
      blind.refuses (asked e s).history req refl,
    )
