-- ===== src/Driver/Auth.antt =====
-- driver/driver.go: isAuthenticated, credsCheck and the interceptors. Logging is in Driver/Log.
pub mod Access
use csi_test.Prelude.{
  String, Bool, true, false, not, Option, none, some, StringMap, get_or_empty, is_empty, ◌==◌,
  if◌then◌else◌,
}
use csi_test.Csi.Status.{GoError, Reply, invalid_argument, unauthenticated}
use csi_test.Csi.Messages.{
  CreateVolumeRequest, DeleteVolumeRequest, ControllerPublishVolumeRequest,
  ControllerUnpublishVolumeRequest, ValidateVolumeCapabilitiesRequest,
}
use csi_test.Csi.Snapshots.{CreateSnapshotRequest, DeleteSnapshotRequest, ListSnapshotsRequest}
use csi_test.Csi.Node.{NodeStageVolumeRequest, NodePublishVolumeRequest}

abbrev pub secret_field : String
secret_field = "secretKey"

pub record CsiCreds : Type 0 where
  pub create_volume_secret : String
  pub delete_volume_secret : String
  pub controller_publish_volume_secret : String
  pub controller_unpublish_volume_secret : String
  pub node_stage_volume_secret : String
  pub node_publish_volume_secret : String
  pub create_snapshot_secret : String
  pub delete_snapshot_secret : String
  pub controller_validate_volume_capabilities_secret : String
  pub list_snapshots_secret : String

-- The values that setDefaultCreds gives to its own parameter.
abbrev pub default_creds : CsiCreds
default_creds = record {
  create_volume_secret = "secretval1";
  delete_volume_secret = "secretval2";
  controller_publish_volume_secret = "secretval3";
  controller_unpublish_volume_secret = "secretval4";
  node_stage_volume_secret = "secretval5";
  node_publish_volume_secret = "secretval6";
  create_snapshot_secret = "secretval7";
  delete_snapshot_secret = "secretval8";
  controller_validate_volume_capabilities_secret = "secretval9";
  list_snapshots_secret = "secretval10";
}

-- ErrNoCredentials and ErrAuthFailed
pub data AuthError : Type 0 where
  no_credentials auth_failed : AuthError

-- The result `(authenticated, err)`.
pub record AuthResult : Type 0 where
  pub authenticated : Bool
  pub err : Option AuthError

-- A request by its type; the types that isAuthenticated does not name are `other_request`.
pub data Request : Type 0 where
  create_volume_request : CreateVolumeRequest → Request
  delete_volume_request : DeleteVolumeRequest → Request
  controller_publish_request : ControllerPublishVolumeRequest → Request
  controller_unpublish_request : ControllerUnpublishVolumeRequest → Request
  node_stage_request : NodeStageVolumeRequest → Request
  node_publish_request : NodePublishVolumeRequest → Request
  create_snapshot_request : CreateSnapshotRequest → Request
  delete_snapshot_request : DeleteSnapshotRequest → Request
  validate_request : ValidateVolumeCapabilitiesRequest → Request
  list_snapshots_request : ListSnapshotsRequest → Request
  other_request : Request

unfoldable pub creds_check : StringMap → String → AuthResult
creds_check secrets secret_val =
    if is_empty secrets
    then record { authenticated = false; err = some no_credentials }
    else if not (get_or_empty secrets secret_field == secret_val)
    then record { authenticated = false; err = some auth_failed }
    else record { authenticated = true; err = none }

abbrev pub authenticate_create_volume : CreateVolumeRequest → CsiCreds → AuthResult
authenticate_create_volume req creds = creds_check req.secrets creds.create_volume_secret

abbrev pub authenticate_delete_volume : DeleteVolumeRequest → CsiCreds → AuthResult
authenticate_delete_volume req creds = creds_check req.secrets creds.delete_volume_secret

abbrev pub authenticate_controller_publish_volume :
    ControllerPublishVolumeRequest → CsiCreds → AuthResult
authenticate_controller_publish_volume req creds =
    creds_check req.secrets creds.controller_publish_volume_secret

abbrev pub authenticate_controller_unpublish_volume :
    ControllerUnpublishVolumeRequest → CsiCreds → AuthResult
authenticate_controller_unpublish_volume req creds =
    creds_check req.secrets creds.controller_unpublish_volume_secret

abbrev pub authenticate_node_stage_volume : NodeStageVolumeRequest → CsiCreds → AuthResult
authenticate_node_stage_volume req creds = creds_check req.secrets creds.node_stage_volume_secret

abbrev pub authenticate_node_publish_volume : NodePublishVolumeRequest → CsiCreds → AuthResult
authenticate_node_publish_volume req creds =
    creds_check req.secrets creds.node_publish_volume_secret

abbrev pub authenticate_create_snapshot : CreateSnapshotRequest → CsiCreds → AuthResult
authenticate_create_snapshot req creds = creds_check req.secrets creds.create_snapshot_secret

abbrev pub authenticate_delete_snapshot : DeleteSnapshotRequest → CsiCreds → AuthResult
authenticate_delete_snapshot req creds = creds_check req.secrets creds.delete_snapshot_secret

abbrev pub authenticate_controller_validate_volume_capabilities :
    ValidateVolumeCapabilitiesRequest → CsiCreds → AuthResult
authenticate_controller_validate_volume_capabilities req creds =
    creds_check req.secrets creds.controller_validate_volume_capabilities_secret

abbrev pub authenticate_list_snapshots : ListSnapshotsRequest → CsiCreds → AuthResult
authenticate_list_snapshots req creds = creds_check req.secrets creds.list_snapshots_secret

unfoldable pub is_authenticated : Request → CsiCreds → AuthResult
unfolding creds_check
is_authenticated (create_volume_request r) creds = authenticate_create_volume r creds
is_authenticated (delete_volume_request r) creds = authenticate_delete_volume r creds
is_authenticated (controller_publish_request r) creds =
    authenticate_controller_publish_volume r creds
is_authenticated (controller_unpublish_request r) creds =
    authenticate_controller_unpublish_volume r creds
is_authenticated (node_stage_request r) creds = authenticate_node_stage_volume r creds
is_authenticated (node_publish_request r) creds = authenticate_node_publish_volume r creds
is_authenticated (create_snapshot_request r) creds = authenticate_create_snapshot r creds
is_authenticated (delete_snapshot_request r) creds = authenticate_delete_snapshot r creds
is_authenticated (validate_request r) creds =
    authenticate_controller_validate_volume_capabilities r creds
is_authenticated (list_snapshots_request r) creds = authenticate_list_snapshots r creds
is_authenticated other_request creds = record { authenticated = true; err = none }

-- The status error for an authentication error; any other error lets the call pass.
abbrev pub auth_status : Option AuthError → Option GoError
auth_status none = none
auth_status (some no_credentials) = some (record { code = invalid_argument; is_status = true })
auth_status (some auth_failed) = some (record { code = unauthenticated; is_status = true })

unfoldable pub auth_interceptor : Option CsiCreds → Request → Option GoError
unfolding is_authenticated
auth_interceptor none req = none
auth_interceptor (some creds) req =
    let r = is_authenticated req creds in if not r.authenticated then auth_status r.err else none

-- `handler` is the handler of the service for the request.
unfoldable pub call_interceptor :
    {A : Type 0} → Option CsiCreds → Request → (handler : Request → Reply A) → Reply A
unfolding auth_interceptor
call_interceptor creds req handler = elim (auth_interceptor creds req) [
  | none ↦ handler req
  | some err ↦ record { response = none; error = some err }
]

-- setDefaultCreds(creds): the assignment to the parameter changes nothing for the caller, so the
-- caller's credentials are the result.
unfoldable pub set_default_creds : Option CsiCreds → Option CsiCreds
set_default_creds creds = let assigned : Option CsiCreds = some default_creds in creds
