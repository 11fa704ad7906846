-- ===== src/Driver/Auth/Access.antt =====
-- Who gets past the interceptor of the mock driver.
use csi_test.Prelude.{
  String, Bool, true, false, ◌&&◌, not, ◌≡◌, refl, Option, none, some, StringMap, get_or_empty,
  is_empty, inl, inr, Bool-cases, arith, ◌==◌, if◌then◌else◌,
}
use csi_test.Csi.Status.{GoError, Reply, invalid_argument, unauthenticated}
use csi_test.Driver.Auth.{
  CsiCreds, Request, create_volume_request, delete_volume_request, controller_publish_request,
  controller_unpublish_request, node_stage_request, node_publish_request, create_snapshot_request,
  delete_snapshot_request, validate_request, list_snapshots_request, other_request, secret_field,
  creds_check, is_authenticated, auth_interceptor, call_interceptor,
}

-- The secrets that a request carries, and the field of the credentials that guards its type: none
-- for the types without a guard.
guard_of : Request → Option (StringMap × (CsiCreds → String))
guard_of (create_volume_request r) = some (r.secrets, λ c. c.create_volume_secret)
guard_of (delete_volume_request r) = some (r.secrets, λ c. c.delete_volume_secret)
guard_of (controller_publish_request r) = some (r.secrets, λ c. c.controller_publish_volume_secret)
guard_of (controller_unpublish_request r) =
    some (r.secrets, λ c. c.controller_unpublish_volume_secret)
guard_of (node_stage_request r) = some (r.secrets, λ c. c.node_stage_volume_secret)
guard_of (node_publish_request r) = some (r.secrets, λ c. c.node_publish_volume_secret)
guard_of (create_snapshot_request r) = some (r.secrets, λ c. c.create_snapshot_secret)
guard_of (delete_snapshot_request r) = some (r.secrets, λ c. c.delete_snapshot_secret)
guard_of (validate_request r) =
    some (r.secrets, λ c. c.controller_validate_volume_capabilities_secret)
guard_of (list_snapshots_request r) = some (r.secrets, λ c. c.list_snapshots_secret)
guard_of other_request = none

abbrev opens : StringMap → String → Bool
opens secrets value = not (is_empty secrets) && get_or_empty secrets secret_field == value

-- A request may pass: there are no credentials, or its type has no guard, or its secrets are not
-- empty and have the guard's value under the key, where a missing key counts as the empty text.
unfoldable pub may_pass : Option CsiCreds → Request → Bool
unfolding guard_of
may_pass none req = true
may_pass (some creds) req = elim (guard_of req) [ none ↦ true | some g ↦ opens g.0 (g.1 creds) ]

abbrev lacks_secrets : Option (StringMap × (CsiCreds → String)) → Bool
lacks_secrets none = false
lacks_secrets (some g) = is_empty g.0

-- The error for a request that may not pass: that it has no secrets, or that it has a wrong one.
unfoldable pub refusal : Request → GoError
unfolding guard_of
refusal req = record {
  code = if lacks_secrets (guard_of req) then invalid_argument else unauthenticated;
  is_status = true;
}

interceptor-may_pass :
    (creds : Option CsiCreds) (req : Request)
    → auth_interceptor creds req ≡ (if may_pass creds req then none else some (refusal req))
unfolding may_pass refusal auth_interceptor is_authenticated creds_check guard_of
interceptor-may_pass none req = refl
interceptor-may_pass (some creds) (create_volume_request r) = ground arith
interceptor-may_pass (some creds) (delete_volume_request r) = ground arith
interceptor-may_pass (some creds) (controller_publish_request r) = ground arith
interceptor-may_pass (some creds) (controller_unpublish_request r) = ground arith
interceptor-may_pass (some creds) (node_stage_request r) = ground arith
interceptor-may_pass (some creds) (node_publish_request r) = ground arith
interceptor-may_pass (some creds) (create_snapshot_request r) = ground arith
interceptor-may_pass (some creds) (delete_snapshot_request r) = ground arith
interceptor-may_pass (some creds) (validate_request r) = ground arith
interceptor-may_pass (some creds) (list_snapshots_request r) = ground arith
interceptor-may_pass (some creds) other_request = refl

-- The handler's reply is handed on exactly if the request may pass; otherwise the reply has no response
-- and is a status error: InvalidArgument if the request has no secrets, Unauthenticated if it has some.
pub call_interceptor-eq :
    {A : Type 0} (creds : Option CsiCreds) (req : Request) (handler : Request → Reply A)
    → call_interceptor creds req handler ≡ (
        if may_pass creds req
        then handler req
        else record { response = none; error = some (refusal req) })
unfolding call_interceptor
call_interceptor-eq creds req handler = elim (Bool-cases (may_pass creds req)) [
  | inl passes ↦ ground (arith, interceptor-may_pass creds req, passes)
  | inr refused ↦ ground (arith, interceptor-may_pass creds req, refused)
]
