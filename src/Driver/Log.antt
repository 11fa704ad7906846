-- ===== src/Driver/Log.antt =====
-- driver/driver.go: logGRPC, and the line that callInterceptor logs for a call.
use csi_test.Prelude.{String, Option, none, some, ◌≡◌, arith, Option-cases, inl, inr}
use Prim.Native.String.{◌++◌ as str_append}
use csi_test.Csi.Status.{GoError, Reply}
use csi_test.Driver.Auth.{CsiCreds, Request, auth_interceptor, call_interceptor}

-- `request` and `response` are interface values; `error` is empty where there is no error.
pub record LogMessage (A : Type 0) : Type 0 where
  pub method : String
  pub request : Request
  pub response : Option A
  pub error : String
  pub full_error : Option GoError

abbrev pub error_text : (GoError → String) → Option GoError → String
error_text text none = ""
error_text text (some err) = text err

-- The message of logGRPC, where `text` is err.Error().
unfoldable pub log_message :
    {A : Type 0}
    → (text : GoError → String) → String
    → Request
    → Option A
    → Option GoError
    → LogMessage A
log_message text method req reply err = record {
  method = method;
  request = req;
  response = reply;
  error = error_text text err;
  full_error = err;
}

-- What json.Marshal makes of the message; none is its error, which goes to a field of the message
-- after that and is not logged.
abbrev pub marshalled : Option String → String
marshalled none = ""
marshalled (some msg) = msg

-- The line of logGRPC.
unfoldable pub log_grpc :
    {A : Type 0}
    → (marshal : LogMessage A → Option String) → (text : GoError → String) → String
    → Request
    → Option A
    → Option GoError
    → String
unfolding log_message
log_grpc marshal text method req reply err =
    str_append
      (str_append "gRPCCall: " (marshalled (marshal (log_message text method req reply err)))) "\n"

-- What callInterceptor hands to logGRPC: the reply and the error of the handler, or the error of the
-- authentication.
unfoldable pub logged_call :
    {A : Type 0}
    → (text : GoError → String) → String
    → Option CsiCreds
    → Request
    → (Request → Reply A)
    → LogMessage A
unfolding log_message auth_interceptor
logged_call text method creds req handler = elim (auth_interceptor creds req) [
  | none ↦ (let r = handler req in log_message text method req r.response r.error)
  | some err ↦ log_message text method req none (some err)
]

-- The line that is logged for a call has the response and the error that the caller gets.
pub logged_call-call_interceptor :
    {A : Type 0} (text : GoError → String) (method : String) (creds : Option CsiCreds)
    (req : Request) (handler : Request → Reply A)
    → let reply = call_interceptor creds req handler in
      logged_call text method creds req handler
      ≡ log_message text method req reply.response reply.error
unfolding logged_call call_interceptor
logged_call-call_interceptor text method creds req handler =
    elim (Option-cases (auth_interceptor creds req)) [
      | inl passed ↦ ground (arith, passed)
      | inr (err, refused) ↦ ground (arith, refused)
    ]
