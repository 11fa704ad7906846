-- ===== src/Csi/Status.antt =====
-- Errors and replies of remote calls. An `error` value is kept as what package
-- google.golang.org/grpc/status reports of it.
use csi_test.Prelude.{ℕ, Bool, true, Option, none, some}

-- google.golang.org/grpc/codes: a code is its number.
abbrev pub Code : Type 0
Code = ℕ

abbrev pub ok : Code
ok = 0

abbrev pub invalid_argument : Code
invalid_argument = 3

abbrev pub not_found : Code
not_found = 5

abbrev pub already_exists : Code
already_exists = 6

abbrev pub failed_precondition : Code
failed_precondition = 9

abbrev pub aborted : Code
aborted = 10

abbrev pub out_of_range : Code
out_of_range = 11

abbrev pub unimplemented : Code
unimplemented = 12

abbrev pub unauthenticated : Code
unauthenticated = 16

-- A non-nil `error`: `code` is `status.Code(err)`, and `is_status` the second result of
-- `status.FromError(err)`.
pub record GoError : Type 0 where
  pub code : Code
  pub is_status : Bool

-- `status.Code(err)`: `OK` for a nil error.
abbrev pub status_code : Option GoError → Code
status_code none = ok
status_code (some err) = err.code

-- The second result of `status.FromError(err)`: true for a nil error.
abbrev pub from_error_ok : Option GoError → Bool
from_error_ok none = true
from_error_ok (some err) = err.is_status

-- The two results `(response, err)` of a call; a nil pointer is `none`.
pub record Reply (A : Type 0) : Type 0 where
  pub response : Option A
  pub error : Option GoError
