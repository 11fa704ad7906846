-- ===== src/Assert.antt =====
-- What the test bodies of pkg/sanity have in common: the check of an error's code, the guard of a
-- Describe block, and the request of a volume with one writer.
pub mod Invariant
use Prim.Native.String.{◌++◌ as str_append}
use Prim.Native.Nat.{◌/◌}
use csi_test.Prelude.{
  ℕ, zero, suc, ◌%◌, String, Bool, not, ◌||◌, Option, some, [], ◌∷◌, eqb, ltb, if◌then◌else◌,
}
use csi_test.Prelude.Int.{ℤ, pos, leb_ℤ, eqb_ℤ}
use csi_test.Csi.Status.{Code, GoError, status_code, from_error_ok}
use csi_test.Csi.Messages.{CapacityRange, CreateVolumeRequest, zero_create_volume}
use csi_test.Spec.{Spec, pure, asks, expect, expect_error, skip_if, ◌>>=◌, ◌>>◌}
use csi_test.Requests.{secret, writer_capability}
use csi_test.Capability.{is_controller_capability_supported}

-- Expect(err).To(HaveOccurred()), then status.FromError(err) and the two assertions on its results.
unfoldable pub expect_status : Option GoError → Code → Spec (Unit {0})
expect_status err code = do
  expect_error err
  expect (from_error_ok err)
  expect (eqb (status_code err) code)

-- if !isControllerCapabilitySupported(r, …) { Skip(…) }
unfoldable pub requires : ℕ → Spec (Unit {0})
requires cap_type = do
  supported ← is_controller_capability_supported cap_type
  skip_if (not supported)

-- The CreateVolumeRequest that most tests spell out.
unfoldable pub writer_request : String → Option CapacityRange → Spec CreateVolumeRequest
writer_request name capacity_range = do
  sc ← asks (λ e. e.sc)
  secrets ← secret (λ x. x.create_volume_secret)
  pure (record zero_create_volume {
    name = name;
    volume_capabilities = writer_capability sc ∷ [];
    capacity_range = capacity_range;
    secrets = secrets;
    parameters = sc.config.test_volume_parameters;
  })

-- &csi.CapacityRange{RequiredBytes: size}
abbrev pub at_least : ℤ → Option CapacityRange
at_least size = some (record { required_bytes = size; limit_bytes = pos 0 })

-- &csi.CapacityRange{RequiredBytes: size, LimitBytes: size}
abbrev pub exactly : ℤ → Option CapacityRange
exactly size = some (record { required_bytes = size; limit_bytes = size })

-- Or(BeNumerically(">=", size), BeZero())
abbrev pub covers : ℤ → ℤ → Bool
covers size capacity = leb_ℤ size capacity || eqb_ℤ capacity (pos 0)

digit : ℕ → String
digit n =
    if eqb n 0
    then "0"
    else if eqb n 1
    then "1"
    else if eqb n 2
    then "2"
    else if eqb n 3
    then "3"
    else if eqb n 4
    then "4"
    else if eqb n 5
    then "5"
    else if eqb n 6
    then "6"
    else if eqb n 7
    then "7"
    else if eqb n 8
    then "8"
    else "9"

decimal_fuel : ℕ → ℕ → String
decimal_fuel zero n = ""
decimal_fuel (suc fuel) n =
    let front = decimal_fuel fuel (n / 10) in
    if ltb n 10 then digit n else str_append front (digit (n % 10))

-- strconv.Itoa(n) for n ≥ 0; a number has at most as many digits as its value and one.
unfoldable pub itoa : ℕ → String
unfolding decimal_fuel digit
itoa n = decimal_fuel (suc n) n
