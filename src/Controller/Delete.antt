-- ===== src/Controller/Delete.antt =====
-- pkg/sanity/controller.go: the specs under DeleteVolume and ValidateVolumeCapabilities.
pub mod Invariant
use csi_test.Prelude.{String, true, Bool, not, List, [], ◌∷◌, Option, none, some, is_empty}
use csi_test.Csi.Status.{invalid_argument, not_found}
use csi_test.Csi.Messages.{VolumeCapability, Volume}
use csi_test.Csi.ControllerCapability
use csi_test.Spec.{Spec, asks, expect, expect_some, expect_no_error, ◌>>=◌, ◌>>◌}
use csi_test.Rpc
use csi_test.Requests.{secret, test_volume_size, writer_capability, unique_string, unique_volume_id}
use csi_test.Resources.{must_create_volume, delete_volume}
use csi_test.Assert.{expect_status, requires, writer_request, at_least}

-- A volume with one writer and the configured size, under a unique name.
unfoldable pub new_volume : String → Spec Volume
new_volume prefix = do
  name ← unique_string prefix
  sc ← asks (λ e. e.sc)
  req ← writer_request name (at_least (test_volume_size sc))
  must_create_volume req

unfoldable pub delete_fails_without_id : Spec (Unit {0})
delete_fails_without_id = do
  requires ControllerCapability.create_delete_volume
  secrets ← secret (λ x. x.delete_volume_secret)
  r ← delete_volume (record { volume_id = ""; secrets = secrets })
  expect_status r.error invalid_argument

unfoldable pub delete_accepts_invalid_id : Spec (Unit {0})
delete_accepts_invalid_id = do
  requires ControllerCapability.create_delete_volume
  sc ← asks (λ e. e.sc)
  secrets ← secret (λ x. x.delete_volume_secret)
  r ← delete_volume (record { volume_id = sc.config.id_gen.invalid_volume_id; secrets = secrets })
  expect_no_error r.error

unfoldable pub deletes_volume : Spec (Unit {0})
deletes_volume = do
  requires ControllerCapability.create_delete_volume
  vol ← new_volume "sanity-controller-create-appropriate"
  secrets ← secret (λ x. x.delete_volume_secret)
  r ← delete_volume (record { volume_id = vol.volume_id; secrets = secrets })
  expect_no_error r.error

unfoldable pub validate_fails_without_id : Spec (Unit {0})
validate_fails_without_id = do
  secrets ← secret (λ x. x.controller_validate_volume_capabilities_secret)
  r ← Rpc.validate (record { volume_id = ""; volume_capabilities = []; secrets = secrets })
  expect_status r.error invalid_argument

unfoldable pub validate_fails_without_capabilities : Spec (Unit {0})
validate_fails_without_capabilities = do
  vol ← new_volume "sanity-controller-validate-nocaps"
  secrets ← secret (λ x. x.controller_validate_volume_capabilities_secret)
  r ←
      Rpc.validate
        (record { volume_id = vol.volume_id; volume_capabilities = []; secrets = secrets })
  expect_status r.error invalid_argument

-- if valivolcap.GetConfirmed() != nil { … }
abbrev pub confirms : Option (List VolumeCapability) → Bool
confirms none = true
confirms (some caps) = not (is_empty caps)

unfoldable pub validates : Spec (Unit {0})
validates = do
  vol ← new_volume "sanity-controller-validate"
  sc ← asks (λ e. e.sc)
  secrets ← secret (λ x. x.controller_validate_volume_capabilities_secret)
  r ← Rpc.validate (record {
    volume_id = vol.volume_id;
    volume_capabilities = writer_capability sc ∷ [];
    secrets = secrets;
  })
  expect_no_error r.error
  response ← expect_some r.response
  expect (confirms response.confirmed)

unfoldable pub validate_fails_on_missing_volume : Spec (Unit {0})
validate_fails_on_missing_volume = do
  sc ← asks (λ e. e.sc)
  missing ← unique_volume_id
  secrets ← secret (λ x. x.controller_validate_volume_capabilities_secret)
  r ← Rpc.validate (record {
    volume_id = missing;
    volume_capabilities = writer_capability sc ∷ [];
    secrets = secrets;
  })
  expect_status r.error not_found

-- The specs of this file.
abbrev pub delete_specs : List (Spec (Unit {0}))
delete_specs =
    delete_fails_without_id ∷ delete_accepts_invalid_id ∷ deletes_volume ∷ validate_fails_without_id
    ∷ validate_fails_without_capabilities ∷ validates ∷ validate_fails_on_missing_volume ∷ []
