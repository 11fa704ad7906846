-- ===== src/Controller/Expand.antt =====
-- pkg/sanity/controller.go: the specs of ExpandVolume.
pub mod Invariant
use csi_test.Prelude.{List, [], ◌∷◌, none, some, is_none}
use csi_test.Prelude.Int.{eqb_ℤ}
use csi_test.Csi.Status.{invalid_argument}
use csi_test.Csi.ControllerCapability
use csi_test.Spec.{Spec, asks, expect, expect_some, expect_no_error, expect_error, ◌>>=◌, ◌>>◌}
use csi_test.Rpc
use csi_test.Requests.{
  secret, test_volume_size, test_volume_expand_size, writer_capability, unique_string,
}
use csi_test.Resources.{must_create_volume}
use csi_test.Assert.{expect_status, requires, writer_request, at_least}

unfoldable pub expand_fails_without_id : Spec (Unit {0})
expand_fails_without_id = do
  requires ControllerCapability.expand_volume
  sc ← asks (λ e. e.sc)
  secrets ← secret (λ x. x.controller_expand_volume_secret)
  r ← Rpc.controller_expand (record {
    volume_id = "";
    capacity_range = at_least (test_volume_expand_size sc);
    secrets = secrets;
    volume_capability = none;
  })
  expect_error r.error
  expect (is_none r.response)
  expect_status r.error invalid_argument

-- The source leaves the volume ID empty here too.
unfoldable pub expand_fails_without_range : Spec (Unit {0})
expand_fails_without_range = do
  requires ControllerCapability.expand_volume
  secrets ← secret (λ x. x.controller_expand_volume_secret)
  r ← Rpc.controller_expand (record {
    volume_id = "";
    capacity_range = none;
    secrets = secrets;
    volume_capability = none;
  })
  expect_error r.error
  expect (is_none r.response)
  expect_status r.error invalid_argument

unfoldable pub expands_volume : Spec (Unit {0})
expands_volume = do
  requires ControllerCapability.expand_volume
  name ← unique_string "sanity-expand-volume"
  sc ← asks (λ e. e.sc)
  req ← writer_request name (at_least (test_volume_size sc))
  vol ← must_create_volume req
  secrets ← secret (λ x. x.controller_expand_volume_secret)
  r ← Rpc.controller_expand (record {
    volume_id = vol.volume_id;
    capacity_range = at_least (test_volume_expand_size sc);
    secrets = secrets;
    volume_capability = some (writer_capability sc);
  })
  expect_no_error r.error
  response ← expect_some r.response
  expect (eqb_ℤ response.capacity_bytes (test_volume_expand_size sc))

-- The specs of this file.
abbrev pub expand_specs : List (Spec (Unit {0}))
expand_specs = expand_fails_without_id ∷ expand_fails_without_range ∷ expands_volume ∷ []
