-- ===== src/Controller/Volumes.antt =====
-- pkg/sanity/controller.go: the specs under ControllerGetCapabilities, GetCapacity and ListVolumes. The
-- pagination spec of ListVolumes, which is disabled in the source (XIt), is in Pagination.
pub mod Invariant
pub mod Pagination
use csi_test.Prelude.{
  ℕ, ◌+◌, Bool, not, List, [], ◌∷◌, Option, none, is_none, length, eqb, leb, ◌==◌, ◌&&◌,
}
use csi_test.Csi.Status.{aborted}
use csi_test.Csi.Messages.{Volume, zero_list_volumes}
use csi_test.Csi.Capabilities.{ServiceCapability}
use csi_test.Csi.ControllerCapability
use csi_test.Spec.{Spec, pure, expect, expect_some, expect_no_error, expect_error, ◌>>=◌, ◌>>◌}
use csi_test.Rpc
use csi_test.Requests.{secret}
use csi_test.Resources.{must_create_volume, delete_volume}
use csi_test.Assert.{expect_status, requires, writer_request}

-- The switch over the known capability numbers, 1 to 13 of the enum.
abbrev pub is_known_rpc : ℕ → Bool
is_known_rpc t = leb 1 t && leb t 13

unfoldable pub check_known : List ServiceCapability → Spec (Unit {0})
check_known [] = pure tt
check_known (c ∷ caps) = do t ← expect_some c.rpc; expect (is_known_rpc t); check_known caps

unfoldable pub returns_capabilities : Spec (Unit {0})
returns_capabilities = do
  r ← Rpc.controller_capabilities
  expect_no_error r.error
  caps ← expect_some r.response
  list ← expect_some caps.capabilities
  check_known list

unfoldable pub returns_capacity : Spec (Unit {0})
returns_capacity = do
  requires ControllerCapability.get_capacity
  r ← Rpc.get_capacity
  expect_no_error r.error

-- verifyVolumeInfo for each entry.
unfoldable pub verify_volumes : List (Option Volume) → Spec (Unit {0})
verify_volumes [] = pure tt
verify_volumes (v ∷ vols) = do
  volume ← expect_some v
  expect (not (volume.volume_id == ""))
  verify_volumes vols

unfoldable pub lists_volumes : Spec (Unit {0})
lists_volumes = do
  requires ControllerCapability.list_volumes
  r ← Rpc.list_volumes zero_list_volumes
  expect_no_error r.error
  vols ← expect_some r.response
  verify_volumes vols.entries

unfoldable pub list_fails_on_invalid_token : Spec (Unit {0})
list_fails_on_invalid_token = do
  requires ControllerCapability.list_volumes
  r ← Rpc.list_volumes (record zero_list_volumes { starting_token = "invalid-token" })
  expect_error r.error
  expect (is_none r.response)
  expect_status r.error aborted

-- ListVolumes, with the number of entries of its response.
unfoldable pub count_volumes : Spec ℕ
count_volumes = do
  r ← Rpc.list_volumes zero_list_volumes
  expect_no_error r.error
  vols ← expect_some r.response
  pure (length vols.entries)

unfoldable pub list_shows_new_and_hides_deleted : Spec (Unit {0})
list_shows_new_and_hides_deleted = do
  requires ControllerCapability.list_volumes
  total ← count_volumes
  req ← writer_request "sanity" none
  vol ← must_create_volume req
  with_new ← count_volumes
  expect (eqb with_new (total + 1))
  secrets ← secret (λ x. x.delete_volume_secret)
  r ← delete_volume (record { volume_id = vol.volume_id; secrets = secrets })
  expect_no_error r.error
  without ← count_volumes
  expect (eqb without total)

-- The specs of this file.
abbrev pub volumes_specs : List (Spec (Unit {0}))
volumes_specs =
    returns_capabilities ∷ returns_capacity ∷ lists_volumes ∷ list_fails_on_invalid_token
    ∷ list_shows_new_and_hides_deleted ∷ []
