-- ===== src/Controller/Volumes/Pagination.antt =====
-- pkg/sanity/controller.go: the pagination spec of ListVolumes, which is disabled in the source (XIt) and
-- not a part of the suite.
pub mod Unique
pub mod Invariant
use Prim.Native.String.{◌++◌ as str_append}
use csi_test.Prelude.{
  ℕ, zero, suc, ◌+◌, ◌-◌, String, Bool, true, false, List, [], ◌∷◌, Option, none, length, eqb, leb,
  ◌==◌, if◌then◌else◌,
}
use csi_test.Prelude.Int.{pos}
use csi_test.Csi.Messages.{Volume, ListVolumesRequest, ListVolumesResponse, zero_list_volumes}
use csi_test.Csi.ControllerCapability
use csi_test.Spec.{Spec, pure, expect, expect_some, expect_no_error, deref, ◌>>=◌, ◌>>◌}
use csi_test.Rpc
use csi_test.Requests.{secret}
use csi_test.Resources.{create_volume, must_create_volume, delete_volume}
use csi_test.Assert.{requires, writer_request, itoa}

-- existing_vols, a Go map[string]bool; a missing key is false.
abbrev pub VolumeMap : Type 0
VolumeMap = List (String × Bool)

unfoldable pub is_existing : VolumeMap → String → Bool
is_existing [] id = false
is_existing ((k, there) ∷ vols) id = if k == id then there else is_existing vols id

abbrev pub set_existing : String → Bool → VolumeMap → VolumeMap
set_existing id there vols = (id, there) ∷ vols

-- ListVolumes, with the assertions that it succeeds.
unfoldable pub list_page : ListVolumesRequest → Spec ListVolumesResponse
list_page req = do r ← Rpc.list_volumes req; expect_no_error r.error; expect_some r.response

-- The first loop: every volume that is listed exists.
unfoldable pub note_volumes : List (Option Volume) → VolumeMap → Spec VolumeMap
note_volumes [] vols = pure vols
note_volumes (v ∷ vs) vols = do
  vol ← deref v
  note_volumes vs (set_existing vol.volume_id true vols)

-- for i := initialTotalVols; i < minVolCount; i++ { … }, with `left` rounds to go.
unfoldable pub create_missing : ℕ → ℕ → VolumeMap → Spec VolumeMap
create_missing i zero vols = pure vols
create_missing i (suc left) vols = do
  req ← writer_request (str_append "sanity" (itoa i)) none
  r ← create_volume req
  expect_no_error r.error
  response ← expect_some r.response
  vol ← deref response.volume
  create_missing (suc i) left (set_existing vol.volume_id true vols)

-- The loop that removes the volumes of the first page.
unfoldable pub remove_page : List (Option Volume) → VolumeMap → Spec VolumeMap
remove_page [] vols = pure vols
remove_page (v ∷ vs) vols = do
  vol ← deref v
  expect (is_existing vols vol.volume_id)
  secrets ← secret (λ x. x.delete_volume_secret)
  r ← delete_volume (record { volume_id = vol.volume_id; secrets = secrets })
  expect_no_error r.error
  remove_page vs (set_existing vol.volume_id false vols)

-- The last loop: each volume of the second page exists and has not been listed before.
unfoldable pub check_page : List (Option Volume) → VolumeMap → Spec (Unit {0})
check_page [] vols = pure tt
check_page (v ∷ vs) vols = do
  vol ← deref v
  expect (is_existing vols vol.volume_id)
  check_page vs (set_existing vol.volume_id false vols)

abbrev pub max_entries : ℕ
max_entries = 2

abbrev pub min_volume_count : ℕ → ℕ
min_volume_count initial = if leb 3 initial then initial else 3

unfoldable pub detects_volumes_between_pages : Spec (Unit {0})
detects_volumes_between_pages = do
  requires ControllerCapability.list_volumes
  before ← list_page zero_list_volumes
  let initial = length before.entries
  noted ← note_volumes before.entries []
  existing ← create_missing initial (min_volume_count initial - initial) noted
  first_page ← list_page (record zero_list_volumes { max_entries = pos max_entries })
  expect (eqb (length first_page.entries) max_entries)
  left ← remove_page first_page.entries existing
  req ← writer_request "new-addition" none
  vol ← must_create_volume req
  second_page ← list_page (record zero_list_volumes { starting_token = first_page.next_token })
  expect (leb (length second_page.entries) (min_volume_count initial - max_entries + 1))
  check_page second_page.entries (set_existing vol.volume_id true left)
