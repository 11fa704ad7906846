-- ===== src/Controller/Volumes/Pagination/Invariant.antt =====
-- The pagination spec keeps what the resource manager keeps.
use csi_test.Prelude.{ℕ, zero, suc, Option, List, [], ◌∷◌}
use csi_test.Csi.Messages.{Volume, ListVolumesRequest}
use csi_test.Spec.{State}
use csi_test.Spec.Keeps.{Keeps}
use csi_test.Resources.Keeps.{Manages}
use csi_test.Assert.Invariant.{suite_rules}
use csi_test.Controller.Volumes.Pagination.{
  VolumeMap, list_page, note_volumes, create_missing, remove_page, check_page,
  detects_volumes_between_pages,
}

module _ {P : State → Type 0} (m : Manages P) where
  list_page-Keeps : (req : ListVolumesRequest) → Keeps P (list_page req)
  unfolding list_page
  list_page-Keeps req = search suite_rules depth 60 fits 3000

  note_volumes-Keeps :
      (entries : List (Option Volume)) (vols : VolumeMap) → Keeps P (note_volumes entries vols)
  unfolding note_volumes
  note_volumes-Keeps [] vols = search suite_rules depth 60 fits 3000
  note_volumes-Keeps (v ∷ vs) vols = search (suite_rules, note_volumes-Keeps vs) depth 60 fits 3000

  create_missing-Keeps : (i left : ℕ) (vols : VolumeMap) → Keeps P (create_missing i left vols)
  unfolding create_missing
  create_missing-Keeps i zero vols = search suite_rules depth 60 fits 3000
  create_missing-Keeps i (suc left) vols =
      search (suite_rules, create_missing-Keeps (suc i) left) depth 60 fits 3000

  remove_page-Keeps :
      (entries : List (Option Volume)) (vols : VolumeMap) → Keeps P (remove_page entries vols)
  unfolding remove_page
  remove_page-Keeps [] vols = search suite_rules depth 60 fits 3000
  remove_page-Keeps (v ∷ vs) vols = search (suite_rules, remove_page-Keeps vs) depth 60 fits 3000

  check_page-Keeps :
      (entries : List (Option Volume)) (vols : VolumeMap) → Keeps P (check_page entries vols)
  unfolding check_page
  check_page-Keeps [] vols = search suite_rules depth 60 fits 3000
  check_page-Keeps (v ∷ vs) vols = search (suite_rules, check_page-Keeps vs) depth 60 fits 3000

  pub detects_volumes_between_pages-Keeps : Keeps P detects_volumes_between_pages
  unfolding detects_volumes_between_pages
  detects_volumes_between_pages-Keeps =
      search
        (
          suite_rules, list_page-Keeps, note_volumes-Keeps, create_missing-Keeps, remove_page-Keeps,
          check_page-Keeps,
        )
        depth 60 fits 3000
