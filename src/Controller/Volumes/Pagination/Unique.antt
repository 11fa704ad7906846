-- ===== src/Controller/Volumes/Pagination/Unique.antt =====
-- What the second page has to list for the pagination spec to pass.
use csi_test.Prelude.{
  String, Bool, true, false, not, ◌&&◌, ◌||◌, ◌≡◌, refl, List, [], ◌∷◌, some, map, arith, ◌==◌,
  eq_iff, if◌then◌else◌,
}
use csi_test.Csi.Messages.{Volume}
use csi_test.Spec.{Env, State, done, failed, ◌>>=◌}
use csi_test.Controller.Volumes.Pagination.{VolumeMap, is_existing, set_existing, check_page}

unfoldable pub is_listed : String → List Volume → Bool
is_listed id [] = false
is_listed id (v ∷ vs) = v.volume_id == id || is_listed id vs

-- No two volumes have the same ID.
unfoldable pub all_distinct : List Volume → Bool
all_distinct [] = true
all_distinct (v ∷ vs) = not (is_listed v.volume_id vs) && all_distinct vs

unfoldable pub all_exist : VolumeMap → List Volume → Bool
all_exist vols [] = true
all_exist vols (v ∷ vs) = is_existing vols v.volume_id && all_exist vols vs

all_exist-set_existing :
    (id : String) (vols : VolumeMap) (vs : List Volume)
    → all_exist (set_existing id false vols) vs ≡ (all_exist vols vs && not (is_listed id vs))
unfolding all_exist is_listed is_existing
all_exist-set_existing id vols [] = refl
all_exist-set_existing id vols (v ∷ vs) =
    ground (arith, all_exist-set_existing id vols vs, eq_iff id v.volume_id, eq_iff v.volume_id id)

-- The last loop of the pagination spec passes exactly if each volume of the page exists, as far as the
-- spec knows, and no ID is listed twice.
pub check_page-eq :
    (vs : List Volume) (vols : VolumeMap) (e : Env) (s : State)
    → check_page (map some vs) vols e s
      ≡ ((if all_exist vols vs && all_distinct vs then done tt else failed), s)
unfolding check_page all_exist all_distinct ◌>>=◌
check_page-eq [] vols e s = refl
check_page-eq (v ∷ vs) vols e s = ground (
  arith,
  check_page-eq vs (set_existing v.volume_id false vols) e s,
  all_exist-set_existing v.volume_id vols vs,
)
