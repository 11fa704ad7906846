-- ===== src/Controller/Volumes/Invariant.antt =====
-- The specs of Controller/Volumes.antt keep what the resource manager keeps.
use csi_test.Csi.Capabilities.{ServiceCapability}
use csi_test.Csi.Messages.{Volume}
use csi_test.Prelude.{Option, List, Each, [], ◌∷◌}
use csi_test.Spec.{State}
use csi_test.Spec.Keeps.{Keeps, Keeps-bind}
use csi_test.Resources.Keeps.{Manages}
use csi_test.Assert.Invariant.{suite_rules}
use csi_test.Controller.Volumes.{
  check_known, verify_volumes, count_volumes, returns_capabilities, returns_capacity, lists_volumes,
  list_fails_on_invalid_token, list_shows_new_and_hides_deleted, volumes_specs,
}

module _ {P : State → Type 0} (m : Manages P) where
  pub check_known-Keeps : (caps : List ServiceCapability) → Keeps P (check_known caps)
  unfolding check_known
  check_known-Keeps [] = search (suite_rules) depth 60 fits 3000
  check_known-Keeps (c ∷ caps) =
      Keeps-bind _ _ (search suite_rules depth 60 fits 3000)
        λ _. Keeps-bind _ _ (search suite_rules depth 60 fits 3000) λ _. check_known-Keeps caps

  pub verify_volumes-Keeps : (entries : List (Option Volume)) → Keeps P (verify_volumes entries)
  unfolding verify_volumes
  verify_volumes-Keeps [] = search suite_rules depth 60 fits 3000
  verify_volumes-Keeps (v ∷ vols) =
      Keeps-bind _ _ (search suite_rules depth 60 fits 3000)
        λ _. Keeps-bind _ _ (search suite_rules depth 60 fits 3000) λ _. verify_volumes-Keeps vols

  pub count_volumes-Keeps : Keeps P count_volumes
  unfolding count_volumes
  count_volumes-Keeps = search suite_rules depth 60 fits 3000

  pub volumes_specs-Keep : Each (Keeps P) volumes_specs
  unfolding returns_capabilities returns_capacity lists_volumes list_fails_on_invalid_token
      list_shows_new_and_hides_deleted
  volumes_specs-Keep =
      search (suite_rules, check_known-Keeps, verify_volumes-Keeps, count_volumes-Keeps) depth 60
        fits 3000 parts 20
