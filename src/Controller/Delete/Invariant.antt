-- ===== src/Controller/Delete/Invariant.antt =====
-- The specs of Controller/Delete.antt keep what the resource manager keeps.
use csi_test.Prelude.{String, Each}
use csi_test.Spec.{State}
use csi_test.Spec.Keeps.{Keeps}
use csi_test.Resources.Keeps.{Manages}
use csi_test.Assert.Invariant.{suite_rules}
use csi_test.Controller.Delete.{
  new_volume, delete_fails_without_id, delete_accepts_invalid_id, deletes_volume,
  validate_fails_without_id, validate_fails_without_capabilities, validates,
  validate_fails_on_missing_volume, delete_specs,
}

module _ {P : State → Type 0} (m : Manages P) where
  pub new_volume-Keeps : (name : String) → Keeps P (new_volume name)
  unfolding new_volume
  new_volume-Keeps name = search suite_rules depth 60 fits 3000

  pub delete_specs-Keep : Each (Keeps P) delete_specs
  unfolding delete_fails_without_id delete_accepts_invalid_id deletes_volume
      validate_fails_without_id validate_fails_without_capabilities validates
      validate_fails_on_missing_volume
  delete_specs-Keep = search (suite_rules, new_volume-Keeps) depth 60 fits 3000 parts 20
