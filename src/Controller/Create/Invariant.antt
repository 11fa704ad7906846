-- ===== src/Controller/Create/Invariant.antt =====
-- The specs of Controller/Create.antt keep what the resource manager keeps.
use csi_test.Prelude.{Each}
use csi_test.Spec.{State}
use csi_test.Spec.Keeps.{Keeps}
use csi_test.Resources.Keeps.{Manages}
use csi_test.Assert.Invariant.{suite_rules}
use csi_test.Controller.Create.{
  create_fails_without_name, create_fails_without_capabilities, creates_without_capacity,
  creates_with_capacity, creates_twice, create_fails_on_other_capacity, creates_with_longest_name,
  creates_from_snapshot, create_fails_on_missing_snapshot, creates_from_volume,
  create_fails_on_missing_volume, create_specs,
}

module _ {P : State → Type 0} (m : Manages P) where
  pub create_specs-Keep : Each (Keeps P) create_specs
  unfolding create_fails_without_name create_fails_without_capabilities creates_without_capacity
      creates_with_capacity creates_twice create_fails_on_other_capacity creates_with_longest_name
      creates_from_snapshot create_fails_on_missing_snapshot creates_from_volume
      create_fails_on_missing_volume
  create_specs-Keep = search suite_rules depth 60 fits 3000 parts 20
