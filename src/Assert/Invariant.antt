-- ===== src/Assert/Invariant.antt =====
-- The common parts of the test bodies keep what the resource manager keeps.
use csi_test.Prelude.{ℕ, String, Option}
use csi_test.Csi.Status.{Code, GoError}
use csi_test.Csi.Messages.{CapacityRange}
use csi_test.Spec.{State}
use csi_test.Spec.Keeps.{Keeps}
use csi_test.Resources.Keeps.{Manages, spec_rules}
use csi_test.Assert.{expect_status, requires, writer_request}

module _ {P : State → Type 0} (m : Manages P) where
  pub expect_status-Keeps : (err : Option GoError) (code : Code) → Keeps P (expect_status err code)
  unfolding expect_status
  expect_status-Keeps err code = search spec_rules

  pub requires-Keeps : (cap_type : ℕ) → Keeps P (requires cap_type)
  unfolding requires
  requires-Keeps cap_type = search spec_rules

  pub writer_request-Keeps :
      (name : String) (capacity_range : Option CapacityRange)
      → Keeps P (writer_request name capacity_range)
  unfolding writer_request
  writer_request-Keeps name capacity_range = search spec_rules

-- The rules for a whole spec.
pub ruleset suite_rules = (spec_rules, expect_status-Keeps, requires-Keeps, writer_request-Keeps)
