-- ===== src/Examples/Verdicts.antt =====
-- The verdicts of specs on the small driver.
use csi_test.Prelude.{true, ◌≡◌, refl, Each}
use csi_test.Prelude.Int.{pos}
use csi_test.Csi.ControllerCapability
use csi_test.Config.{zero_secrets, new_test_config}
use csi_test.Spec.{Env, done}
use csi_test.Requests.{test_volume_size, test_volume_expand_size}
use csi_test.Capability.Queries.{has_rpc}
use csi_test.Controller.Create.{creates_twice}
use csi_test.Controller.Expand.{expands_volume}
use csi_test.Controller.Verdicts.{Answers}
use csi_test.Controller.Verdicts.Creation.{creates_twice-eq, expands_volume-eq}
use csi_test.Identity.{all_name_chars, ends_with_letter, returns_plugin_info}
use csi_test.Identity.Names.{returns_plugin_info-eq}
use csi_test.Suite.{suite}
use csi_test.Suite.Exact.{Exact, suite-Exact}
use csi_test.Examples.Drivers.{answer, small_driver, env, env_with, empty_state, env-CanClean}

suite-Exact_example : Each (Exact env empty_state "vol-1") suite
suite-Exact_example = suite-Exact env empty_state "vol-1" env-CanClean

create-Answers : Answers ControllerCapability.create_delete_volume true env
unfolding has_rpc
create-Answers = record {
  secrets = zero_secrets;
  has_secrets = refl;
  answers = λ h. refl;
  offers = λ h. refl;
}

-- A driver that expands to five bytes, and a suite that asks it to.
abbrev growing : Env
growing =
    let e = env_with (record small_driver {
      controller_expand = λ h req. answer (record { capacity_bytes = pos 5 });
    }) in
    record e {
      sc = record e.sc { config = record e.sc.config { test_volume_expand_size = pos 5 } };
    }

expand-Answers : Answers ControllerCapability.expand_volume true growing
unfolding has_rpc
expand-Answers = record {
  secrets = zero_secrets;
  has_secrets = refl;
  answers = λ h. refl;
  offers = λ h. refl;
}

creates_twice-eq_example : (creates_twice env empty_state).0 ≡ done tt
unfolding test_volume_size new_test_config
creates_twice-eq_example = creates_twice-eq env empty_state create-Answers

expands_volume-eq_example : (expands_volume growing empty_state).0 ≡ done tt
unfolding test_volume_size test_volume_expand_size new_test_config
expands_volume-eq_example = expands_volume-eq growing empty_state expand-Answers

returns_plugin_info-eq_example : (returns_plugin_info env empty_state).0 ≡ done tt
unfolding all_name_chars ends_with_letter
returns_plugin_info-eq_example = returns_plugin_info-eq env empty_state
