-- ===== src/Examples/Registry.antt =====
-- The registration of a small test, and the command with it.
use csi_test.Prelude.{
  String, Bool, true, false, not, ◌&&◌, ◌||◌, ◌≡◌, List, [], ◌∷◌, map, is_some, eqb, ◌==◌,
}
use csi_test.Config.{TestContext, new_test_config}
use csi_test.Setup.Connections.{no_connections}
use csi_test.Ginkgo.{Nodes, nil, cons, before_each, after_each, it, describe, specs_in}
use csi_test.Registry.{
  Action, setup, teardown, of_body, Test, new_test_context, register_tests_in_ginkgo,
}
use csi_test.Registry.Run.{Runner, test}
use csi_test.Registry.Order.{run, registered-executed}
use csi_test.Command.{Setting, set_endpoint, set_test_volume_access_type, parse_flags, main}
use csi_test.Command.Checks.{last_endpoint, last_access_type, asks_version, names_type, main-exit}

-- A body with a resource manager and two specs, one of them in a Describe of its own.
abbrev body : TestContext → Nodes (Action String)
body sc = cons (before_each (of_body "new resources")) (
    cons (describe "CreateVolume" (cons (it (of_body "creates")) nil))
      (cons (it (of_body "lists")) (cons (after_each (of_body "cleanup")) nil)))

abbrev example_tests : List (Test String)
example_tests = record { text = "Controller Service"; body = body } ∷ []

abbrev example_sc : TestContext
example_sc = new_test_context (new_test_config "/tmp" (λ n. "00000000-0000"))

-- Setup fails: the resource manager is not made, and Cleanup runs.
abbrev setup_fails : Action String → Bool
setup_fails setup = false
setup_fails _ = true

registered-executed_example :
    map (run setup_fails) (specs_in [] (register_tests_in_ginkgo example_tests example_sc))
    ≡ (setup ∷ of_body "cleanup" ∷ teardown ∷ []) ∷ (setup ∷ of_body "cleanup" ∷ teardown ∷ []) ∷ []
unfolding specs_in
registered-executed_example = registered-executed setup_fails example_tests example_sc

abbrev passing_runner : Runner String
passing_runner = record { run_specs = λ reporters tree sc. (true, no_connections) }

abbrev example_settings : List Setting
example_settings =
    set_endpoint "/tmp/old.sock"
    ∷ set_endpoint "/tmp/csi.sock"
    ∷ set_test_volume_access_type " Block"
    ∷ []

main-exit_example :
    let version = asks_version example_settings in
    let config = parse_flags example_settings (new_test_config "/tmp" (λ n. "00000000-0000")) in
    let exit = main example_tests passing_runner "/tmp" (λ n. "00000000-0000") example_settings in
    (is_some exit.ran ≡ (
      not version
      && not (last_endpoint "" example_settings == "")
      && names_type (last_access_type "mount" example_settings)))
    × (eqb exit.status 0
        ≡ (version || (is_some exit.ran && (test example_tests passing_runner config).0)))
main-exit_example =
    main-exit example_tests passing_runner "/tmp" (λ n. "00000000-0000") example_settings

abbrev block_sc : TestContext
block_sc =
    new_test_context (parse_flags example_settings (new_test_config "/tmp" (λ n. "00000000-0000")))
