-- ===== src/Registry.antt =====
-- pkg/sanity/tests.go, and GinkgoTest of sanity.go: the list of tests, and their registration.
pub mod Order
pub mod Run
use csi_test.Prelude.{String, true, List, [], ◌∷◌, ◌++◌, none}
use csi_test.Config.{TestConfig, TestContext}
use csi_test.Ginkgo.{Nodes, nil, cons, before_each, after_each, describe, append}

-- What the registered tree runs: Setup and Teardown of the context, or a function of a test body.
pub data Action {ℓ} (A : Type ℓ) : Type ℓ where
  setup teardown : Action A
  of_body : A → Action A

pub record Test {ℓ} (A : Type ℓ) : Type ℓ where
  pub text : String
  pub body : TestContext → Nodes (Action A)

-- NewTestContext: the other fields have their zero values.
unfoldable pub new_test_context : TestConfig → TestContext
new_test_context config = record {
  config = config;
  secrets = none;
  target_path = "";
  staging_path = "";
}

module _ {ℓ} {A : Type ℓ} where
  -- The variable `tests` after DescribeSanity, which returns true.
  unfoldable pub describe_sanity :
      String → (TestContext → Nodes (Action A)) → List (Test A) → List (Test A)
  describe_sanity text body tests = tests ++ record { text = text; body = body } ∷ []

  unfoldable pub register_tests_in_ginkgo : List (Test A) → TestContext → Nodes (Action A)
  unfolding append
  register_tests_in_ginkgo [] sc = nil
  register_tests_in_ginkgo (test ∷ tests) sc =
      cons
        (describe test.text
          (cons (before_each setup) (append (test.body sc) (cons (after_each teardown) nil))))
        (register_tests_in_ginkgo tests sc)

  -- GinkgoTest: the context, and what is registered.
  unfoldable pub ginkgo_test : List (Test A) → TestConfig → TestContext × Nodes (Action A)
  unfolding new_test_context register_tests_in_ginkgo
  ginkgo_test tests config =
      (new_test_context config, register_tests_in_ginkgo tests (new_test_context config))
