-- ===== src/Registry/Run.antt =====
-- Test of pkg/sanity/sanity.go, which registers the tests and runs them with Ginkgo.
use csi_test.Prelude.{String, Bool, List, [], ◌∷◌, ◌==◌, if◌then◌else◌}
use csi_test.Config.{TestConfig, TestContext}
use csi_test.Ginkgo.{Nodes}
use csi_test.Setup.Connections.{Connections, finalize}
use csi_test.Registry.{Action, Test, ginkgo_test}

-- RunSpecsWithDefaultAndCustomReporters, for the files of the JUnit reporters and what is registered:
-- whether every spec passes (it calls t.Fail otherwise), and the connections that the context has
-- then.
pub record Runner {ℓ} (A : Type ℓ) : Type ℓ where
  pub run_specs : List String → Nodes (Action A) → TestContext → Bool × Connections

abbrev pub spec_reporters : TestConfig → List String
spec_reporters config = if config.junit_file == "" then [] else config.junit_file ∷ []

-- Test: whether the suite passes, and the connections after Finalize.
unfoldable pub test {ℓ} : {A : Type ℓ} → List (Test A) → Runner A → TestConfig → Bool × Connections
unfolding ginkgo_test finalize
test tests runner config =
    let (sc, tree) = ginkgo_test tests config in
    let (passed, connections) = runner.run_specs (spec_reporters config) tree sc in
    (passed, finalize connections)
