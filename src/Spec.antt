-- ===== src/Spec.antt =====
-- The language of the test bodies: what a Ginkgo spec of pkg/sanity can do. A spec reads its
-- environment, calls the driver, keeps the list of managed resources of `Resources`
-- (pkg/sanity/resources.go), and is done, failed, skipped or panicked in the end.
pub mod Keeps
pub mod Returns
use csi_test.Prelude.{
  ℕ, suc, String, Bool, true, false, ◌||◌, Option, none, some, List, is_none, is_some,
}
use csi_test.Csi.Client.{Client, Event}
use csi_test.Config.{TestContext, Result, PathKind}

-- What a managed resource is: `volumeInfo` with its `NodeID`, or `snapshotInfo`.
pub data ResourceData : Type 0 where
  volume_info : String → ResourceData
  snapshot_info : ResourceData

pub record ResourceInfo : Type 0 where
  pub id : String
  pub resource : ResourceData

-- What a spec cannot change. `has_node_client` is `NodeClient != nil`. `check_path` is `CheckPath` of
-- the package at the state of the host that the calls so far have led to.
pub record Env : Type 0 where
  pub client : Client
  pub has_node_client : Bool
  pub sc : TestContext
  pub unique_suffix : String
  pub check_path : List Event → String → Result PathKind

-- `history` holds the calls, the newest first; `managed` is `managedResourceInfos`, the oldest first;
-- `generated` counts the unique IDs handed out. `provides_controller` is `providesControllerService` of
-- the Node Service block, which no spec resets.
pub record State : Type 0 where
  pub history : List Event
  pub managed : List ResourceInfo
  pub generated : ℕ
  pub provides_controller : Bool

-- `failed` is a failed assertion or a call of `Fail`, `skipped` a call of `Skip`, and `panicked` a
-- panic, such as a nil dereference.
pub data Outcome {ℓ} (A : Type ℓ) : Type ℓ where
  done : A → Outcome A
  failed skipped panicked : Outcome A

abbrev pub Spec {ℓ} : Type ℓ → Type ℓ
Spec A = Env → State → Outcome A × State

module _ {ℓ} {A : Type ℓ} where
  unfoldable pub pure : A → Spec A
  pure a e s = (done a, s)

  -- Fail(…)
  unfoldable pub fail : Spec A
  fail e s = (failed, s)

  -- Skip(…)
  unfoldable pub skip : Spec A
  skip e s = (skipped, s)

  unfoldable pub panic : Spec A
  panic e s = (panicked, s)

  unfoldable pub asks : (Env → A) → Spec A
  asks f e s = (done (f e), s)

  unfoldable pub gets : (State → A) → Spec A
  gets f e s = (done (f s), s)

unfoldable pub set_managed : (List ResourceInfo → List ResourceInfo) → Spec (Unit {0})
set_managed f e s = (done tt, record s { managed = f s.managed })

-- The number of the next unique ID.
unfoldable pub next_generated : Spec ℕ
next_generated e s = (done s.generated, record s { generated = suc s.generated })

-- if found { providesControllerService = true }, and the variable after it.
unfoldable pub provide_controller : Bool → Spec Bool
provide_controller found e s =
    let provides = s.provides_controller || found in
    (done provides, record s { provides_controller = provides })

-- Expect(b).To(BeTrue()), and every other assertion through its truth value.
unfoldable pub expect : Bool → Spec (Unit {0})
unfolding pure fail
expect true = pure tt
expect false = fail

-- if test { Skip(…) }
unfoldable pub skip_if : Bool → Spec (Unit {0})
unfolding pure skip
skip_if true = skip
skip_if false = pure tt

-- if test { … }
unfoldable pub when : Bool → Spec (Unit {0}) → Spec (Unit {0})
unfolding pure
when true m = m
when false m = pure tt

module _ {ℓ} {A : Type ℓ} where
  -- Expect(p).NotTo(BeNil()), with the value that the pointer has.
  unfoldable pub expect_some : Option A → Spec A
  unfolding pure fail
  expect_some none = fail
  expect_some (some a) = pure a

  -- A dereference: a nil pointer panics.
  unfoldable pub deref : Option A → Spec A
  unfolding pure panic
  deref none = panic
  deref (some a) = pure a

  -- Expect(err).NotTo(HaveOccurred())
  abbrev pub expect_no_error : Option A → Spec (Unit {0})
  expect_no_error err = expect (is_none err)

  -- Expect(err).To(HaveOccurred())
  abbrev pub expect_error : Option A → Spec (Unit {0})
  expect_error err = expect (is_some err)

module _ {ℓ κ} {A : Type ℓ} {B : Type κ} where
  abbrev pub continue : Outcome A → (A → Spec B) → Env → State → Outcome B × State
  continue (done a) f e s = f a e s
  continue failed f e s = (failed, s)
  continue skipped f e s = (skipped, s)
  continue panicked f e s = (panicked, s)

  infixl 10 ◌>>=◌ ◌>>◌
  -- Opening this opens the other ways to build a spec too.
  unfoldable pub ◌>>=◌ : Spec A → (A → Spec B) → Spec B
  unfolding pure fail skip panic asks gets set_managed next_generated provide_controller expect
      skip_if when expect_some deref
  ◌>>=◌ m f e s = let (r, s') = m e s in continue r f e s'

  abbrev pub ◌>>◌ : Spec A → Spec B → Spec B
  m >> n = m >>= λ _. n
