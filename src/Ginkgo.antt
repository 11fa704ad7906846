-- ===== src/Ginkgo.antt =====
-- The test trees that pkg/sanity builds with Ginkgo, and the order in which Ginkgo documents that the
-- parts of a spec run. `A` is the type of the functions that the tree holds.
use csi_test.Prelude.{String, Bool, true, ◌&&◌, List, [], ◌∷◌, ◌++◌, if◌then◌else◌}

mutual
  pub data Node {ℓ} (A : Type ℓ) : Type ℓ where
    before_each after_each it : A → Node A
    describe : String → Nodes A → Node A

  -- What a container holds, in the order of the calls.
  pub data Nodes {ℓ} (A : Type ℓ) : Type ℓ where
    nil : Nodes A
    cons : Node A → Nodes A → Nodes A

-- The hooks of a container.
pub record Container {ℓ} (A : Type ℓ) : Type ℓ where
  pub befores : List A
  pub afters : List A

-- A spec with the containers that it stands in, the outermost first.
pub record GinkgoSpec {ℓ} (A : Type ℓ) : Type ℓ where
  pub containers : List (Container A)
  pub subject : A

module _ {ℓ} {A : Type ℓ} where
  unfoldable pub append : Nodes A → Nodes A → Nodes A
  append nil ms = ms
  append (cons n ns) ms = cons n (append ns ms)

  unfoldable pub befores : Nodes A → List A
  befores nil = []
  befores (cons (before_each a) ns) = a ∷ befores ns
  befores (cons (after_each a) ns) = befores ns
  befores (cons (it a) ns) = befores ns
  befores (cons (describe text ms) ns) = befores ns

  unfoldable pub afters : Nodes A → List A
  afters nil = []
  afters (cons (before_each a) ns) = afters ns
  afters (cons (after_each a) ns) = a ∷ afters ns
  afters (cons (it a) ns) = afters ns
  afters (cons (describe text ms) ns) = afters ns

  -- A hook belongs to its container wherever it stands there.
  unfoldable pub container : Nodes A → Container A
  unfolding befores afters
  container ns = record { befores = befores ns; afters = afters ns }

  -- The specs of a list of nodes, in the containers `outer` that hold the list.
  unfoldable pub specs_in : List (Container A) → Nodes A → List (GinkgoSpec A)
  unfolding container
  specs_in outer nil = []
  specs_in outer (cons (before_each a) ns) = specs_in outer ns
  specs_in outer (cons (after_each a) ns) = specs_in outer ns
  specs_in outer (cons (it a) ns) = record { containers = outer; subject = a } ∷ specs_in outer ns
  specs_in outer (cons (describe text ms) ns) =
      specs_in (outer ++ container ms ∷ []) ms ++ specs_in outer ns

  -- The hooks of a BeforeEach list up to the first one that does not pass.
  unfoldable pub run_befores : (A → Bool) → List A → List A
  run_befores passes [] = []
  run_befores passes (a ∷ rest) =
      let later = run_befores passes rest in if passes a then a ∷ later else a ∷ []

  unfoldable pub all_pass : (A → Bool) → List A → Bool
  all_pass passes [] = true
  all_pass passes (a ∷ rest) = passes a && all_pass passes rest

  -- What runs in a spec: a container whose BeforeEach hooks pass runs what is in it; its AfterEach
  -- hooks run in any case.
  unfoldable pub executed : (A → Bool) → List (Container A) → A → List A
  unfolding run_befores all_pass
  executed passes [] subject = subject ∷ []
  executed passes (c ∷ cs) subject =
      let inner = executed passes cs subject in
      run_befores passes c.befores ++ (if all_pass passes c.befores then inner else []) ++ c.afters
