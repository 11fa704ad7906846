-- ===== src/Registry/Order.antt =====
-- The specs that are registered, and what runs in each.
use csi_test.Prelude.{
  ◌&&◌, Bool, true, false, ◌≡◌, refl, ap, ◌∙◌, sym, List, [], ◌∷◌, ◌++◌, map, flatten,
  if◌then◌else◌,
}
use mathlib.Core.List.{append_assoc, map-append}
use csi_test.Config.{TestContext}
use csi_test.Ginkgo.{
  Nodes, nil, cons, before_each, after_each, it, describe, Container, GinkgoSpec, append, befores,
  afters, container, specs_in, run_befores, all_pass, executed,
}
use csi_test.Registry.{Action, setup, teardown, Test, register_tests_in_ginkgo}

module _ {ℓ} {A : Type ℓ} where
  -- Setup before, and Teardown after everything else of the outermost container.
  unfoldable pub enclose : List (Container (Action A)) → List (Container (Action A))
  enclose [] = []
  enclose (c ∷ cs) = record { befores = setup ∷ c.befores; afters = c.afters ++ teardown ∷ [] } ∷ cs

  abbrev pub enclosed : GinkgoSpec (Action A) → GinkgoSpec (Action A)
  enclosed s = record s { containers = enclose s.containers }

  specs-teardown :
      (outer : List (Container (Action A))) (ns : Nodes (Action A))
      → specs_in outer (append ns (cons (after_each teardown) nil)) ≡ specs_in outer ns
  unfolding specs_in append
  specs-teardown outer nil = refl
  specs-teardown outer (cons (before_each a) ns) = specs-teardown outer ns
  specs-teardown outer (cons (after_each a) ns) = specs-teardown outer ns
  specs-teardown outer (cons (it a) ns) =
      ap (◌∷◌ (record { containers = outer; subject = a })) (specs-teardown outer ns)
  specs-teardown outer (cons (describe text ms) ns) =
      ap (λ rest. specs_in (outer ++ container ms ∷ []) ms ++ rest) (specs-teardown outer ns)

  befores-teardown :
      (ns : Nodes (Action A)) → befores (append ns (cons (after_each teardown) nil)) ≡ befores ns
  unfolding befores append
  befores-teardown nil = refl
  befores-teardown (cons (before_each a) ns) = ap (◌∷◌ a) (befores-teardown ns)
  befores-teardown (cons (after_each a) ns) = befores-teardown ns
  befores-teardown (cons (it a) ns) = befores-teardown ns
  befores-teardown (cons (describe text ms) ns) = befores-teardown ns

  afters-teardown :
      (ns : Nodes (Action A))
      → afters (append ns (cons (after_each teardown) nil)) ≡ afters ns ++ teardown ∷ []
  unfolding afters append
  afters-teardown nil = refl
  afters-teardown (cons (before_each a) ns) = afters-teardown ns
  afters-teardown (cons (after_each a) ns) = ap (◌∷◌ a) (afters-teardown ns)
  afters-teardown (cons (it a) ns) = afters-teardown ns
  afters-teardown (cons (describe text ms) ns) = afters-teardown ns

  -- The containers of what a Describe within `c` and `cs` holds.
  abbrev outer_of :
      Container (Action A)
      → List (Container (Action A))
      → Nodes (Action A)
      → List (Container (Action A))
  outer_of c cs ms = c ∷ cs ++ container ms ∷ []

  -- A container around, enclosed before or after the specs are collected.
  specs-enclosed :
      (c : Container (Action A)) (cs : List (Container (Action A))) (ns : Nodes (Action A))
      → specs_in (enclose (c ∷ cs)) ns ≡ map enclosed (specs_in (c ∷ cs) ns)
  unfolding specs_in enclose
  specs-enclosed c cs nil = refl
  specs-enclosed c cs (cons (before_each a) ns) = specs-enclosed c cs ns
  specs-enclosed c cs (cons (after_each a) ns) = specs-enclosed c cs ns
  specs-enclosed c cs (cons (it a) ns) =
      ap (◌∷◌ (record { containers = enclose (c ∷ cs); subject = a })) (specs-enclosed c cs ns)
  specs-enclosed c cs (cons (describe text ms) ns) =
      let inner = specs_in (outer_of c cs ms) ms in
      ap (λ specs. specs ++ specs_in (enclose (c ∷ cs)) ns)
        (specs-enclosed c (cs ++ container ms ∷ []) ms)
      ∙ ap (◌++◌ (map enclosed inner)) (specs-enclosed c cs ns)
      ∙ sym (map-append enclosed inner (specs_in (c ∷ cs) ns))

  -- The specs of a test body in its Describe.
  abbrev pub specs_of : TestContext → Test A → List (GinkgoSpec (Action A))
  specs_of sc test = specs_in (container (test.body sc) ∷ []) (test.body sc)

  container-registered :
      (ns : Nodes (Action A))
      → container (cons (before_each setup) (append ns (cons (after_each teardown) nil))) ∷ []
        ≡ enclose (container ns ∷ [])
  unfolding container befores afters enclose
  container-registered ns = rw (befores-teardown ns, afters-teardown ns) refl

  -- Ginkgo gets the specs of all tests, in the order in which the tests were described, each with
  -- Setup before the first and Teardown after the last hook of the Describe of its test.
  pub registered-specs :
      (tests : List (Test A)) (sc : TestContext)
      → specs_in [] (register_tests_in_ginkgo tests sc)
        ≡ flatten (map (λ test. map enclosed (specs_of sc test)) tests)
  unfolding register_tests_in_ginkgo specs_in
  registered-specs [] sc = refl
  registered-specs (test ∷ tests) sc =
      let body = test.body sc in
      let c = container body in
      let rest = specs_in [] (register_tests_in_ginkgo tests sc) in
      ap (λ outer. specs_in outer (append body (cons (after_each teardown) nil)) ++ rest)
        (container-registered body)
      ∙ ap (λ specs. specs ++ rest)
          (specs-teardown (enclose (c ∷ [])) body ∙ specs-enclosed c [] body)
      ∙ ap (◌++◌ (map enclosed (specs_of sc test))) (registered-specs tests sc)

  setup_first :
      (ready ok : Bool) (first inner last : List (Action A))
      → (if ready then setup ∷ first else setup ∷ [])
          ++ (if ready && ok then inner else [])
          ++ (last ++ teardown ∷ [])
        ≡ setup
          ∷ ((if ready then first ++ (if ok then inner else []) ++ last else last) ++ teardown ∷ [])
  setup_first true ok first inner last =
      ap (◌∷◌ setup) (sym (append_assoc (first ++ (if ok then inner else [])) last (teardown ∷ [])))
  setup_first false ok first inner last = refl

  executed-enclose :
      (passes : Action A → Bool) (c : Container (Action A)) (cs : List (Container (Action A)))
      (subject : Action A)
      → executed passes (enclose (c ∷ cs)) subject
        ≡ setup
          ∷ ((if passes setup then executed passes (c ∷ cs) subject else c.afters) ++ teardown ∷ [])
  unfolding executed enclose run_befores all_pass
  executed-enclose passes c cs subject =
      setup_first (passes setup) (all_pass passes c.befores) (run_befores passes c.befores)
        (executed passes cs subject) c.afters

  abbrev pub run : (Action A → Bool) → GinkgoSpec (Action A) → List (Action A)
  run passes s = executed passes s.containers s.subject

  -- Setup, what a spec within `c` runs by itself, and Teardown; after a Setup that does not pass, only
  -- the AfterEach hooks of `c` stand between the two.
  abbrev pub bracketed :
      (Action A → Bool) → Container (Action A) → GinkgoSpec (Action A) → List (Action A)
  bracketed passes c s =
      setup ∷ ((if passes setup then run passes s else c.afters) ++ teardown ∷ [])

  enclosed-run :
      (passes : Action A → Bool) (c : Container (Action A)) (cs : List (Container (Action A)))
      (ns : Nodes (Action A))
      → map (run passes) (map enclosed (specs_in (c ∷ cs) ns))
        ≡ map (bracketed passes c) (specs_in (c ∷ cs) ns)
  unfolding specs_in
  enclosed-run passes c cs nil = refl
  enclosed-run passes c cs (cons (before_each a) ns) = enclosed-run passes c cs ns
  enclosed-run passes c cs (cons (after_each a) ns) = enclosed-run passes c cs ns
  enclosed-run passes c cs (cons (it a) ns) =
      ap (λ first. first ∷ map (run passes) (map enclosed (specs_in (c ∷ cs) ns)))
        (executed-enclose passes c cs a)
      ∙ ap (◌∷◌ (bracketed passes c (record { containers = c ∷ cs; subject = a })))
          (enclosed-run passes c cs ns)
  enclosed-run passes c cs (cons (describe text ms) ns) =
      let inner = specs_in (outer_of c cs ms) ms in
      let later = specs_in (c ∷ cs) ns in
      ap (map (run passes)) (map-append enclosed inner later)
      ∙ map-append (run passes) (map enclosed inner) (map enclosed later)
      ∙ ap (λ xs. xs ++ map (run passes) (map enclosed later))
          (enclosed-run passes c (cs ++ container ms ∷ []) ms)
      ∙ ap (◌++◌ (map (bracketed passes c) inner)) (enclosed-run passes c cs ns)
      ∙ sym (map-append (bracketed passes c) inner later)

  tests-run :
      (passes : Action A → Bool) (tests : List (Test A)) (sc : TestContext)
      → map (run passes) (flatten (map (λ test. map enclosed (specs_of sc test)) tests))
        ≡ flatten (
            map
              (λ test. map (bracketed passes (container (test.body sc))) (specs_of sc test))
              tests)
  tests-run passes [] sc = refl
  tests-run passes (test ∷ tests) sc =
      let c = container (test.body sc) in
      let rest = flatten (map (λ t. map enclosed (specs_of sc t)) tests) in
      map-append (run passes) (map enclosed (specs_of sc test)) rest
      ∙ ap (λ xs. xs ++ map (run passes) rest) (enclosed-run passes c [] (test.body sc))
      ∙ ap (◌++◌ (map (bracketed passes c) (specs_of sc test))) (tests-run passes tests sc)

  -- Ginkgo gets the specs of all tests, in the order in which the tests were described. Wherever one of
  -- them runs, and whatever hooks and specs pass, Setup runs first and Teardown last in it. Between the
  -- two runs what the spec is by itself if Setup passes; otherwise the BeforeEach hooks of the test and
  -- the spec are left out, and the AfterEach hooks of the test still run.
  pub registered-executed :
      (passes : Action A → Bool) (tests : List (Test A)) (sc : TestContext)
      → map (run passes) (specs_in [] (register_tests_in_ginkgo tests sc))
        ≡ flatten (
            map
              (λ test. map (bracketed passes (container (test.body sc))) (specs_of sc test))
              tests)
  registered-executed passes tests sc =
      ap (map (run passes)) (registered-specs tests sc) ∙ tests-run passes tests sc
