-- ===== src/Suite/Exact.antt =====
-- How often Cleanup asks for the deletion of an ID, by the calls of the spec before it.
use csi_test.Prelude.{◌+◌, String, ◌≡◌, refl, List, [], ◌++◌, Each, Each-map}
use csi_test.Csi.Client.{Event}
use csi_test.Spec.{Env, State, Spec}
use csi_test.Spec.Keeps.{Keeps}
use csi_test.Resources.Refinement.{replay, count, Refines, Refines-Manages}
use csi_test.Resources.Cleanup.{cleanup}
use csi_test.Resources.Cleanup.Order.{deletions, CanClean}
use csi_test.Resources.Cleanup.Counted.{deletions_of, cleanup-Refines}
use csi_test.Suite.{suite, fresh}
use csi_test.Suite.Leaks.{suite-Keep}

-- The spec makes some `recent` calls, and then Cleanup asks for as many deletions of `v` as the bag
-- has after them.
abbrev pub Exact : Env → State → String → Spec (Unit {0}) → Type 0
Exact e s v spec =
    let s1 = (spec e (fresh s)).1 in
    (recent : List Event) × (s1.history ≡ recent ++ s.history)
    × (deletions_of v (deletions (cleanup e s1).1.history)
        ≡ replay recent v + deletions_of v (deletions s1.history))

spec-Exact :
    (e : Env) (s : State) (v : String)
    → CanClean e
    → (spec : Spec (Unit {0})) → Keeps (Refines s.history) spec
    → Exact e s v spec
unfolding count replay
spec-Exact e s v can spec keeps =
    let s1 = (spec e (fresh s)).1 in
    let h = keeps.at e (fresh s) (record { recent = []; since = refl; same = λ w. refl }) in
    (h.recent, h.since, cleanup-Refines e s1 s.history v can h)

-- Whatever a spec of the suite does, and however it ends, Cleanup then asks for exactly as many
-- deletions of an ID as the calls of the spec have left in a bag of IDs: a successful creation with a
-- non-empty ID or a successful publication on a node adds the ID, a successful deletion of
-- either kind takes one. The context has secrets, and the driver answers NodeGetCapabilities where there is a NodeClient.
pub suite-Exact : (e : Env) (s : State) (v : String) → CanClean e → Each (Exact e s v) suite
suite-Exact e s v can =
    Each-map (spec-Exact e s v can) suite (suite-Keep (Refines-Manages s.history))
