-- ===== src/Resources/Cleanup/Counted.antt =====
-- How often Cleanup asks for the deletion of an ID, by the bag that the managed resources stand for.
use csi_test.Prelude.{
  ℕ, ◌+◌, String, ◌≡◌, refl, List, [], ◌∷◌, ◌++◌, arith, ◌==◌, map, if◌then◌else◌,
}
use csi_test.Csi.Client.{Event}
use csi_test.Spec.{Env, State, ResourceInfo, done, ◌>>=◌}
use csi_test.Resources.Tracking.{Kind}
use csi_test.Resources.Refinement.{replay, count, Refines}
use csi_test.Resources.Cleanup.{cleanup, cleanup_all}
use csi_test.Resources.Cleanup.Order.{deletions, target, CanClean, cleanup-deletions}

-- How many of the deletions are about the ID `v`.
unfoldable pub deletions_of : String → List (Kind × String) → ℕ
deletions_of v [] = 0
deletions_of v ((k, id) ∷ targets) = (if id == v then 1 else 0) + deletions_of v targets

deletions_of-append :
    (v : String) (xs ys : List (Kind × String))
    → deletions_of v (xs ++ ys) ≡ deletions_of v xs + deletions_of v ys
unfolding deletions_of
deletions_of-append v [] ys = omega arith
deletions_of-append v (x ∷ xs) ys = omega (arith, deletions_of-append v xs ys)

deletions_of-target :
    (v : String) (infos : List ResourceInfo) → deletions_of v (map target infos) ≡ count infos v
unfolding deletions_of count
deletions_of-target v [] = refl
deletions_of-target v (info ∷ infos) = ground (arith, deletions_of-target v infos)

pub cleanup-Refines :
    (e : Env) (s : State) (base : List Event) (v : String)
    → CanClean e
    → (h : Refines base s)
    → deletions_of v (deletions (cleanup e s).1.history)
      ≡ replay h.recent v + deletions_of v (deletions s.history)
cleanup-Refines e s base v can h = ground (
  arith,
  cleanup-deletions e can s,
  deletions_of-append v (map target s.managed) (deletions s.history),
  deletions_of-target v s.managed,
  h.same v,
)

-- With nothing managed, Cleanup does nothing.
pub cleanup-nothing : (e : Env) (s : State) → s.managed ≡ [] → cleanup e s ≡ (done tt, s)
unfolding cleanup cleanup_all ◌>>=◌
cleanup-nothing e s none_left = ground (arith, none_left)
