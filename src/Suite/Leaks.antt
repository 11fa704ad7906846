-- ===== src/Suite/Leaks.antt =====
-- The suite leaves no volume and no snapshot behind.
use mathlib.Core.Bool.{false≢true}
use csi_test.Prelude.{
  String, Bool, true, false, ◌≡◌, refl, List, [], ◌∷◌, Each, Each-flatten, Each-map, Each-Memᴰ,
  arith, ◌&&◌, ◌∙◌, sym,
}
use csi_test.Spec.{Env, State, Outcome, done}
use csi_test.Spec.Keeps.{Keeps}
use csi_test.Resources.Keeps.{Manages}
use csi_test.Resources.Tracking.{Kind, Tracks, Tracks-Manages}
use csi_test.Resources.Liveness.{is_live, is_confused, known-live, live-known}
use csi_test.Resources.Named.{all_named, Named, Named-Manages}
use csi_test.Resources.Cleanup.Order.{CanClean}
use csi_test.Resources.Cleanup.Obliging.{Obliging, cleanup-eq-done}
use csi_test.Resources.Cleanup.Freed.{Dead, cleanup-Dead}
use csi_test.Controller.Volumes.Invariant.{volumes_specs-Keep}
use csi_test.Controller.Create.Invariant.{create_specs-Keep}
use csi_test.Controller.Delete.Invariant.{delete_specs-Keep}
use csi_test.Controller.Publish.Invariant.{publish_specs-Keep}
use csi_test.Controller.Lifecycle.Invariant.{lifecycle_specs-Keep}
use csi_test.Controller.Snapshots.Invariant.{snapshots_specs-Keep}
use csi_test.Controller.ListSnapshots.Invariant.{list_snapshots_specs-Keep}
use csi_test.Controller.Expand.Invariant.{expand_specs-Keep}
use csi_test.Node.Full.Invariant.{node_full_specs-Keep}
use csi_test.Node.Publish.Invariant.{node_publish_specs-Keep}
use csi_test.Node.Stage.Invariant.{node_stage_specs-Keep}
use csi_test.Node.Stats.Invariant.{node_stats_specs-Keep}
use mathlib.Core.List.{Memᴰ}
use csi_test.Suite.{groups, suite, Report, Planned, with_node_client, fresh, run_spec, run_suite}

-- Whatever survives the calls of the resource manager survives every spec of the suite.
pub suite-Keep : {P : State → Type 0} → Manages P → Each (Keeps P) suite
suite-Keep {P} m = Each-flatten (Keeps P) groups (
  volumes_specs-Keep m,
  (
    create_specs-Keep m,
    (
      delete_specs-Keep m,
      (
        publish_specs-Keep m,
        (
          lifecycle_specs-Keep m,
          (
            snapshots_specs-Keep m,
            (
              list_snapshots_specs-Keep m,
              (
                expand_specs-Keep m,
                (
                  node_full_specs-Keep m,
                  (
                    node_publish_specs-Keep m,
                    (node_stage_specs-Keep m, (node_stats_specs-Keep m, tt)),
                  ),
                ),
              ),
            ),
          ),
        ),
      ),
    ),
  ),
)

abbrev pub is_passed : Outcome (Unit {0}) → Bool
is_passed (done x) = true
is_passed _ = false

-- Every Cleanup of the reports has succeeded.
unfoldable pub all_clean : List Report → Bool
all_clean [] = true
all_clean (report ∷ reports) = is_passed report.after_each && all_clean reports

-- The planned specs are of the suite, in any order and number.
abbrev pub IsPlan : List Planned → Type 0
IsPlan plan = Each (λ p. Memᴰ p.body suite) plan

-- What survives each spec of a plan.
abbrev pub KeepsAll : (State → Type 0) → List Planned → Type 0
KeepsAll P plan = Each (λ p. Keeps P p.body) plan

pub plan-Keep :
    {P : State → Type 0} → Manages P → (plan : List Planned) → IsPlan plan → KeepsAll P plan
plan-Keep {P} m = Each-map (λ p member. Each-Memᴰ (Keeps P) suite (suite-Keep m) p.body member)

-- What Cleanup needs, for a resource manager with a NodeClient, and then also for one without.
pub CanClean-with :
    (b : Bool) (e : Env) → CanClean (with_node_client true e) → CanClean (with_node_client b e)
CanClean-with true e can = can
CanClean-with false e can = record {
  secrets = can.secrets;
  has_secrets = can.has_secrets;
  answers = λ has history. absurd (false≢true has);
}

pub Obliging-with : (b : Bool) (e : Env) → Obliging e → Obliging (with_node_client b e)
Obliging-with b e o = record {
  staging = o.staging;
  delete_volume = o.delete_volume;
  delete_snapshot = o.delete_snapshot;
  controller_unpublish = o.controller_unpublish;
  node_unpublish = o.node_unpublish;
  node_unstage = o.node_unstage;
}

module _ (k : Kind) (v : String) (e : Env) (can : CanClean (with_node_client true e)) where
  pub spec-Dead :
      (p : Planned) (s : State)
      → Keeps (Tracks k v) p.body
      → Dead k v s
      → is_passed (run_spec p e s).0.after_each ≡ true
      → Dead k v (run_spec p e s).1
  unfolding run_spec
  spec-Dead p s keeps dead clean =
      let e1 = with_node_client p.has_node_client e in
      let can1 = CanClean-with p.has_node_client e can in
      let tracks = keeps.at e1 (fresh s) (λ known. absurd (false≢true (sym dead ∙ known))) in
      let s1 = (p.body e1 (fresh s)).1 in ground (arith, clean, cleanup-Dead k v e1 s1 can1 tracks)

  specs-Dead :
      (plan : List Planned) (s : State)
      → KeepsAll (Tracks k v) plan
      → Dead k v s
      → all_clean (run_suite plan e s).0 ≡ true
      → Dead k v (run_suite plan e s).1
  unfolding run_suite all_clean
  specs-Dead [] s keeps dead clean = dead
  specs-Dead (p ∷ plan) s (keeps, rest) dead clean =
      let s1 = (run_spec p e s).1 in
      ground (arith, clean, spec-Dead p s keeps dead, specs-Dead plan s1 rest)

pub specs-clean :
    (e : Env) (can : CanClean (with_node_client true e)) (o : Obliging e) (plan : List Planned)
    (s : State)
    → KeepsAll Named plan
    → all_clean (run_suite plan e s).0 ≡ true
unfolding run_suite run_spec all_clean all_named
specs-clean e can o [] s keeps = refl
specs-clean e can o (p ∷ plan) s (keeps, rest) =
    let e1 = with_node_client p.has_node_client e in
    let s1 = (p.body e1 (fresh s)).1 in
    ground (
      arith,
      cleanup-eq-done e1 (CanClean-with p.has_node_client e can)
          (Obliging-with p.has_node_client e o) s1 (keeps.at e1 (fresh s) refl),
      specs-clean e can o plan (run_spec p e s).1 rest,
    )

-- For any specs of the suite in any order, each with or without a NodeClient, and for volumes as for
-- snapshots: if none with the ID `v` is live before the specs run, every Cleanup succeeds, and no
-- successful deletion of the other kind has the ID `v` while one is live, then none is live afterwards,
-- whatever the results of the specs are. The context has secrets, and the driver answers
-- NodeGetCapabilities.
pub suite-Dead :
    (e : Env) (s : State) (plan : List Planned) (k : Kind) (v : String)
    → IsPlan plan
    → CanClean (with_node_client true e)
    → is_live k v s.history ≡ false
    → all_clean (run_suite plan e s).0 ≡ true
    → is_confused k v (run_suite plan e s).1.history ≡ false
    → is_live k v (run_suite plan e s).1.history ≡ false
suite-Dead e s plan k v member can dead clean clear =
    live-known k v (run_suite plan e s).1.history clear (
      specs-Dead k v e can plan s (plan-Keep (Tracks-Manages k v) plan member)
        (known-live k v s.history dead) clean)

-- For any specs of the suite in any order, and for volumes as for snapshots: if the driver refuses no
-- request of Cleanup that has all its fields, there is a staging path, none with the ID `v` is live
-- before the specs run, and no successful deletion of the other kind has the ID `v` while one is live,
-- then none is live afterwards. The context has secrets, and the driver answers NodeGetCapabilities.
pub suite-Dead-Obliging :
    (e : Env) (s : State) (plan : List Planned) (k : Kind) (v : String)
    → IsPlan plan
    → CanClean (with_node_client true e)
    → Obliging e
    → is_live k v s.history ≡ false
    → is_confused k v (run_suite plan e s).1.history ≡ false
    → is_live k v (run_suite plan e s).1.history ≡ false
suite-Dead-Obliging e s plan k v member can o dead clear =
    suite-Dead e s plan k v member can dead
      (specs-clean e can o plan s (plan-Keep Named-Manages plan member)) clear
