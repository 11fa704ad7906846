-- ===== src/Suite.antt =====
-- The specs of pkg/sanity that use the resource manager, and runs of them: each Describe of controller.go
-- and node.go makes a fresh resource manager in its BeforeEach and calls its Cleanup in its AfterEach.
pub mod Leaks
pub mod Exact
pub mod Arguments
pub mod Acceptance
use csi_test.Prelude.{Bool, List, [], ◌∷◌, flatten}
use csi_test.Spec.{Env, State, Spec, Outcome}
use csi_test.Resources.Cleanup.{cleanup}
use csi_test.Controller.Volumes.{volumes_specs}
use csi_test.Controller.Create.{create_specs}
use csi_test.Controller.Delete.{delete_specs}
use csi_test.Controller.Publish.{publish_specs}
use csi_test.Controller.Lifecycle.{lifecycle_specs}
use csi_test.Controller.Snapshots.{snapshots_specs}
use csi_test.Controller.ListSnapshots.{list_snapshots_specs}
use csi_test.Controller.Expand.{expand_specs}
use csi_test.Node.Full.{node_full_specs}
use csi_test.Node.Publish.{node_publish_specs}
use csi_test.Node.Stage.{node_stage_specs}
use csi_test.Node.Stats.{node_stats_specs}

-- The specs that use the resource manager, by the Describe or the part of one that holds them.
abbrev pub groups : List (List (Spec (Unit {0})))
groups =
    volumes_specs ∷ create_specs ∷ delete_specs ∷ publish_specs ∷ lifecycle_specs ∷ snapshots_specs
    ∷ list_snapshots_specs ∷ expand_specs ∷ node_full_specs ∷ node_publish_specs ∷ node_stage_specs
    ∷ node_stats_specs ∷ []

-- All of them; the order says nothing.
abbrev pub suite : List (Spec (Unit {0}))
suite = flatten groups

-- The results of a spec and of the AfterEach that runs whatever the result of the spec is.
pub record Report : Type 0 where
  pub body : Outcome (Unit {0})
  pub after_each : Outcome (Unit {0})

-- r = &Resources{…}
abbrev pub fresh : State → State
fresh s = record s { managed = [] }

-- A spec with the resource manager of its Describe, which has a NodeClient or not: that of ExpandVolume
-- has none, and the node specs have one.
pub record Planned : Type 0 where
  pub body : Spec (Unit {0})
  pub has_node_client : Bool

abbrev pub with_node_client : Bool → Env → Env
with_node_client b e = record e { has_node_client = b }

unfoldable pub run_spec : Planned → Env → State → Report × State
run_spec p e s =
    let e1 = with_node_client p.has_node_client e in
    let (body, s1) = p.body e1 (fresh s) in
    let (after_each, s2) = cleanup e1 s1 in (record { body = body; after_each = after_each }, s2)

-- Ginkgo chooses the order of the Describes, and a user the specs that run.
unfoldable pub run_suite : List Planned → Env → State → List Report × State
unfolding run_spec
run_suite [] e s = ([], s)
run_suite (p ∷ plan) e s =
    let (report, s1) = run_spec p e s in
    let (reports, s2) = run_suite plan e s1 in (report ∷ reports, s2)
