-- ===== src/Suite/Acceptance/Run.antt =====
-- A run of the specs about volumes and snapshots, each with its Cleanup, with a driver that conforms.
use csi_test.Prelude.{true, ◌≡◌, ◌⊎◌, List, Each}
use mathlib.Core.List.{Memᴰ}
use csi_test.Spec.{Env, Spec, done, skipped}
use csi_test.Spec.Keeps.{Keeps}
use csi_test.Resources.Cleanup.Order.{CanClean}
use csi_test.Resources.Cleanup.Obliging.{Obliging}
use csi_test.Resources.Cleanup.Confused.{Confused}
use csi_test.Suite.{Report, Planned, with_node_client}
use csi_test.Suite.Acceptance.{Conforms, Configured, Offers}
use csi_test.Suite.Acceptance.Passes.{Passes, storage_specs}

-- The spec passes, or it is skipped and the driver lacks a capability; and its Cleanup passes.
abbrev pub Accepted : Env → Report → Type 0
Accepted e r = (((r.body ≡ skipped) × ¬ (Offers e)) ⊎ (r.body ≡ done tt)) × (r.after_each ≡ done tt)

-- The planned specs are of those about volumes and snapshots, in any order and number.
abbrev pub IsStoragePlan : List Planned → Type 0
IsStoragePlan plan = Each (λ p. Memᴰ p.body storage_specs) plan

module _ (e : Env) (can : CanClean (with_node_client true e)) (o : Obliging e) (c : Conforms e)
    (k : Configured e) where
  abbrev at : Planned → Env
  at p = with_node_client p.has_node_client e
