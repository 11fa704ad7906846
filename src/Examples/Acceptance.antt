-- ===== src/Examples/Acceptance.antt =====
-- A driver with volumes and snapshots, and the specs about them.
pub mod Fresh
pub mod NamedDriver
use csi_test.Examples.Acceptance.NamedDriver.{named_env}
use csi_test.Rpc
use csi_test.Prelude.{[], inl, inr, true, false, refl, List, ◌∷◌, Each-map}
use csi_test.Csi.ControllerCapability
use csi_test.Resources.Tracking.{volume, snapshot}
use csi_test.Suite.Acceptance.{Offers}
use csi_test.Controller.Create.{creates_without_capacity, create_fails_without_name}
use csi_test.Resources.Tracking.{volume, snapshot}
use csi_test.Spec.{done}
use csi_test.Capability.Queries.{has_rpc}
use csi_test.Suite.{Planned}
use csi_test.Resources.Cleanup.Obliging.{Obliging}

abbrev two_specs : List Planned
two_specs =
    record { body = creates_without_capacity; has_node_client = true }
    ∷ record { body = create_fails_without_name; has_node_client = false }
    ∷ []

named_env-Offers : Offers named_env
unfolding has_rpc
named_env-Offers = record {
  volumes = λ h. refl;
  snapshots = λ h. refl;
  clones = λ h. refl;
  expansion = λ h. refl;
}
