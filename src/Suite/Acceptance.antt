-- ===== src/Suite/Acceptance.antt =====
-- Drivers that keep to the Container Storage Interface, as far as the specs under CreateVolume,
-- DeleteVolume, ValidateVolumeCapabilities, DeleteSnapshot and CreateSnapshot ask
-- (pkg/sanity/controller.go). The spec of an expansion is not among them: it asks for exactly the
-- required size, where the interface asks for at least that.
pub mod Existing
pub mod Leads
pub mod Made
pub mod Create
pub mod Sources
pub mod Copies
pub mod Snapshots
pub mod Delete
pub mod Refusals
pub mod Passes
pub mod With
pub mod Run
use csi_test.Prelude.{
  ℕ, String, true, false, not, ◌≡◌, List, ◌∷◌, none, some, is_none, is_empty, ◌==◌,
}
use csi_test.Prelude.Int.{ℤ, eqb_ℤ, add64}
use csi_test.Csi.Status.{Reply, not_found, already_exists}
use csi_test.Csi.Messages.{
  CapacityRange, CreateVolumeRequest, CreateVolumeResponse, DeleteVolumeRequest,
  ValidateVolumeCapabilitiesRequest, from_snapshot, from_volume,
}
use csi_test.Csi.Snapshots.{CreateSnapshotRequest, DeleteSnapshotRequest}
use csi_test.Csi.Client.{Event, on_create_volume}
use csi_test.Csi.ControllerCapability
use csi_test.Capability.Queries.{has_rpc, controller_list}
use csi_test.Spec.{Env, State}
use csi_test.Requests.{test_volume_size}
use csi_test.Resources.{created_volume_id}
use csi_test.Resources.Tracking.{volume, snapshot}
use csi_test.Resources.Liveness.{is_live}
use csi_test.Assert.{exactly}
use csi_test.Controller.Verdicts.{is_status_error}
use csi_test.Controller.Verdicts.Creation.{created}
use csi_test.Suite.Arguments.{Queries}
use csi_test.Suite.Arguments.Strict.{StrictDriver}
use csi_test.Suite.Acceptance.Existing.{
  Holder, holder, is_taken, has_capacity, snapped, Original, original, confirms_all,
}

-- The driver's behaviour after any calls `h`. A volume or snapshot exists if the last successful call
-- about its kind and ID has made it.
pub record Conforms (e : Env) : Type 0 where
  pub queries : Queries e
  pub strict : StrictDriver e
  -- A new name gets a volume of enough capacity, with an ID that no volume has.
  pub creates :
      (h : List Event) (req : CreateVolumeRequest)
      → (req.name == "") ≡ false
      → is_empty req.volume_capabilities ≡ false
      → req.volume_content_source ≡ none
      → is_taken req.name h ≡ false
      → let r = e.client.create_volume h req in
        (created r ≡ true)
        × (has_capacity req.capacity_range r ≡ true)
        × (is_live volume (created_volume_id r.response) h ≡ false)
  -- The same request again gets the same volume.
  pub creates_again :
      (h : List Event) (req : CreateVolumeRequest) (x : Holder)
      → (req.name == "") ≡ false
      → is_empty req.volume_capabilities ≡ false
      → (x.id == "") ≡ false
      → holder req.name h ≡ some x
      → is_live volume x.id h ≡ true
      → x.request ≡ req
      → (created (e.client.create_volume h req) ≡ true)
        × (has_capacity req.capacity_range (e.client.create_volume h req) ≡ true)
        × (created_volume_id (e.client.create_volume h req).response ≡ x.id)
  -- Another exact size under the same name is a conflict.
  pub conflicts :
      (h : List Event) (req : CreateVolumeRequest) (x : Holder) (a b : ℤ)
      → (req.name == "") ≡ false
      → is_empty req.volume_capabilities ≡ false
      → holder req.name h ≡ some x
      → is_live volume x.id h ≡ true
      → x.request.capacity_range ≡ exactly a
      → req.capacity_range ≡ exactly b
      → eqb_ℤ a b ≡ false
      → is_status_error already_exists (e.client.create_volume h req).error ≡ true
  -- Copies of what exists, and of what does not.
  pub copies_volume :
      (h : List Event) (req : CreateVolumeRequest) (id : String)
      → (req.name == "") ≡ false
      → is_empty req.volume_capabilities ≡ false
      → req.volume_content_source ≡ some (from_volume id)
      → is_taken req.name h ≡ false
      → is_live volume id h ≡ true
      → is_none (e.client.create_volume h req).error ≡ true
  pub copies_no_volume :
      (h : List Event) (req : CreateVolumeRequest) (id : String)
      → (req.name == "") ≡ false
      → is_empty req.volume_capabilities ≡ false
      → req.volume_content_source ≡ some (from_volume id)
      → is_taken req.name h ≡ false
      → is_live volume id h ≡ false
      → is_status_error not_found (e.client.create_volume h req).error ≡ true
  pub copies_no_snapshot :
      (h : List Event) (req : CreateVolumeRequest) (id : String)
      → (req.name == "") ≡ false
      → is_empty req.volume_capabilities ≡ false
      → req.volume_content_source ≡ some (from_snapshot id)
      → is_taken req.name h ≡ false
      → is_live snapshot id h ≡ false
      → is_status_error not_found (e.client.create_volume h req).error ≡ true
  pub copies_snapshot :
      (h : List Event) (req : CreateVolumeRequest) (id : String)
      → (req.name == "") ≡ false
      → is_empty req.volume_capabilities ≡ false
      → req.volume_content_source ≡ some (from_snapshot id)
      → is_taken req.name h ≡ false
      → is_live snapshot id h ≡ true
      → is_none (e.client.create_volume h req).error ≡ true
  -- A snapshot of a volume, where there is no other one.
  pub snapshots :
      (h : List Event) (req : CreateSnapshotRequest)
      → (req.name == "") ≡ false
      → (req.source_volume_id == "") ≡ false
      → is_live volume req.source_volume_id h ≡ true
      → ((v : String) → is_live snapshot v h ≡ false)
      → snapped (e.client.create_snapshot h req) ≡ true
  -- The same name and source again get a snapshot, another source is a conflict.
  pub snapshots_again :
      (h : List Event) (req : CreateSnapshotRequest) (x : Original)
      → (req.name == "") ≡ false
      → (req.source_volume_id == "") ≡ false
      → original req.name h ≡ some x
      → is_live snapshot x.id h ≡ true
      → x.source ≡ req.source_volume_id
      → snapped (e.client.create_snapshot h req) ≡ true
  pub snapshots_conflict :
      (h : List Event) (req : CreateSnapshotRequest) (x : Original)
      → (req.name == "") ≡ false
      → (req.source_volume_id == "") ≡ false
      → original req.name h ≡ some x
      → is_live snapshot x.id h ≡ true
      → (x.source == req.source_volume_id) ≡ false
      → is_status_error already_exists (e.client.create_snapshot h req).error ≡ true
  pub deletes_no_snapshot :
      (h : List Event) (req : DeleteSnapshotRequest)
      → (req.snapshot_id == "") ≡ false
      → is_live snapshot req.snapshot_id h ≡ false
      → is_none (e.client.delete_snapshot h req).error ≡ true
  -- A volume that does not exist, or has just been created, can be deleted.
  pub deletes_missing :
      (h : List Event) (req : DeleteVolumeRequest)
      → (req.volume_id == "") ≡ false
      → is_live volume req.volume_id h ≡ false
      → is_none (e.client.delete_volume h req).error ≡ true
  pub deletes_new :
      (h : List Event) (req : DeleteVolumeRequest) (create : CreateVolumeRequest)
      (r : Reply CreateVolumeResponse)
      → created r ≡ true
      → created_volume_id r.response ≡ req.volume_id
      → is_none (e.client.delete_volume (on_create_volume create r ∷ h) req).error ≡ true
  -- A volume has the capabilities that it was created with.
  pub validates :
      (h : List Event) (req : ValidateVolumeCapabilitiesRequest) (create : CreateVolumeRequest)
      (r : Reply CreateVolumeResponse)
      → created r ≡ true
      → created_volume_id r.response ≡ req.volume_id
      → create.volume_capabilities ≡ req.volume_capabilities
      → is_empty req.volume_capabilities ≡ false
      → (is_none (e.client.validate (on_create_volume create r ∷ h) req).error ≡ true)
        × (confirms_all (e.client.validate (on_create_volume create r ∷ h) req).response ≡ true)
  pub validates_no_volume :
      (h : List Event) (req : ValidateVolumeCapabilitiesRequest)
      → (req.volume_id == "") ≡ false
      → is_empty req.volume_capabilities ≡ false
      → is_live volume req.volume_id h ≡ false
      → is_status_error not_found (e.client.validate h req).error ≡ true

abbrev pub Offered : ℕ → Env → Type 0
Offered t e =
    (h : List Event)
    → has_rpc t (controller_list (e.client.controller_capabilities h).response) ≡ true

-- The capabilities without which these specs are skipped.
pub record Offers (e : Env) : Type 0 where
  pub volumes : Offered ControllerCapability.create_delete_volume e
  pub snapshots : Offered ControllerCapability.create_delete_snapshot e
  pub clones : Offered ControllerCapability.clone_volume e
  pub expansion : Offered ControllerCapability.expand_volume e

-- The suite is configured with a size whose double is another one, and generates IDs.
pub record Configured (e : Env) : Type 0 where
  pub doubles :
      eqb_ℤ (test_volume_size e.sc) (add64 (test_volume_size e.sc) (test_volume_size e.sc)) ≡ false
  pub invalid_id : (e.sc.config.id_gen.invalid_volume_id == "") ≡ false
  pub unique_ids : (n : ℕ) → (e.sc.config.id_gen.unique_valid_volume_id n == "") ≡ false

-- No volume and no snapshot exists.
pub record Clear (s : State) : Type 0 where
  pub volumes : (v : String) → is_live volume v s.history ≡ false
  pub snapshots : (v : String) → is_live snapshot v s.history ≡ false
