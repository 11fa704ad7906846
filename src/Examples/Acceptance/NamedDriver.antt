-- ===== src/Examples/Acceptance/NamedDriver.antt =====
-- A driver with volumes and snapshots.
use csi_test.Examples.Acceptance.Fresh.{fresh_id}
use csi_test.Csi.Snapshots.{CreateSnapshotRequest, CreateSnapshotResponse}
use csi_test.Prelude.{
  ◌&&◌, String, Bool, true, false, ◌||◌, not, refl, List, [], ◌∷◌, Option, none, some, is_none,
  is_empty, arith, ◌==◌, if◌then◌else◌,
}
use mathlib.Core.Bool.{false≢true}
use csi_test.Prelude.Int.{ℤ, pos, eqb_ℤ}
use csi_test.Config.{zero_secrets}
use csi_test.Csi.ControllerCapability
use csi_test.Csi.Status.{Reply, not_found, already_exists}
use csi_test.Csi.Messages.{
  CapacityRange, VolumeContentSource, CreateVolumeRequest, CreateVolumeResponse, from_snapshot,
  from_volume,
}
use csi_test.Csi.Client.{
  Client, Event, on_create_volume, on_delete_volume, on_controller_publish, on_controller_unpublish,
  on_validate, on_controller_expand, on_create_snapshot, on_delete_snapshot, on_node_stage,
  on_node_unstage, on_node_publish, on_node_unpublish, on_volume_stats, on_node_expand,
}
use csi_test.Spec.{Env}
use csi_test.Resources.Tracking.{volume, snapshot}
use csi_test.Resources.Liveness.{is_live}
use csi_test.Suite.Arguments.{Queries}
use csi_test.Suite.Arguments.Strict.{StrictDriver}
use csi_test.Suite.Acceptance.Existing.{Original, original, Holder, holder}
use csi_test.Examples.Drivers.{answer, status, env_with}
use csi_test.Examples.Arguments.{strict_driver, refuse_if}

abbrev pub required : Option CapacityRange → ℤ
required none = pos 0
required (some range) = range.required_bytes

abbrev pub differ : Option CapacityRange → Option CapacityRange → Bool
differ (some a) (some b) = not (eqb_ℤ a.required_bytes b.required_bytes)
differ _ _ = false

abbrev pub volume_reply : String → CreateVolumeRequest → Reply CreateVolumeResponse
volume_reply id req = answer (record {
  volume = some (record {
    capacity_bytes = required req.capacity_range;
    volume_id = id;
    volume_context = [];
  });
})

abbrev pub is_found : Option VolumeContentSource → List Event → Bool
is_found none h = true
is_found (some (from_volume id)) h = is_live volume id h
is_found (some (from_snapshot id)) h = is_live snapshot id h

abbrev pub create_new : List Event → CreateVolumeRequest → Reply CreateVolumeResponse
create_new h req =
    if is_found req.volume_content_source h then volume_reply (fresh_id h) req else status not_found

abbrev pub create_named :
    Option Holder → List Event → CreateVolumeRequest → Reply CreateVolumeResponse
create_named none h req = create_new h req
create_named (some x) h req =
    if is_live volume x.id h
    then (if differ x.request.capacity_range req.capacity_range
        then status already_exists
        else volume_reply x.id req)
    else create_new h req

abbrev pub snapshot_reply : CreateSnapshotRequest → Reply CreateSnapshotResponse
snapshot_reply req = answer (record {
  snapshot = some (record {
    snapshot_id = req.name;
    source_volume_id = req.source_volume_id;
    creation_time = some (record { seconds = pos 0; nanos = pos 0 });
  });
})

abbrev pub snapshot_named :
    Option Original → List Event → CreateSnapshotRequest → Reply CreateSnapshotResponse
snapshot_named none h req = snapshot_reply req
snapshot_named (some x) h req =
    if is_live snapshot x.id h && not (x.source == req.source_volume_id)
    then status already_exists
    else snapshot_reply req

abbrev pub named_driver : Client
named_driver = record strict_driver {
  controller_capabilities = λ h. answer (record {
    capabilities = some (
        record { rpc = some ControllerCapability.create_delete_volume }
        ∷ record { rpc = some ControllerCapability.create_delete_snapshot }
        ∷ record { rpc = some ControllerCapability.clone_volume }
        ∷ record { rpc = some ControllerCapability.expand_volume }
        ∷ []);
  });
  create_volume = λ h req.
      refuse_if (req.name == "" || is_empty req.volume_capabilities)
        (create_named (holder req.name h) h req);
  delete_volume = λ h req. refuse_if (req.volume_id == "") (answer tt);
  create_snapshot = λ h req.
      refuse_if (req.name == "" || req.source_volume_id == "")
        (snapshot_named (original req.name h) h req);
  validate = λ h req. refuse_if (req.volume_id == "" || is_empty req.volume_capabilities) (
      if is_live volume req.volume_id h
      then answer (record { confirmed = some req.volume_capabilities })
      else status not_found);
  controller_expand = λ h req.
      refuse_if (req.volume_id == "" || is_none req.capacity_range)
        (answer (record { capacity_bytes = required req.capacity_range }));
}

abbrev pub named_env : Env
named_env = env_with named_driver

pub named_env-Queries : Queries named_env
named_env-Queries = record {
  secrets = zero_secrets;
  has_secrets = refl;
  controller = λ h. refl;
  node = λ h. refl;
  plugin_error = λ h. refl;
  plugin_response = λ h. refl;
}

pub named_env-StrictDriver : StrictDriver named_env
named_env-StrictDriver h (on_create_volume req r) replied lacks = ground (arith, replied, lacks)
named_env-StrictDriver h (on_delete_volume req r) replied lacks = ground (arith, replied, lacks)
named_env-StrictDriver h (on_controller_publish req r) replied lacks =
    ground (arith, replied, lacks)
named_env-StrictDriver h (on_controller_unpublish req r) replied lacks =
    ground (arith, replied, lacks)
named_env-StrictDriver h (on_validate req r) replied lacks = ground (arith, replied, lacks)
named_env-StrictDriver h (on_controller_expand req r) replied lacks = ground (arith, replied, lacks)
named_env-StrictDriver h (on_create_snapshot req r) replied lacks = ground (arith, replied, lacks)
named_env-StrictDriver h (on_delete_snapshot req r) replied lacks = ground (arith, replied, lacks)
named_env-StrictDriver h (on_node_stage req r) replied lacks = ground (arith, replied, lacks)
named_env-StrictDriver h (on_node_unstage req r) replied lacks = ground (arith, replied, lacks)
named_env-StrictDriver h (on_node_publish req r) replied lacks = ground (arith, replied, lacks)
named_env-StrictDriver h (on_node_unpublish req r) replied lacks = ground (arith, replied, lacks)
named_env-StrictDriver h (on_volume_stats req r) replied lacks = ground (arith, replied, lacks)
named_env-StrictDriver h (on_node_expand req r) replied lacks = ground (arith, replied, lacks)
named_env-StrictDriver h _ replied lacks = absurd (false≢true lacks)
