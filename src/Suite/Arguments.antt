-- ===== src/Suite/Arguments.antt =====
-- The specs of pkg/sanity that send a request without a required field: what decides their result.
pub mod Goes
pub mod Calls
pub mod Controller
pub mod Node
pub mod Strict
use csi_test.Prelude.{
  Bool, true, false, ◌&&◌, ◌||◌, ◌≡◌, ◌⊎◌, List, ◌∷◌, Option, some, is_none, is_some, is_empty,
  ◌==◌, if◌then◌else◌,
}
use csi_test.Csi.Status.{GoError, invalid_argument}
use csi_test.Csi.Client.{
  Event, on_create_volume, on_delete_volume, on_controller_publish, on_controller_unpublish,
  on_validate, on_controller_expand, on_create_snapshot, on_delete_snapshot, on_node_stage,
  on_node_unstage, on_node_publish, on_node_unpublish, on_volume_stats, on_node_expand,
}
use csi_test.Spec.{Env, State, Spec, Outcome, done, failed, skipped}
use csi_test.Controller.Verdicts.{is_status_error}
use csi_test.Config.{CsiSecrets}
use csi_test.Rpc
use csi_test.Capability.Queries.{is_answer, is_controller_answer}

-- A request that leaves out a field that the Container Storage Interface requires.
abbrev pub lacks_field : Event → Bool
lacks_field (on_create_volume req r) = req.name == "" || is_empty req.volume_capabilities
lacks_field (on_delete_volume req r) = req.volume_id == ""
lacks_field (on_controller_publish req r) =
    req.volume_id == "" || req.node_id == "" || is_none req.volume_capability
lacks_field (on_controller_unpublish req r) = req.volume_id == ""
lacks_field (on_validate req r) = req.volume_id == "" || is_empty req.volume_capabilities
lacks_field (on_controller_expand req r) = req.volume_id == "" || is_none req.capacity_range
lacks_field (on_create_snapshot req r) = req.name == "" || req.source_volume_id == ""
lacks_field (on_delete_snapshot req r) = req.snapshot_id == ""
lacks_field (on_node_stage req r) =
    req.volume_id == "" || req.staging_target_path == "" || is_none req.volume_capability
lacks_field (on_node_unstage req r) = req.volume_id == "" || req.staging_target_path == ""
lacks_field (on_node_publish req r) =
    req.volume_id == "" || req.target_path == "" || is_none req.volume_capability
lacks_field (on_node_unpublish req r) = req.volume_id == "" || req.target_path == ""
lacks_field (on_volume_stats req r) = req.volume_id == "" || req.volume_path == ""
lacks_field (on_node_expand req r) = req.volume_id == "" || req.volume_path == ""
lacks_field _ = false

abbrev pub is_refusal : Option GoError → Bool
is_refusal err = is_status_error invalid_argument err

-- The driver's reply is a status error InvalidArgument, for an expansion also without a response.
abbrev pub refused : Event → Bool
refused (on_create_volume req r) = is_refusal r.error
refused (on_delete_volume req r) = is_refusal r.error
refused (on_controller_publish req r) = is_refusal r.error
refused (on_controller_unpublish req r) = is_refusal r.error
refused (on_validate req r) = is_refusal r.error
refused (on_controller_expand req r) = is_none r.response && is_refusal r.error
refused (on_create_snapshot req r) = is_refusal r.error
refused (on_delete_snapshot req r) = is_refusal r.error
refused (on_node_stage req r) = is_refusal r.error
refused (on_node_unstage req r) = is_refusal r.error
refused (on_node_publish req r) = is_refusal r.error
refused (on_node_unpublish req r) = is_refusal r.error
refused (on_volume_stats req r) = is_refusal r.error
refused (on_node_expand req r) = is_refusal r.error
refused _ = false

-- The reply is the one that the driver gives to the request after the calls of `history`.
abbrev pub Replied : Env → List Event → Event → Type 0
Replied e h (on_create_volume req r) = r ≡ e.client.create_volume h req
Replied e h (on_delete_volume req r) = r ≡ e.client.delete_volume h req
Replied e h (on_controller_publish req r) = r ≡ e.client.controller_publish h req
Replied e h (on_controller_unpublish req r) = r ≡ e.client.controller_unpublish h req
Replied e h (on_validate req r) = r ≡ e.client.validate h req
Replied e h (on_controller_expand req r) = r ≡ e.client.controller_expand h req
Replied e h (on_create_snapshot req r) = r ≡ e.client.create_snapshot h req
Replied e h (on_delete_snapshot req r) = r ≡ e.client.delete_snapshot h req
Replied e h (on_node_stage req r) = r ≡ e.client.node_stage h req
Replied e h (on_node_unstage req r) = r ≡ e.client.node_unstage h req
Replied e h (on_node_publish req r) = r ≡ e.client.node_publish h req
Replied e h (on_node_unpublish req r) = r ≡ e.client.node_unpublish h req
Replied e h (on_volume_stats req r) = r ≡ e.client.volume_stats h req
Replied e h (on_node_expand req r) = r ≡ e.client.node_expand h req
Replied e h _ = Unit

-- The last call was a request that lacks a field, and the result is whether the driver refused it.
pub record Probed (e : Env) (o : Outcome (Unit {0})) (t : State) : Type 0 where
  pub event : Event
  pub before : List Event
  pub last : t.history ≡ event ∷ before
  pub replied : Replied e before event
  pub lacking : lacks_field event ≡ true
  pub verdict : o ≡ (if refused event then done tt else failed)

-- A spec is skipped or ends with such a call.
abbrev pub Probes : Env → Spec (Unit {0}) → Type 0
Probes e spec = (s : State) → ((spec e s).0 ≡ skipped) ⊎ Probed e (spec e s).0 (spec e s).1

-- A part of a spec that goes on with a value, or skips the spec.
abbrev pub Goes : {A : Type 0} → Env → Spec A → Type 0
Goes {A = A} e m = (s : State) → ((m e s).0 ≡ skipped) ⊎ ((a : A) × ((m e s).0 ≡ done a))

-- The context has secrets, and no assertion rejects the driver's replies about its capabilities.
pub record Queries (e : Env) : Type 0 where
  pub secrets : CsiSecrets
  pub has_secrets : e.sc.secrets ≡ some secrets
  pub controller :
      (h : List Event) → is_controller_answer (e.client.controller_capabilities h) ≡ true
  pub node : (h : List Event) → is_answer (e.client.node_capabilities h) ≡ true
  pub plugin_error : (h : List Event) → is_none (e.client.plugin_capabilities h).error ≡ true
  pub plugin_response : (h : List Event) → is_some (e.client.plugin_capabilities h).response ≡ true
