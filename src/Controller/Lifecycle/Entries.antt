-- ===== src/Controller/Lifecycle/Entries.antt =====
-- What VolumeLifecycle leaves among the managed resources.
use mathlib.Core.List.{append-nil, append_assoc}
use csi_test.Prelude.{
  ℕ, zero, suc, String, false, ◌≡◌, sym, [], ◌∷◌, ◌++◌, replicate, Option, none, some, arith, ◌==◌,
}
use csi_test.Csi.Messages.{
  Topology, CreateVolumeRequest, zero_create_volume, ControllerPublishVolumeRequest,
  zero_controller_publish,
}
use csi_test.Csi.Status.{Reply}
use csi_test.Csi.Node.{NodeGetInfoResponse}
use csi_test.Csi.Client.{on_node_info}
use csi_test.Rpc.Keeps.{add_event}
use Prim.Native.String.{◌++◌ as str_append}
use csi_test.Config.{CsiSecrets}
use csi_test.Spec.{Env, State, done, ResourceInfo, volume_info, ◌>>=◌}
use csi_test.Rpc
use csi_test.Requests.{unique_string, writer_capability, secret, make_controller_publish_req}
use csi_test.Resources.{
  created_volume_id, create_volume, must_create_volume, controller_publish_volume,
  must_controller_publish_volume, register_volume, add_resource,
}
use csi_test.Assert.{writer_request}
use csi_test.Controller.Lifecycle.{topology_requirement, publish_repeatedly, volume_lifecycle}

abbrev pub published : String → String → ResourceInfo
published id node_id = record { id = id; resource = volume_info node_id }

module _ (e : Env) (secrets : CsiSecrets) (has : e.sc.secrets ≡ some secrets) where
  publish_request : String → String → ControllerPublishVolumeRequest
  publish_request id node_id = record zero_controller_publish {
    volume_id = id;
    node_id = node_id;
    volume_capability = some (writer_capability e.sc);
    readonly = false;
    secrets = secrets.controller_publish_volume_secret;
  }

  publish_repeatedly-managed :
      (id node_id : String) (count : ℕ) (s : State)
      → (id == "") ≡ false
      → (node_id == "") ≡ false
      → (publish_repeatedly id node_id count e s).0 ≡ done tt
      → (publish_repeatedly id node_id count e s).1.managed
        ≡ s.managed ++ replicate count (published id node_id)
  unfolding publish_request publish_repeatedly make_controller_publish_req
      must_controller_publish_volume controller_publish_volume Rpc.controller_publish secret ◌>>=◌
  publish_repeatedly-managed id node_id zero s vi ni ok = sym (append-nil s.managed)
  publish_repeatedly-managed id node_id (suc count) s vi ni ok =
      let req = publish_request id node_id in
      let s' = (must_controller_publish_volume req e s).1 in
      ground (
        arith,
        has,
        vi,
        ni,
        ok,
        publish_repeatedly-managed id node_id count s' vi ni,
        append_assoc s.managed (published id node_id ∷ []) (replicate count (published id node_id)),
      )

-- The node ID and the topology of a reply to NodeGetInfo.
abbrev pub node_id_of : Option NodeGetInfoResponse → String
node_id_of none = ""
node_id_of (some ni) = ni.node_id

abbrev pub topology_of : Option NodeGetInfoResponse → Option Topology
topology_of none = none
topology_of (some ni) = ni.accessible_topology

-- The node's reply, the state after it, the request for the volume and the ID of the volume.
module _ (e : Env) (secrets : CsiSecrets) (s : State) where
  abbrev info : Reply NodeGetInfoResponse
  info = e.client.node_info s.history

  abbrev pub node_of : String
  node_of = node_id_of info.response

  abbrev pub volume_request : CreateVolumeRequest
  volume_request = record zero_create_volume {
    name = str_append "sanity-controller-publish" e.unique_suffix;
    volume_capabilities = writer_capability e.sc ∷ [];
    capacity_range = none;
    secrets = secrets.create_volume_secret;
    parameters = e.sc.config.test_volume_parameters;
    accessibility_requirements = topology_requirement (topology_of info.response);
  }

  abbrev pub volume_of : String
  volume_of =
      created_volume_id
        (e.client.create_volume (add_event (on_node_info info) s).history volume_request).response

-- A VolumeLifecycle that passes appends one entry for the volume that it has created, and then
-- one for each round in which it has published that volume on the node.
pub volume_lifecycle-managed :
    (e : Env) (secrets : CsiSecrets) (count : ℕ) (s : State)
    → e.sc.secrets ≡ some secrets
    → (volume_lifecycle count e s).0 ≡ done tt
    → (volume_lifecycle count e s).1.managed
      ≡ s.managed
        ++ published (volume_of e secrets s) ""
          ∷ replicate count (published (volume_of e secrets s) (node_of e secrets s))
unfolding volume_lifecycle must_create_volume create_volume register_volume add_resource
    Rpc.create_volume Rpc.node_info writer_request secret unique_string ◌>>=◌
volume_lifecycle-managed e secrets count s has ok =
    let id = volume_of e secrets s in
    let node_id = node_of e secrets s in
    let s1 = add_event (on_node_info (e.client.node_info s.history)) s in
    let s2 = (must_create_volume (volume_request e secrets s) e s1).1 in
    ground (
      arith,
      has,
      ok,
      publish_repeatedly-managed e secrets has id node_id count s2,
      append_assoc s.managed (published id "" ∷ []) (replicate count (published id node_id)),
    )
