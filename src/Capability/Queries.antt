-- ===== src/Capability/Queries.antt =====
-- What the capability queries find where the driver answers them properly.
use csi_test.Prelude.{
  ℕ, Bool, true, false, ◌&&◌, ◌≡◌, List, [], ◌∷◌, ◌||◌, Option, none, some, is_none, is_some, eqb,
  arith,
}
use csi_test.Csi.Status.{Reply}
use csi_test.Csi.Capabilities.{
  ServiceCapability, NodeGetCapabilitiesResponse, ControllerGetCapabilitiesResponse,
}
use csi_test.Csi.Client.{on_node_capabilities, on_controller_capabilities}
use csi_test.Spec.{Env, State, done, ◌>>=◌}
use csi_test.Rpc
use csi_test.Rpc.Keeps.{add_event}
use csi_test.Capability.{find_rpc, is_node_capability_supported, is_controller_capability_supported}

abbrev pub all_rpc : List ServiceCapability → Bool
all_rpc [] = true
all_rpc (c ∷ caps) = is_some c.rpc && all_rpc caps

abbrev pub is_rpc : ℕ → Option ℕ → Bool
is_rpc t none = false
is_rpc t (some rpc) = eqb rpc t

unfoldable pub has_rpc : ℕ → List ServiceCapability → Bool
has_rpc t [] = false
has_rpc t (c ∷ caps) = is_rpc t c.rpc || has_rpc t caps

-- Where no entry lacks its RPC, the loop tells whether the capability is in the list.
pub find_rpc-eq-done :
    (t : ℕ) (caps : List ServiceCapability) (e : Env) (s : State)
    → all_rpc caps ≡ true
    → find_rpc t caps e s ≡ (done (has_rpc t caps), s)
unfolding find_rpc has_rpc ◌>>=◌
find_rpc-eq-done t [] e s h = ground arith
find_rpc-eq-done t (c ∷ caps) e s h = ground (arith, find_rpc-eq-done t caps e s)

abbrev pub node_list : Option NodeGetCapabilitiesResponse → List ServiceCapability
node_list none = []
node_list (some r) = r.capabilities

-- A reply to NodeGetCapabilities that no assertion rejects.
abbrev pub is_answer : Reply NodeGetCapabilitiesResponse → Bool
is_answer r = is_none r.error && is_some r.response && all_rpc (node_list r.response)

pub is_node_capability_supported-eq-done :
    (t : ℕ) (e : Env) (s : State)
    → is_answer (e.client.node_capabilities s.history) ≡ true
    → is_node_capability_supported t e s ≡ (
      done (has_rpc t (node_list (e.client.node_capabilities s.history).response)),
      add_event (on_node_capabilities (e.client.node_capabilities s.history)) s,
    )
unfolding is_node_capability_supported Rpc.node_capabilities ◌>>=◌
is_node_capability_supported-eq-done t e s h =
    let r = e.client.node_capabilities s.history in
    ground
      (arith, find_rpc-eq-done t (node_list r.response) e (add_event (on_node_capabilities r) s))

abbrev list_or_nil : Option (List ServiceCapability) → List ServiceCapability
list_or_nil none = []
list_or_nil (some caps) = caps

abbrev pub controller_list : Option ControllerGetCapabilitiesResponse → List ServiceCapability
controller_list none = []
controller_list (some r) = list_or_nil r.capabilities

abbrev has_list : Option ControllerGetCapabilitiesResponse → Bool
has_list none = false
has_list (some r) = is_some r.capabilities

-- A reply to ControllerGetCapabilities that no assertion rejects.
abbrev pub is_controller_answer : Reply ControllerGetCapabilitiesResponse → Bool
is_controller_answer r =
    is_none r.error && has_list r.response && all_rpc (controller_list r.response)

pub is_controller_capability_supported-eq-done :
    (t : ℕ) (e : Env) (s : State)
    → is_controller_answer (e.client.controller_capabilities s.history) ≡ true
    → is_controller_capability_supported t e s ≡ (
      done (has_rpc t (controller_list (e.client.controller_capabilities s.history).response)),
      add_event (on_controller_capabilities (e.client.controller_capabilities s.history)) s,
    )
unfolding is_controller_capability_supported Rpc.controller_capabilities ◌>>=◌
is_controller_capability_supported-eq-done t e s h =
    let r = e.client.controller_capabilities s.history in
    ground (
      arith,
      h,
      find_rpc-eq-done t (controller_list r.response) e
          (add_event (on_controller_capabilities r) s),
    )
