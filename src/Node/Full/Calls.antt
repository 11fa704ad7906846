-- ===== src/Node/Full/Calls.antt =====
-- The calls of the two specs of Node/Full.antt as steps of a volume, the newest first.
use csi_test.Prelude.{
  String, List, [], ◌∷◌, ◌++◌, map, ◌≡◌, Option, none, some, arith, if◌then◌else◌,
}
use csi_test.Csi.Messages.{Volume, CreateVolumeRequest, ControllerPublishVolumeResponse}
use csi_test.Csi.Node.{NodeGetInfoResponse}
use csi_test.Csi.Client.{
  Event, on_create_volume, on_controller_publish, on_node_stage, on_node_publish, on_volume_stats,
  on_node_info,
}
use csi_test.Rpc
use csi_test.Spec.{Env, State, Spec, done, ◌>>=◌}
use csi_test.Requests.{secret}
use csi_test.Resources.{
  created_volume_id, create_volume, must_create_volume, register_volume, controller_publish_volume,
  must_controller_publish_volume,
}
use csi_test.Node.Setup.{
  Supports, publish_on_controller, stage_on_node, publish_on_node, node_info, target_of,
}
use csi_test.Node.Full.{check_stats}

-- What a call does to a volume.
pub data Step : Type 0 where
  identified : String → Step
  created : String → Step
  attached : String → String → Step
  staged : String → String → Step
  published : String → String → String → Step
  measured : String → String → Step
  other : Step

abbrev pub id_of_node : Option NodeGetInfoResponse → String
id_of_node none = ""
id_of_node (some ni) = ni.node_id

unfoldable pub step_of : Event → Step
step_of (on_create_volume req r) = created (created_volume_id r.response)
step_of (on_controller_publish req r) = attached req.volume_id req.node_id
step_of (on_node_stage req r) = staged req.volume_id req.staging_target_path
step_of (on_node_publish req r) = published req.volume_id req.target_path req.staging_target_path
step_of (on_volume_stats req r) = measured req.volume_id req.volume_path
step_of (on_node_info r) = identified (id_of_node r.response)
step_of event = other

abbrev pub steps : State → List Step
steps s = map step_of s.history

-- A part of a spec that is done takes these steps.
abbrev pub Takes : {A : Type 0} → Env → Spec A → (A → List Step) → Type 0
Takes {A = A} e m taken =
    (s : State) (a : A) → (m e s).0 ≡ done a → steps (m e s).1 ≡ taken a ++ steps s

module _ (e : Env) where
  pub node_info-Takes : Takes e node_info (λ ni. identified ni.node_id ∷ [])
  unfolding node_info Rpc.node_info step_of ◌>>=◌
  node_info-Takes s ni ok = ground (arith, ok)

  pub publish_on_controller-Takes :
      (supports : Supports) (vol : Volume) (ni : NodeGetInfoResponse)
      → Takes e
          (publish_on_controller supports vol ni)
          (λ r. if supports.controller_publish then attached vol.volume_id ni.node_id ∷ [] else [])
  unfolding publish_on_controller must_controller_publish_volume controller_publish_volume
      Rpc.controller_publish register_volume secret step_of ◌>>=◌
  publish_on_controller-Takes supports vol ni s r ok = ground (arith, ok)

  pub stage_on_node-Takes :
      (supports : Supports) (vol : Volume) (c : Option ControllerPublishVolumeResponse)
      → Takes e
          (stage_on_node supports vol c)
          (λ r. if supports.node_stage then staged vol.volume_id e.sc.staging_path ∷ [] else [])
  unfolding stage_on_node Rpc.node_stage secret step_of ◌>>=◌
  stage_on_node-Takes supports vol c s r ok = ground (arith, ok)

  pub publish_on_node-Takes :
      (supports : Supports) (vol : Volume) (c : Option ControllerPublishVolumeResponse)
      → Takes e (publish_on_node supports vol c) (λ r.
        published vol.volume_id
          (target_of e.sc.target_path)
          (if supports.node_stage then e.sc.staging_path else "")
        ∷ [])
  unfolding publish_on_node Rpc.node_publish secret step_of ◌>>=◌
  publish_on_node-Takes supports vol c s r ok = ground (arith, ok)

  pub check_stats-Takes :
      (supports : Supports) (vol : Volume)
      → Takes e (check_stats supports vol) (λ r.
        if supports.volume_stats
        then measured vol.volume_id (target_of e.sc.target_path) ∷ []
        else [])
  unfolding check_stats Rpc.volume_stats step_of ◌>>=◌
  check_stats-Takes supports vol s r ok = ground (arith, ok)

  pub must_create_volume-Takes :
      (req : CreateVolumeRequest)
      → Takes e (must_create_volume req) (λ vol. created vol.volume_id ∷ [])
  unfolding must_create_volume create_volume register_volume Rpc.create_volume step_of ◌>>=◌
  must_create_volume-Takes req s vol ok = ground (arith, ok)
