-- ===== src/Suite/Arguments/Calls.antt =====
-- The requests with which the specs end, and the check of the driver's reply.
use csi_test.Prelude.{true, ◌||◌, ◌≡◌, inr, refl, List, is_none, is_empty, arith, ◌==◌}
use csi_test.Csi.Status.{Reply, invalid_argument}
use csi_test.Csi.Messages.{
  CreateVolumeRequest, DeleteVolumeRequest, ControllerPublishVolumeRequest,
  ControllerExpandVolumeRequest, ControllerUnpublishVolumeRequest,
  ValidateVolumeCapabilitiesRequest,
}
use csi_test.Csi.Node.{
  NodeStageVolumeRequest, NodeUnstageVolumeRequest, NodePublishVolumeRequest,
  NodeUnpublishVolumeRequest, NodeGetVolumeStatsRequest, NodeExpandVolumeRequest,
}
use csi_test.Csi.Snapshots.{CreateSnapshotRequest, DeleteSnapshotRequest}
use csi_test.Csi.Client.{
  Client, Event, on_create_volume, on_delete_volume, on_controller_publish, on_controller_expand,
  on_create_snapshot, on_delete_snapshot, on_validate, on_controller_unpublish, on_node_stage,
  on_node_unstage, on_node_publish, on_node_unpublish, on_volume_stats, on_node_expand,
}
use csi_test.Spec.{Env, expect, expect_error, ◌>>=◌, ◌>>◌}
use csi_test.Rpc
use csi_test.Rpc.{call}
use csi_test.Resources.{
  create_volume, delete_volume, controller_publish_volume, create_snapshot, delete_snapshot,
}
use csi_test.Assert.{expect_status}
use csi_test.Suite.Arguments.{lacks_field, is_refusal, refused, Replied, Probes}

module _ (e : Env) where
  -- A call that nothing follows but the check.
  call-Probes :
      {A : Type 0} (ask : Client → List Event → Reply A) (event : Reply A → Event)
      → ((r : Reply A) → lacks_field (event r) ≡ true)
      → ((r : Reply A) → refused (event r) ≡ is_refusal r.error)
      → ((h : List Event) → Replied e h (event (ask e.client h)))
      → Probes e (do r ← call ask event; expect_status r.error invalid_argument)
  unfolding call expect_status ◌>>=◌
  call-Probes ask event lacks refusal replied s =
      let r = ask e.client s.history in
      inr (record {
        event = event r;
        before = s.history;
        last = ground arith;
        replied = replied s.history;
        lacking = lacks r;
        verdict = ground (arith, refusal r);
      })

  pub create_volume-Probes :
      (req : CreateVolumeRequest)
      → (req.name == "" || is_empty req.volume_capabilities) ≡ true
      → Probes e (do r ← create_volume req; expect_status r.error invalid_argument)
  unfolding create_volume Rpc.create_volume expect_status ◌>>=◌
  create_volume-Probes req lacks s = inr (record {
    event = on_create_volume req (e.client.create_volume s.history req);
    before = s.history;
    last = ground arith;
    replied = refl;
    lacking = lacks;
    verdict = ground arith;
  })

  pub delete_volume-Probes :
      (req : DeleteVolumeRequest)
      → (req.volume_id == "") ≡ true
      → Probes e (do r ← delete_volume req; expect_status r.error invalid_argument)
  unfolding delete_volume Rpc.delete_volume expect_status ◌>>=◌
  delete_volume-Probes req lacks s = inr (record {
    event = on_delete_volume req (e.client.delete_volume s.history req);
    before = s.history;
    last = ground arith;
    replied = refl;
    lacking = lacks;
    verdict = ground arith;
  })

  pub controller_publish_volume-Probes :
      (req : ControllerPublishVolumeRequest)
      → (req.volume_id == "" || req.node_id == "" || is_none req.volume_capability) ≡ true
      → Probes e (do r ← controller_publish_volume req; expect_status r.error invalid_argument)
  unfolding controller_publish_volume Rpc.controller_publish expect_status ◌>>=◌
  controller_publish_volume-Probes req lacks s = inr (record {
    event = on_controller_publish req (e.client.controller_publish s.history req);
    before = s.history;
    last = ground arith;
    replied = refl;
    lacking = lacks;
    verdict = ground arith;
  })

  pub create_snapshot-Probes :
      (req : CreateSnapshotRequest)
      → (req.name == "" || req.source_volume_id == "") ≡ true
      → Probes e (do r ← create_snapshot req; expect_status r.error invalid_argument)
  unfolding create_snapshot Rpc.create_snapshot expect_status ◌>>=◌
  create_snapshot-Probes req lacks s = inr (record {
    event = on_create_snapshot req (e.client.create_snapshot s.history req);
    before = s.history;
    last = ground arith;
    replied = refl;
    lacking = lacks;
    verdict = ground arith;
  })

  pub delete_snapshot-Probes :
      (req : DeleteSnapshotRequest)
      → (req.snapshot_id == "") ≡ true
      → Probes e (do r ← delete_snapshot req; expect_status r.error invalid_argument)
  unfolding delete_snapshot Rpc.delete_snapshot expect_status ◌>>=◌
  delete_snapshot-Probes req lacks s = inr (record {
    event = on_delete_snapshot req (e.client.delete_snapshot s.history req);
    before = s.history;
    last = ground arith;
    replied = refl;
    lacking = lacks;
    verdict = ground arith;
  })

  -- The specs of expansions also ask for a missing response.
  pub controller_expand-Probes :
      (req : ControllerExpandVolumeRequest)
      → (req.volume_id == "" || is_none req.capacity_range) ≡ true
      → Probes e (do
        r ← Rpc.controller_expand req
        expect_error r.error
        expect (is_none r.response)
        expect_status r.error invalid_argument)
  unfolding Rpc.controller_expand expect_status ◌>>=◌
  controller_expand-Probes req lacks s = inr (record {
    event = on_controller_expand req (e.client.controller_expand s.history req);
    before = s.history;
    last = ground arith;
    replied = refl;
    lacking = lacks;
    verdict = ground arith;
  })

  pub validate-Probes :
      (req : ValidateVolumeCapabilitiesRequest)
      → (req.volume_id == "" || is_empty req.volume_capabilities) ≡ true
      → Probes e (do r ← Rpc.validate req; expect_status r.error invalid_argument)
  unfolding Rpc.validate
  validate-Probes req lacks = call-Probes _ (on_validate req) (λ r. lacks) (λ r. refl) (λ h. refl)

  pub controller_unpublish-Probes :
      (req : ControllerUnpublishVolumeRequest)
      → (req.volume_id == "") ≡ true
      → Probes e (do r ← Rpc.controller_unpublish req; expect_status r.error invalid_argument)
  unfolding Rpc.controller_unpublish
  controller_unpublish-Probes req lacks =
      call-Probes _ (on_controller_unpublish req) (λ r. lacks) (λ r. refl) (λ h. refl)

  pub node_stage-Probes :
      (req : NodeStageVolumeRequest)
      → (req.volume_id == "" || req.staging_target_path == "" || is_none req.volume_capability)
        ≡ true
      → Probes e (do r ← Rpc.node_stage req; expect_status r.error invalid_argument)
  unfolding Rpc.node_stage
  node_stage-Probes req lacks =
      call-Probes _ (on_node_stage req) (λ r. lacks) (λ r. refl) (λ h. refl)

  pub node_unstage-Probes :
      (req : NodeUnstageVolumeRequest)
      → (req.volume_id == "" || req.staging_target_path == "") ≡ true
      → Probes e (do r ← Rpc.node_unstage req; expect_status r.error invalid_argument)
  unfolding Rpc.node_unstage
  node_unstage-Probes req lacks =
      call-Probes _ (on_node_unstage req) (λ r. lacks) (λ r. refl) (λ h. refl)

  pub node_publish-Probes :
      (req : NodePublishVolumeRequest)
      → (req.volume_id == "" || req.target_path == "" || is_none req.volume_capability) ≡ true
      → Probes e (do r ← Rpc.node_publish req; expect_status r.error invalid_argument)
  unfolding Rpc.node_publish
  node_publish-Probes req lacks =
      call-Probes _ (on_node_publish req) (λ r. lacks) (λ r. refl) (λ h. refl)

  pub node_unpublish-Probes :
      (req : NodeUnpublishVolumeRequest)
      → (req.volume_id == "" || req.target_path == "") ≡ true
      → Probes e (do r ← Rpc.node_unpublish req; expect_status r.error invalid_argument)
  unfolding Rpc.node_unpublish
  node_unpublish-Probes req lacks =
      call-Probes _ (on_node_unpublish req) (λ r. lacks) (λ r. refl) (λ h. refl)

  pub volume_stats-Probes :
      (req : NodeGetVolumeStatsRequest)
      → (req.volume_id == "" || req.volume_path == "") ≡ true
      → Probes e (do r ← Rpc.volume_stats req; expect_status r.error invalid_argument)
  unfolding Rpc.volume_stats
  volume_stats-Probes req lacks =
      call-Probes _ (on_volume_stats req) (λ r. lacks) (λ r. refl) (λ h. refl)

  pub node_expand-Probes :
      (req : NodeExpandVolumeRequest)
      → (req.volume_id == "" || req.volume_path == "") ≡ true
      → Probes e (do r ← Rpc.node_expand req; expect_status r.error invalid_argument)
  unfolding Rpc.node_expand
  node_expand-Probes req lacks =
      call-Probes _ (on_node_expand req) (λ r. lacks) (λ r. refl) (λ h. refl)
