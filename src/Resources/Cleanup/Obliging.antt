-- ===== src/Resources/Cleanup/Obliging.antt =====
-- Cleanup with a driver that refuses none of its calls.
use csi_test.Prelude.{
  Bool-cases, inl, inr, String, true, false, ◌≡◌, refl, List, [], ◌∷◌, is_some, reverse, arith,
  ◌==◌, ◌∙◌, eq_iff,
}
use Prim.Native.String.{◌++◌ as str_append}
use text.Mathlib.TextLemmas.{append-eq-nil_iff}
use mathlib.Core.Bool.{false≢true}
use csi_test.Csi.Client.{Event, on_node_capabilities}
use csi_test.Csi.Messages.{DeleteVolumeRequest, ControllerUnpublishVolumeRequest}
use csi_test.Csi.Snapshots.{DeleteSnapshotRequest}
use csi_test.Csi.Node.{NodeUnstageVolumeRequest, NodeUnpublishVolumeRequest}
use csi_test.Capability.Queries.{is_node_capability_supported-eq-done}
use csi_test.Csi.NodeCapability
use csi_test.Rpc.Keeps.{add_event}
use csi_test.Spec.{Env, State, ResourceInfo, ResourceData, volume_info, snapshot_info, Spec, done}
use csi_test.Rpc
use csi_test.Resources.Named.{Named, all_named, all_named-reverse}
use csi_test.Resources.Cleanup.{
  CleanupError, cleanup_staging, cleanup_node, cleanup_publish, cleanup_delete, cleanup_volume,
  cleanup_snapshot, cleanup_resource, cleanup_all, cleanup,
}
use csi_test.Resources.Cleanup.Order.{
  CanClean, refuses, refusals, unpublish_request, secret-eq-done, node-Run, publish-Run, delete-Run,
  resource-Run, all-Run,
}

-- The driver deletes and unpublishes whatever it is asked to by a request with all its fields, and
-- there is a staging path for such requests.
pub record Obliging (e : Env) : Type 0 where
  pub staging : (e.sc.staging_path == "") ≡ false
  pub delete_volume :
      (h : List Event) (req : DeleteVolumeRequest)
      → (req.volume_id == "") ≡ false
      → is_some (e.client.delete_volume h req).error ≡ false
  pub delete_snapshot :
      (h : List Event) (req : DeleteSnapshotRequest)
      → (req.snapshot_id == "") ≡ false
      → is_some (e.client.delete_snapshot h req).error ≡ false
  pub controller_unpublish :
      (h : List Event) (req : ControllerUnpublishVolumeRequest)
      → (req.volume_id == "") ≡ false
      → is_some (e.client.controller_unpublish h req).error ≡ false
  pub node_unpublish :
      (h : List Event) (req : NodeUnpublishVolumeRequest)
      → (req.volume_id == "") ≡ false
      → (req.target_path == "") ≡ false
      → refuses (e.client.node_unpublish h req).error ≡ false
  pub node_unstage :
      (h : List Event) (req : NodeUnstageVolumeRequest)
      → (req.volume_id == "") ≡ false
      → (req.staging_target_path == "") ≡ false
      → refuses (e.client.node_unstage h req).error ≡ false

-- "/target" is not empty.
target-named : (path : String) → (str_append path "/target" == "") ≡ false
target-named path = elim (Bool-cases (str_append path "/target" == "")) [
  | inl is_empty_text ↦
      absurd (
        false≢true ((eq_iff "/target" "").1 (append-eq-nil_iff.0 ((eq_iff _ _).0 is_empty_text)).1))
  | inr named ↦ named
]

module _ (e : Env) (can : CanClean e) (o : Obliging e) where
  -- A part of Cleanup after which there are as many refusals as before.
  abbrev Unrefused : Spec (List CleanupError) → State → Type 0
  Unrefused m s = refusals (m e s).1.history ≡ refusals s.history

  staging-Unrefused :
      (id : String) (s : State)
      → e.has_node_client ≡ true
      → (id == "") ≡ false
      → Unrefused (cleanup_staging id) s
  unfolding cleanup_staging Rpc.node_unstage refusals
  staging-Unrefused id s has named =
      let s1 = add_event (on_node_capabilities (e.client.node_capabilities s.history)) s in
      ground (
        arith,
        is_node_capability_supported-eq-done NodeCapability.stage_unstage_volume e s
            (can.answers has s.history),
        o.node_unstage s1.history
            (record { volume_id = id; staging_target_path = e.sc.staging_path }) named o.staging,
      )

  node-Unrefused : (id : String) (s : State) → (id == "") ≡ false → Unrefused (cleanup_node id) s
  unfolding cleanup_node Rpc.node_unpublish refusals
  node-Unrefused id s named = elim (Bool-cases e.has_node_client) [
    | inl has ↦
        let req = unpublish_request e id in
        ground (
          arith,
          has,
          o.node_unpublish s.history req named (target-named e.sc.target_path),
          staging-Unrefused id (Rpc.node_unpublish req e s).1 has named,
        )
    | inr none_there ↦ ground (arith, none_there)
  ]

  publish-Unrefused :
      (id node_id : String) (s : State)
      → (id == "") ≡ false
      → Unrefused (cleanup_publish id node_id) s
  unfolding cleanup_publish Rpc.controller_unpublish refusals
  publish-Unrefused id node_id s named = ground (
    arith,
    secret-eq-done e can (λ x. x.controller_unpublish_volume_secret) s,
    o.controller_unpublish s.history
        (record {
          volume_id = id;
          node_id = node_id;
          secrets = can.secrets.controller_unpublish_volume_secret;
        })
        named,
  )

  delete-Unrefused :
      (id : String) (s : State) → (id == "") ≡ false → Unrefused (cleanup_delete id) s
  unfolding cleanup_delete Rpc.delete_volume refusals
  delete-Unrefused id s named = ground (
    arith,
    secret-eq-done e can (λ x. x.delete_volume_secret) s,
    o.delete_volume s.history
        (record { volume_id = id; secrets = can.secrets.delete_volume_secret }) named,
  )

  snapshot-Unrefused :
      (id : String) (s : State) → (id == "") ≡ false → Unrefused (cleanup_snapshot id) s
  unfolding cleanup_snapshot Rpc.delete_snapshot refusals
  snapshot-Unrefused id s named = ground (
    arith,
    secret-eq-done e can (λ x. x.delete_snapshot_secret) s,
    o.delete_snapshot s.history
        (record { snapshot_id = id; secrets = can.secrets.delete_snapshot_secret }) named,
  )

  resource-Unrefused :
      (id : String) (d : ResourceData) (s : State)
      → (id == "") ≡ false
      → Unrefused (cleanup_resource id d) s
  unfolding cleanup_resource cleanup_volume
  resource-Unrefused id (volume_info node_id) s named =
      let s1 = (cleanup_node id e s).1 in
      let s2 = (cleanup_publish id node_id e s1).1 in
      ground (
        arith,
        node-Run e can id s,
        publish-Run e can id node_id s1,
        delete-Run e can id s2,
        node-Unrefused id s named,
        publish-Unrefused id node_id s1 named,
        delete-Unrefused id s2 named,
      )
  resource-Unrefused id snapshot_info s named = snapshot-Unrefused id s named

  all-Unrefused :
      (infos : List ResourceInfo) (s : State)
      → all_named infos ≡ true
      → Unrefused (cleanup_all infos) s
  unfolding cleanup_all all_named
  all-Unrefused [] s named = refl
  all-Unrefused (info ∷ infos) s named =
      let s1 = (cleanup_resource info.id info.resource e s).1 in
      ground (
        arith,
        resource-Run e can info.id info.resource s,
        all-Run e can infos s1,
        resource-Unrefused info.id info.resource s (ground (arith, named)),
        all-Unrefused infos s1 (ground (arith, named)),
      )

  -- With a driver that refuses nothing that Cleanup asks of it, Cleanup succeeds and empties the list,
  -- if every entry of the list has an ID.
  pub cleanup-eq-done :
      (s : State) → Named s → ((cleanup e s).0 ≡ done tt) × ((cleanup e s).1.managed ≡ [])
  unfolding cleanup
  cleanup-eq-done s named =
      let infos = reverse s.managed in
      ground
        (arith, all-Run e can infos s, all-Unrefused infos s (all_named-reverse s.managed ∙ named))
