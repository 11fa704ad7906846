-- ===== src/Resources/Cleanup.antt =====
-- Cleanup of pkg/sanity/resources.go: the managed resources are freed in LIFO order.
pub mod Order
pub mod Keeps
pub mod Confused
pub mod Forgotten
pub mod Freed
pub mod Obliging
pub mod Counted
use csi_test.Prelude.{
  String, Bool, ◌&&◌, not, List, [], ◌∷◌, ◌++◌, Option, is_some, is_empty, eqb, ◌==◌, reverse,
  if◌then◌else◌,
}
use Prim.Native.String.{◌++◌ as str_append}
use csi_test.Csi.Status.{GoError, status_code, not_found}
use csi_test.Csi.NodeCapability
use csi_test.Spec.{
  ResourceInfo, ResourceData, volume_info, snapshot_info, Spec, pure, asks, gets, set_managed,
  expect, ◌>>=◌, ◌>>◌,
}
use csi_test.Rpc
use csi_test.Requests.{secret}
use csi_test.Capability.{is_node_capability_supported}

-- An error that Cleanup collects, by the call that failed and its resource.
pub data CleanupError : Type 0 where
  node_unpublish_failed node_unstage_failed controller_unpublish_failed : String → CleanupError
  delete_volume_failed delete_snapshot_failed : String → CleanupError

abbrev pub is_relevant_error : Option GoError → Bool
is_relevant_error err = is_some err && not (eqb (status_code err) not_found)

abbrev pub error_if : Bool → CleanupError → List CleanupError
error_if test err = if test then err ∷ [] else []

-- if isNodeCapabilitySupported(cl, STAGE_UNSTAGE_VOLUME) { … }
unfoldable pub cleanup_staging : String → Spec (List CleanupError)
unfolding ◌>>=◌
cleanup_staging volume_id = do
  sc ← asks (λ e. e.sc)
  staged ← is_node_capability_supported NodeCapability.stage_unstage_volume
  if staged
      then (do
        r ←
            Rpc.node_unstage
              (record { volume_id = volume_id; staging_target_path = sc.staging_path })
        pure (error_if (is_relevant_error r.error) (node_unstage_failed volume_id)))
      else pure []

-- if cl.NodeClient != nil { … }
unfoldable pub cleanup_node : String → Spec (List CleanupError)
unfolding ◌>>=◌
cleanup_node volume_id = do
  has_node_client ← asks (λ e. e.has_node_client)
  if has_node_client
      then (do
        sc ← asks (λ e. e.sc)
        r ←
            Rpc.node_unpublish
              (record { volume_id = volume_id; target_path = str_append sc.target_path "/target" })
        errs ← cleanup_staging volume_id
        pure (error_if (is_relevant_error r.error) (node_unpublish_failed volume_id) ++ errs))
      else pure []

-- if info.NodeID != "" { … }
unfoldable pub cleanup_publish : String → String → Spec (List CleanupError)
unfolding ◌>>=◌
cleanup_publish volume_id node_id =
    if not (node_id == "")
    then (do
      secrets ← secret (λ x. x.controller_unpublish_volume_secret)
      r ←
          Rpc.controller_unpublish
            (record { volume_id = volume_id; node_id = node_id; secrets = secrets })
      pure (error_if (is_some r.error) (controller_unpublish_failed volume_id)))
    else pure []

-- cl.ControllerClient.DeleteVolume(…)
unfoldable pub cleanup_delete : String → Spec (List CleanupError)
unfolding ◌>>=◌
cleanup_delete volume_id = do
  secrets ← secret (λ x. x.delete_volume_secret)
  r ← Rpc.delete_volume (record { volume_id = volume_id; secrets = secrets })
  pure (error_if (is_some r.error) (delete_volume_failed volume_id))

unfoldable pub cleanup_volume : String → String → Spec (List CleanupError)
unfolding ◌>>=◌
cleanup_volume volume_id node_id = do
  node_errs ← cleanup_node volume_id
  publish_errs ← cleanup_publish volume_id node_id
  delete_errs ← cleanup_delete volume_id
  pure (node_errs ++ publish_errs ++ delete_errs)

unfoldable pub cleanup_snapshot : String → Spec (List CleanupError)
unfolding ◌>>=◌
cleanup_snapshot snapshot_id = do
  secrets ← secret (λ x. x.delete_snapshot_secret)
  r ← Rpc.delete_snapshot (record { snapshot_id = snapshot_id; secrets = secrets })
  pure (error_if (is_some r.error) (delete_snapshot_failed snapshot_id))

-- switch resType := resInfo.data.(type) { … }
unfoldable pub cleanup_resource : String → ResourceData → Spec (List CleanupError)
cleanup_resource id (volume_info node_id) = cleanup_volume id node_id
cleanup_resource id snapshot_info = cleanup_snapshot id

-- The loop of Cleanup, over the managed resources from the last to the first.
unfoldable pub cleanup_all : List ResourceInfo → Spec (List CleanupError)
unfolding ◌>>=◌
cleanup_all [] = pure []
cleanup_all (info ∷ infos) = do
  errs ← cleanup_resource info.id info.resource
  rest ← cleanup_all infos
  pure (errs ++ rest)

unfoldable pub cleanup : Spec (Unit {0})
unfolding ◌>>=◌
cleanup = do
  managed ← gets (λ s. s.managed)
  errs ← cleanup_all (reverse managed)
  expect (is_empty errs)
  set_managed (λ _. [])
