-- ===== src/Controller/Publish.antt =====
-- pkg/sanity/controller.go: the specs under ControllerPublishVolume and ControllerUnpublishVolume.
pub mod Invariant
use Prim.Native.String.{◌++◌ as str_append}
use csi_test.Prelude.{ℕ, zero, suc, ◌-◌, String, true, not, List, [], ◌∷◌, none, is_none, ◌==◌}
use csi_test.Prelude.Int.{pos, pos_part, leb_ℤ}
use csi_test.Csi.Status.{invalid_argument, not_found, already_exists}
use csi_test.Csi.Messages.{zero_controller_publish}
use csi_test.Csi.ControllerCapability
use csi_test.Spec.{
  Spec, pure, asks, expect, expect_some, expect_no_error, expect_error, skip_if, ◌>>=◌, ◌>>◌,
}
use csi_test.Rpc
use csi_test.Requests.{
  secret, make_create_volume_req, make_controller_publish_req, unique_string, unique_volume_id,
  unique_node_id,
}
use csi_test.Resources.{
  must_create_volume, controller_publish_volume, must_controller_publish_volume,
}
use csi_test.Assert.{expect_status, requires, writer_request, itoa}

unfoldable pub publish_fails_without_volume_id : Spec (Unit {0})
publish_fails_without_volume_id = do
  requires ControllerCapability.publish_unpublish_volume
  secrets ← secret (λ x. x.controller_publish_volume_secret)
  r ← controller_publish_volume (record zero_controller_publish { secrets = secrets })
  expect_status r.error invalid_argument

unfoldable pub publish_fails_without_node_id : Spec (Unit {0})
publish_fails_without_node_id = do
  requires ControllerCapability.publish_unpublish_volume
  vol_id ← unique_volume_id
  secrets ← secret (λ x. x.controller_publish_volume_secret)
  r ←
      controller_publish_volume
        (record zero_controller_publish { volume_id = vol_id; secrets = secrets })
  expect_status r.error invalid_argument

unfoldable pub publish_fails_without_capability : Spec (Unit {0})
publish_fails_without_capability = do
  requires ControllerCapability.publish_unpublish_volume
  vol_id ← unique_volume_id
  node_id ← unique_node_id
  secrets ← secret (λ x. x.controller_publish_volume_secret)
  r ←
      controller_publish_volume (record zero_controller_publish {
        volume_id = vol_id;
        node_id = node_id;
        secrets = secrets;
      })
  expect_status r.error invalid_argument

-- The loop that publishes `left` volumes; `i` is the number of the next one.
unfoldable pub publish_volumes : String → ℕ → ℕ → Spec (Unit {0})
publish_volumes node_id i zero = pure tt
publish_volumes node_id i (suc left) = do
  name ← unique_string (str_append "sanity-max-attach-limit-vol-" (itoa i))
  sc ← asks (λ e. e.sc)
  vol ← must_create_volume (make_create_volume_req sc name)
  req ← make_controller_publish_req vol.volume_id node_id
  must_controller_publish_volume req
  publish_volumes node_id (suc i) left

unfoldable pub publish_fails_over_attach_limit : Spec (Unit {0})
publish_fails_over_attach_limit = do
  requires ControllerCapability.publish_unpublish_volume
  sc ← asks (λ e. e.sc)
  skip_if (not sc.config.test_node_volume_attach_limit)
  r ← Rpc.node_info
  expect_no_error r.error
  node ← expect_some r.response
  skip_if (leb_ℤ node.max_volumes_per_node (pos 0))
  expect (not (node.node_id == ""))
  publish_volumes node.node_id 0 (pos_part node.max_volumes_per_node)
  name ← unique_string "sanity-max-attach-limit-vol+1"
  vol ← must_create_volume (make_create_volume_req sc name)
  req ← make_controller_publish_req vol.volume_id node.node_id
  extra ← controller_publish_volume req
  expect_error extra.error

unfoldable pub publish_fails_on_missing_volume : Spec (Unit {0})
publish_fails_on_missing_volume = do
  requires ControllerCapability.publish_unpublish_volume
  vol_id ← unique_volume_id
  node_id ← unique_node_id
  req ← make_controller_publish_req vol_id node_id
  r ← controller_publish_volume req
  expect_error r.error
  expect (is_none r.response)
  expect_status r.error not_found

unfoldable pub publish_fails_on_missing_node : Spec (Unit {0})
publish_fails_on_missing_node = do
  requires ControllerCapability.publish_unpublish_volume
  name ← unique_string "sanity-controller-wrong-node"
  create ← writer_request name none
  vol ← must_create_volume create
  node_id ← unique_node_id
  req ← make_controller_publish_req vol.volume_id node_id
  r ← controller_publish_volume req
  expect_error r.error
  expect (is_none r.response)
  expect_status r.error not_found

unfoldable pub publish_fails_on_incompatible : Spec (Unit {0})
publish_fails_on_incompatible = do
  requires ControllerCapability.publish_unpublish_volume
  requires ControllerCapability.publish_readonly
  name ← unique_string "sanity-controller-published-incompatible"
  create ← writer_request name none
  vol ← must_create_volume create
  info ← Rpc.node_info
  expect_no_error info.error
  node ← expect_some info.response
  expect (not (node.node_id == ""))
  req ← make_controller_publish_req vol.volume_id node.node_id
  must_controller_publish_volume req
  r ← controller_publish_volume (record req { readonly = true })
  expect_error r.error
  expect (is_none r.response)
  expect_status r.error already_exists

unfoldable pub unpublish_fails_without_volume_id : Spec (Unit {0})
unpublish_fails_without_volume_id = do
  requires ControllerCapability.publish_unpublish_volume
  secrets ← secret (λ x. x.controller_unpublish_volume_secret)
  r ← Rpc.controller_unpublish (record { volume_id = ""; node_id = ""; secrets = secrets })
  expect_status r.error invalid_argument

-- The specs of this file.
abbrev pub publish_specs : List (Spec (Unit {0}))
publish_specs =
    publish_fails_without_volume_id ∷ publish_fails_without_node_id
    ∷ publish_fails_without_capability ∷ publish_fails_over_attach_limit
    ∷ publish_fails_on_missing_volume ∷ publish_fails_on_missing_node
    ∷ publish_fails_on_incompatible ∷ unpublish_fails_without_volume_id ∷ []
