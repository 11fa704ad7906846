-- ===== src/Controller/Snapshots.antt =====
-- pkg/sanity/controller.go: the specs of DeleteSnapshot and CreateSnapshot.
pub mod Invariant
use csi_test.Prelude.{List, [], ◌∷◌}
use csi_test.Csi.Status.{invalid_argument, already_exists}
use csi_test.Csi.Snapshots.{zero_create_snapshot}
use csi_test.Csi.ControllerCapability
use csi_test.Spec.{Spec, pure, asks, expect_no_error, ◌>>=◌, ◌>>◌}
use csi_test.Requests.{
  secret_or_nil, make_create_volume_req, make_create_snapshot_req, make_delete_snapshot_req,
  max_name_length,
}
use csi_test.Resources.{
  created_volume_id, create_volume, must_create_volume, create_snapshot, delete_snapshot,
  must_create_snapshot, must_create_snapshot_from_volume_request,
}
use csi_test.Assert.{expect_status, requires}
use csi_test.Controller.Create.{letters}

unfoldable pub delete_snapshot_fails_without_id : Spec (Unit {0})
delete_snapshot_fails_without_id = do
  requires ControllerCapability.create_delete_snapshot
  sc ← asks (λ e. e.sc)
  r ← delete_snapshot (record {
    snapshot_id = "";
    secrets = secret_or_nil (λ x. x.delete_snapshot_secret) sc.secrets;
  })
  expect_status r.error invalid_argument

unfoldable pub delete_snapshot_accepts_invalid_id : Spec (Unit {0})
delete_snapshot_accepts_invalid_id = do
  requires ControllerCapability.create_delete_snapshot
  sc ← asks (λ e. e.sc)
  r ← delete_snapshot (make_delete_snapshot_req sc "reallyfakesnapshotid")
  expect_no_error r.error

unfoldable pub deletes_snapshot : Spec (Unit {0})
deletes_snapshot = do
  requires ControllerCapability.create_delete_snapshot
  sc ← asks (λ e. e.sc)
  vol ← create_volume (make_create_volume_req sc "DeleteSnapshot-volume-1")
  expect_no_error vol.error
  must_create_snapshot
      (make_create_snapshot_req sc "DeleteSnapshot-snapshot-1" (created_volume_id vol.response))
  pure tt

unfoldable pub create_snapshot_fails_without_name : Spec (Unit {0})
create_snapshot_fails_without_name = do
  requires ControllerCapability.create_delete_snapshot
  sc ← asks (λ e. e.sc)
  r ← create_snapshot (record zero_create_snapshot {
    source_volume_id = "testId";
    secrets = secret_or_nil (λ x. x.create_snapshot_secret) sc.secrets;
  })
  expect_status r.error invalid_argument

unfoldable pub create_snapshot_fails_without_source : Spec (Unit {0})
create_snapshot_fails_without_source = do
  requires ControllerCapability.create_delete_snapshot
  sc ← asks (λ e. e.sc)
  r ← create_snapshot (record zero_create_snapshot {
    name = "name";
    secrets = secret_or_nil (λ x. x.create_snapshot_secret) sc.secrets;
  })
  expect_status r.error invalid_argument

unfoldable pub creates_snapshot_twice : Spec (Unit {0})
creates_snapshot_twice = do
  requires ControllerCapability.create_delete_snapshot
  sc ← asks (λ e. e.sc)
  volume ← must_create_volume (make_create_volume_req sc "CreateSnapshot-volume-1")
  must_create_snapshot (make_create_snapshot_req sc "CreateSnapshot-snapshot-1" volume.volume_id)
  must_create_snapshot (make_create_snapshot_req sc "CreateSnapshot-snapshot-1" volume.volume_id)
  pure tt

unfoldable pub create_snapshot_fails_on_other_source : Spec (Unit {0})
create_snapshot_fails_on_other_source = do
  requires ControllerCapability.create_delete_snapshot
  sc ← asks (λ e. e.sc)
  must_create_snapshot_from_volume_request (make_create_volume_req sc "CreateSnapshot-volume-2")
      "CreateSnapshot-snapshot-2"
  volume2 ← must_create_volume (make_create_volume_req sc "CreateSnapshot-volume-3")
  r ← create_snapshot (make_create_snapshot_req sc "CreateSnapshot-snapshot-2" volume2.volume_id)
  expect_status r.error already_exists

unfoldable pub creates_snapshot_with_longest_name : Spec (Unit {0})
creates_snapshot_with_longest_name = do
  requires ControllerCapability.create_delete_snapshot
  sc ← asks (λ e. e.sc)
  volume ← must_create_volume (make_create_volume_req sc "CreateSnapshot-volume-3")
  must_create_snapshot (make_create_snapshot_req sc (letters max_name_length) volume.volume_id)
  must_create_snapshot (make_create_snapshot_req sc (letters max_name_length) volume.volume_id)
  pure tt

-- The specs of this file.
abbrev pub snapshots_specs : List (Spec (Unit {0}))
snapshots_specs =
    delete_snapshot_fails_without_id ∷ delete_snapshot_accepts_invalid_id ∷ deletes_snapshot
    ∷ create_snapshot_fails_without_name ∷ create_snapshot_fails_without_source
    ∷ creates_snapshot_twice ∷ create_snapshot_fails_on_other_source
    ∷ creates_snapshot_with_longest_name ∷ []
