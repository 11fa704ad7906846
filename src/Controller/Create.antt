-- ===== src/Controller/Create.antt =====
-- pkg/sanity/controller.go: the specs under CreateVolume.
pub mod Invariant
use Prim.Native.String.{◌++◌ as str_append}
use csi_test.Prelude.{List, ℕ, zero, suc, String, not, ◌&&◌, ◌||◌, [], ◌∷◌, some, eqb, ◌==◌}
use csi_test.Prelude.Int.{add64}
use csi_test.Csi.Status.{
  invalid_argument, not_found, already_exists, out_of_range, unimplemented, status_code,
  from_error_ok,
}
use csi_test.Csi.Messages.{zero_create_volume, from_snapshot, from_volume}
use csi_test.Csi.ControllerCapability
use csi_test.Spec.{Spec, pure, asks, expect, expect_some, expect_no_error, skip_if, ◌>>=◌, ◌>>◌}
use csi_test.Requests.{
  secret, test_volume_size, make_create_volume_req, unique_string, unique_volume_id,
  max_name_length,
}
use csi_test.Resources.{create_volume, must_create_volume, must_create_snapshot_from_volume_request}
use csi_test.Assert.{expect_status, requires, writer_request, at_least, exactly, covers}

unfoldable pub create_fails_without_name : Spec (Unit {0})
create_fails_without_name = do
  requires ControllerCapability.create_delete_volume
  sc ← asks (λ e. e.sc)
  secrets ← secret (λ x. x.create_volume_secret)
  r ← create_volume (record zero_create_volume {
    secrets = secrets;
    parameters = sc.config.test_volume_parameters;
  })
  expect_status r.error invalid_argument

unfoldable pub create_fails_without_capabilities : Spec (Unit {0})
create_fails_without_capabilities = do
  requires ControllerCapability.create_delete_volume
  name ← unique_string "sanity-controller-create-no-volume-capabilities"
  sc ← asks (λ e. e.sc)
  secrets ← secret (λ x. x.create_volume_secret)
  r ← create_volume (record zero_create_volume {
    name = name;
    secrets = secrets;
    parameters = sc.config.test_volume_parameters;
  })
  expect_status r.error invalid_argument

unfoldable pub creates_without_capacity : Spec (Unit {0})
creates_without_capacity = do
  requires ControllerCapability.create_delete_volume
  name ← unique_string "sanity-controller-create-single-no-capacity"
  sc ← asks (λ e. e.sc)
  req ← writer_request name (at_least (test_volume_size sc))
  must_create_volume req
  pure tt

unfoldable pub creates_with_capacity : Spec (Unit {0})
creates_with_capacity = do
  requires ControllerCapability.create_delete_volume
  name ← unique_string "sanity-controller-create-single-with-capacity"
  sc ← asks (λ e. e.sc)
  req ← writer_request name (at_least (test_volume_size sc))
  vol ← create_volume req
  skip_if (
      from_error_ok vol.error
      && (eqb (status_code vol.error) out_of_range || eqb (status_code vol.error) unimplemented))
  expect_no_error vol.error
  response ← expect_some vol.response
  volume ← expect_some response.volume
  expect (not (volume.volume_id == ""))
  expect (covers (test_volume_size sc) volume.capacity_bytes)

unfoldable pub creates_twice : Spec (Unit {0})
creates_twice = do
  requires ControllerCapability.create_delete_volume
  name ← unique_string "sanity-controller-create-twice"
  sc ← asks (λ e. e.sc)
  req1 ← writer_request name (at_least (test_volume_size sc))
  vol1 ← must_create_volume req1
  expect (covers (test_volume_size sc) vol1.capacity_bytes)
  req2 ← writer_request name (at_least (test_volume_size sc))
  vol2 ← must_create_volume req2
  expect (covers (test_volume_size sc) vol2.capacity_bytes)
  expect (vol1.volume_id == vol2.volume_id)

unfoldable pub create_fails_on_other_capacity : Spec (Unit {0})
create_fails_on_other_capacity = do
  requires ControllerCapability.create_delete_volume
  name ← unique_string "sanity-controller-create-twice-different"
  sc ← asks (λ e. e.sc)
  req1 ← writer_request name (exactly (test_volume_size sc))
  must_create_volume req1
  req2 ← writer_request name (exactly (add64 (test_volume_size sc) (test_volume_size sc)))
  r ← create_volume req2
  expect_status r.error already_exists

-- A text of `n` letters a.
unfoldable pub letters : ℕ → String
letters zero = ""
letters (suc n) = str_append "a" (letters n)

unfoldable pub creates_with_longest_name : Spec (Unit {0})
unfolding letters
creates_with_longest_name = do
  requires ControllerCapability.create_delete_volume
  sc ← asks (λ e. e.sc)
  req ← writer_request (letters max_name_length) (at_least (test_volume_size sc))
  vol ← must_create_volume req
  expect (covers (test_volume_size sc) vol.capacity_bytes)

unfoldable pub creates_from_snapshot : Spec (Unit {0})
creates_from_snapshot = do
  requires ControllerCapability.create_delete_volume
  requires ControllerCapability.create_delete_snapshot
  sc ← asks (λ e. e.sc)
  vol1_name ← unique_string "sanity-controller-source-vol"
  snap_name ← unique_string "sanity-controller-snap-from-vol"
  (snap, vol) ←
      must_create_snapshot_from_volume_request (make_create_volume_req sc vol1_name) snap_name
  vol2_name ← unique_string "sanity-controller-vol-from-snap"
  r ← create_volume (record (make_create_volume_req sc vol2_name) {
    volume_content_source = some (from_snapshot snap.snapshot_id);
  })
  expect_no_error r.error

unfoldable pub create_fails_on_missing_snapshot : Spec (Unit {0})
create_fails_on_missing_snapshot = do
  requires ControllerCapability.create_delete_volume
  requires ControllerCapability.create_delete_snapshot
  sc ← asks (λ e. e.sc)
  name ← unique_string "sanity-controller-vol-from-snap"
  r ← create_volume (record (make_create_volume_req sc name) {
    volume_content_source = some (from_snapshot "non-existing-snapshot-id");
  })
  expect_status r.error not_found

unfoldable pub creates_from_volume : Spec (Unit {0})
creates_from_volume = do
  requires ControllerCapability.create_delete_volume
  requires ControllerCapability.clone_volume
  sc ← asks (λ e. e.sc)
  vol1_name ← unique_string "sanity-controller-source-vol"
  volume1 ← must_create_volume (make_create_volume_req sc vol1_name)
  vol2_name ← unique_string "sanity-controller-vol-from-vol"
  r ← create_volume (record (make_create_volume_req sc vol2_name) {
    volume_content_source = some (from_volume volume1.volume_id);
  })
  expect_no_error r.error

unfoldable pub create_fails_on_missing_volume : Spec (Unit {0})
create_fails_on_missing_volume = do
  requires ControllerCapability.create_delete_volume
  requires ControllerCapability.clone_volume
  sc ← asks (λ e. e.sc)
  name ← unique_string "sanity-controller-vol-from-snap"
  missing ← unique_volume_id
  r ← create_volume (record (make_create_volume_req sc name) {
    volume_content_source = some (from_volume missing);
  })
  expect_status r.error not_found

-- The specs of this file.
abbrev pub create_specs : List (Spec (Unit {0}))
create_specs =
    create_fails_without_name ∷ create_fails_without_capabilities ∷ creates_without_capacity
    ∷ creates_with_capacity ∷ creates_twice ∷ create_fails_on_other_capacity
    ∷ creates_with_longest_name ∷ creates_from_snapshot ∷ create_fails_on_missing_snapshot
    ∷ creates_from_volume ∷ create_fails_on_missing_volume ∷ []
