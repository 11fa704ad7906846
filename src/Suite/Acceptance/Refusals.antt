-- ===== src/Suite/Acceptance/Refusals.antt =====
-- The specs about volumes and snapshots that leave out a required field, with a driver that conforms.
use csi_test.Prelude.{true, false, ◌≡◌, refl, arith, ◌==◌, is_none}
use csi_test.Csi.Messages.{DeleteVolumeRequest, ControllerExpandVolumeRequest}
use csi_test.Csi.Snapshots.{DeleteSnapshotRequest}
use csi_test.Csi.Client.{
  on_create_volume, on_delete_volume, on_validate, on_controller_expand, on_create_snapshot,
  on_delete_snapshot,
}
use csi_test.Rpc
use csi_test.Rpc.Keeps.{add_event}
use csi_test.Spec.{Env, State, done, expect_error, expect, ◌>>=◌, ◌>>◌}
use csi_test.Resources.{delete_volume, delete_snapshot, unregister_resource}
use csi_test.Controller.Create.{create_fails_without_name, create_fails_without_capabilities}
use csi_test.Controller.Delete.{delete_fails_without_id, validate_fails_without_id}
use csi_test.Controller.Expand.{expand_fails_without_id, expand_fails_without_range}
use csi_test.Controller.Snapshots.{
  delete_snapshot_fails_without_id, create_snapshot_fails_without_name,
  create_snapshot_fails_without_source,
}
use csi_test.Csi.Status.{invalid_argument}
use csi_test.Assert.{expect_status}
use csi_test.Suite.Acceptance.{Conforms, Clear}
use csi_test.Suite.Acceptance.Leads.{
  Ends, then-Leads, value-Leads, requires-Leads, unique_string-done, asks-done, secret-done,
  expect-done, expect_status-Ends,
}
use csi_test.Suite.Acceptance.Made.{create_volume-done}
use csi_test.Suite.Acceptance.Delete.{validate-done, expand-done}
use csi_test.Suite.Acceptance.Snapshots.{create_snapshot-done}

module _ (e : Env) (c : Conforms e) where
  pub create_fails_without_name-Ends : (s : State) → Clear s → Ends e create_fails_without_name s
  unfolding create_fails_without_name
  create_fails_without_name-Ends s clear =
      then-Leads e _ _ s (requires-Leads e _ s (λ o. o.volumes) c.queries clear) λ t s1 clear1.
        value-Leads e _ _ s1 (asks-done e _ s1) (
          value-Leads e _ _ s1 (secret-done e c.queries _ s1) (
            value-Leads e _ _ s1 (create_volume-done e _ s1)
              (expect_status-Ends e _ _ _ (c.strict s1.history (on_create_volume _ _) refl refl))))

  pub create_fails_without_capabilities-Ends :
      (s : State) → Clear s → Ends e create_fails_without_capabilities s
  unfolding create_fails_without_capabilities
  create_fails_without_capabilities-Ends s clear =
      then-Leads e _ _ s (requires-Leads e _ s (λ o. o.volumes) c.queries clear) λ t s1 clear1.
        value-Leads e _ _ s1 (unique_string-done e _ s1) (
          value-Leads e _ _ s1 (asks-done e _ s1) (
            value-Leads e _ _ s1 (secret-done e c.queries _ s1) (
              value-Leads e _ _ s1 (create_volume-done e _ s1) (
                expect_status-Ends e _ _ _
                  (c.strict s1.history (on_create_volume _ _) refl (ground arith))))))

  pub validate_fails_without_id-Ends : (s : State) → Clear s → Ends e validate_fails_without_id s
  unfolding validate_fails_without_id
  validate_fails_without_id-Ends s clear = value-Leads e _ _ s (secret-done e c.queries _ s) (
      value-Leads e _ _ s (validate-done e c _ s)
        (expect_status-Ends e _ _ _ (c.strict s.history (on_validate _ _) refl refl)))

  delete_volume-refused :
      (req : DeleteVolumeRequest) (s : State)
      → is_none (e.client.delete_volume s.history req).error ≡ false
      → delete_volume req e s
        ≡ (done (e.client.delete_volume s.history req), (delete_volume req e s).1)
  unfolding delete_volume Rpc.delete_volume unregister_resource ◌>>=◌
  delete_volume-refused req s failed_call = ground (arith, failed_call)

  pub delete_fails_without_id-Ends : (s : State) → Clear s → Ends e delete_fails_without_id s
  unfolding delete_fails_without_id
  delete_fails_without_id-Ends s clear =
      then-Leads e _ _ s (requires-Leads e _ s (λ o. o.volumes) c.queries clear) λ t s1 clear1.
        let refused = c.strict s1.history (on_delete_volume _ _) refl refl in
        value-Leads e _ _ s1 (secret-done e c.queries _ s1) (
          value-Leads e _ _ s1 (delete_volume-refused _ s1 (ground (arith, refused)))
            (expect_status-Ends e _ _ _ refused))

  delete_snapshot-nothing :
      (req : DeleteSnapshotRequest) (s : State)
      → (req.snapshot_id == "") ≡ true
      → delete_snapshot req e s
        ≡ (done (e.client.delete_snapshot s.history req), (delete_snapshot req e s).1)
  unfolding delete_snapshot Rpc.delete_snapshot ◌>>=◌
  delete_snapshot-nothing req s unnamed = ground (arith, unnamed)

  pub delete_snapshot_fails_without_id-Ends :
      (s : State) → Clear s → Ends e delete_snapshot_fails_without_id s
  unfolding delete_snapshot_fails_without_id
  delete_snapshot_fails_without_id-Ends s clear =
      then-Leads e _ _ s (requires-Leads e _ s (λ o. o.snapshots) c.queries clear) λ t s1 clear1.
        value-Leads e _ _ s1 (asks-done e _ s1) (
          value-Leads e _ _ s1 (delete_snapshot-nothing _ s1 refl)
            (expect_status-Ends e _ _ _ (c.strict s1.history (on_delete_snapshot _ _) refl refl)))

  pub create_snapshot_fails_without_name-Ends :
      (s : State) → Clear s → Ends e create_snapshot_fails_without_name s
  unfolding create_snapshot_fails_without_name
  create_snapshot_fails_without_name-Ends s clear =
      then-Leads e _ _ s (requires-Leads e _ s (λ o. o.snapshots) c.queries clear) λ t s1 clear1.
        value-Leads e _ _ s1 (asks-done e _ s1) (
          value-Leads e _ _ s1 (create_snapshot-done e c _ s1)
            (expect_status-Ends e _ _ _ (c.strict s1.history (on_create_snapshot _ _) refl refl)))

  pub create_snapshot_fails_without_source-Ends :
      (s : State) → Clear s → Ends e create_snapshot_fails_without_source s
  unfolding create_snapshot_fails_without_source
  create_snapshot_fails_without_source-Ends s clear =
      then-Leads e _ _ s (requires-Leads e _ s (λ o. o.snapshots) c.queries clear) λ t s1 clear1.
        value-Leads e _ _ s1 (asks-done e _ s1) (
          value-Leads e _ _ s1 (create_snapshot-done e c _ s1)
            (expect_status-Ends e _ _ _ (c.strict s1.history (on_create_snapshot _ _) refl refl)))

  -- A request without a volume ID.
  expand_refused-Ends :
      (req : ControllerExpandVolumeRequest) (s : State)
      → (req.volume_id == "") ≡ true
      → Ends e
          (do
            r ← Rpc.controller_expand req
            expect_error r.error
            expect (is_none r.response)
            expect_status r.error invalid_argument)
          s
  expand_refused-Ends req s unnamed =
      let r = e.client.controller_expand s.history req in
      let s1 = add_event (on_controller_expand req r) s in
      let refused =
        c.strict s.history (on_controller_expand req r) refl (ground (arith, unnamed)) in
      value-Leads e _ _ s (expand-done e c req s) (
        value-Leads e _ _ s1 (expect-done e _ s1 (ground (arith, refused))) (
          value-Leads e _ _ s1 (expect-done e _ s1 (ground (arith, refused)))
            (expect_status-Ends e _ _ s1 (ground (arith, refused)))))

  pub expand_fails_without_id-Ends : (s : State) → Clear s → Ends e expand_fails_without_id s
  unfolding expand_fails_without_id
  expand_fails_without_id-Ends s clear =
      then-Leads e _ _ s (requires-Leads e _ s (λ o. o.expansion) c.queries clear) λ t s1 clear1.
        value-Leads e _ _ s1 (asks-done e _ s1)
          (value-Leads e _ _ s1 (secret-done e c.queries _ s1) (expand_refused-Ends _ s1 refl))

  pub expand_fails_without_range-Ends : (s : State) → Clear s → Ends e expand_fails_without_range s
  unfolding expand_fails_without_range
  expand_fails_without_range-Ends s clear =
      then-Leads e _ _ s (requires-Leads e _ s (λ o. o.expansion) c.queries clear) λ t s1 clear1.
        value-Leads e _ _ s1 (secret-done e c.queries _ s1) (expand_refused-Ends _ s1 refl)
