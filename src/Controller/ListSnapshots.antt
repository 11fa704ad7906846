-- ===== src/Controller/ListSnapshots.antt =====
-- pkg/sanity/controller.go: the specs of ListSnapshots.
pub mod Invariant
use Prim.Native.String.{◌++◌ as str_append}
use csi_test.Prelude.{
  ℕ, zero, suc, ◌+◌, ◌-◌, String, List, [], ◌∷◌, Option, some, is_empty, length, eqb, ◌==◌,
}
use csi_test.Prelude.Int.{pos}
use csi_test.Csi.Snapshots.{
  Snapshot, ListSnapshotsRequest, ListSnapshotsResponse, zero_list_snapshots,
}
use csi_test.Csi.ControllerCapability
use csi_test.Spec.{Spec, pure, fail, asks, expect, expect_some, expect_no_error, ◌>>=◌, ◌>>◌}
use csi_test.Rpc
use csi_test.Requests.{secret_or_nil, make_create_volume_req, unique_volume_id}
use csi_test.Resources.{
  verify_snapshot_info, delete_snapshot, must_create_snapshot_from_volume_request,
}
use csi_test.Assert.{requires, itoa}

-- A ListSnapshots call with the secrets of the context, and the assertions that it succeeds.
unfoldable pub list_snapshots : ListSnapshotsRequest → Spec ListSnapshotsResponse
list_snapshots req = do
  sc ← asks (λ e. e.sc)
  r ←
      Rpc.list_snapshots
        (record req { secrets = secret_or_nil (λ x. x.list_snapshots_secret) sc.secrets })
  expect_no_error r.error
  expect_some r.response

unfoldable pub verify_snapshots : List (Option Snapshot) → Spec (Unit {0})
verify_snapshots [] = pure tt
verify_snapshots (s ∷ snaps) = do verify_snapshot_info s; verify_snapshots snaps

unfoldable pub lists_snapshots : Spec (Unit {0})
lists_snapshots = do
  requires ControllerCapability.list_snapshots
  snapshots ← list_snapshots zero_list_snapshots
  verify_snapshots snapshots.entries

-- A volume and a snapshot of it, with the names of the source.
unfoldable pub make_snapshot : String → String → Spec Snapshot
make_snapshot volume_name snapshot_name = do
  sc ← asks (λ e. e.sc)
  (snap, vol) ←
      must_create_snapshot_from_volume_request (make_create_volume_req sc volume_name) snapshot_name
  pure snap

-- The target snapshot between two that are unrelated.
unfoldable pub make_target : Spec Snapshot
make_target = do
  make_snapshot "listSnapshots-volume-unrelated1" "listSnapshots-snapshot-unrelated1"
  snap ← make_snapshot "listSnapshots-volume-target" "listSnapshots-snapshot-target"
  make_snapshot "listSnapshots-volume-unrelated2" "listSnapshots-snapshot-unrelated2"
  pure snap

-- HaveLen(1), with the only entry.
unfoldable pub expect_one : List (Option Snapshot) → Spec (Option Snapshot)
expect_one [] = fail
expect_one (s ∷ []) = pure s
expect_one (s ∷ t ∷ snaps) = fail

unfoldable pub lists_by_snapshot_id : Spec (Unit {0})
lists_by_snapshot_id = do
  requires ControllerCapability.list_snapshots
  target ← make_target
  snapshots ← list_snapshots (record zero_list_snapshots { snapshot_id = target.snapshot_id })
  entry ← expect_one snapshots.entries
  snap ← verify_snapshot_info entry
  expect (snap.snapshot_id == target.snapshot_id)

unfoldable pub lists_nothing_for_missing_id : Spec (Unit {0})
lists_nothing_for_missing_id = do
  requires ControllerCapability.list_snapshots
  snapshots ← list_snapshots (record zero_list_snapshots { snapshot_id = "none-exist-id" })
  expect (is_empty snapshots.entries)

unfoldable pub lists_by_source_volume : Spec (Unit {0})
lists_by_source_volume = do
  requires ControllerCapability.list_snapshots
  target ← make_target
  snapshots ←
      list_snapshots (record zero_list_snapshots { source_volume_id = target.source_volume_id })
  entry ← expect_one snapshots.entries
  snap ← verify_snapshot_info entry
  expect (snap.source_volume_id == target.source_volume_id)

unfoldable pub lists_nothing_for_missing_source : Spec (Unit {0})
lists_nothing_for_missing_source = do
  requires ControllerCapability.list_snapshots
  missing ← unique_volume_id
  snapshots ← list_snapshots (record zero_list_snapshots { source_volume_id = missing })
  expect (is_empty snapshots.entries)

unfoldable pub list_shows_new_snapshots : Spec (Unit {0})
list_shows_new_snapshots = do
  requires ControllerCapability.list_snapshots
  before ← list_snapshots zero_list_snapshots
  snap ← make_snapshot "listSnapshots-volume-3" "listSnapshots-snapshot-3"
  verify_snapshot_info (some snap)
  with_new ← list_snapshots zero_list_snapshots
  expect (eqb (length with_new.entries) (length before.entries + 1))
  sc ← asks (λ e. e.sc)
  r ← delete_snapshot (record {
    snapshot_id = snap.snapshot_id;
    secrets = secret_or_nil (λ x. x.delete_snapshot_secret) sc.secrets;
  })
  expect_no_error r.error
  without ← list_snapshots zero_list_snapshots
  expect (eqb (length without.entries) (length before.entries))

-- for i := 1; i <= requiredSnapshots; i++ { … }, with `left` rounds to go and `i` the next number.
unfoldable pub make_snapshots : ℕ → ℕ → Spec (Unit {0})
make_snapshots i zero = pure tt
make_snapshots i (suc left) = do
  snap ← make_snapshot (str_append "volume" (itoa i)) (str_append "snapshot" (itoa i))
  verify_snapshot_info (some snap)
  make_snapshots (suc i) left

abbrev pub min_snapshot_count : ℕ
min_snapshot_count = 5

abbrev pub page_size : ℕ
page_size = 2

unfoldable pub list_pages : Spec (Unit {0})
list_pages = do
  requires ControllerCapability.list_snapshots
  before ← list_snapshots zero_list_snapshots
  let initial = length before.entries
  make_snapshots 1 (min_snapshot_count - initial)
  let current = initial + (min_snapshot_count - initial)
  page ← list_snapshots (record zero_list_snapshots { max_entries = pos page_size })
  expect (eqb (length page.entries) page_size)
  rest ← list_snapshots (record zero_list_snapshots { starting_token = page.next_token })
  expect (eqb (length rest.entries) (current - page_size))

-- The specs of this file.
abbrev pub list_snapshots_specs : List (Spec (Unit {0}))
list_snapshots_specs =
    lists_snapshots ∷ lists_by_snapshot_id ∷ lists_nothing_for_missing_id ∷ lists_by_source_volume
    ∷ lists_nothing_for_missing_source ∷ list_shows_new_snapshots ∷ list_pages ∷ []
