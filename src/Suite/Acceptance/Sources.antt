-- ===== src/Suite/Acceptance/Sources.antt =====
-- What the creation of a volume and of a snapshot of it leaves, with a driver that conforms.
use csi_test.Prelude.{
  String, true, false, ◌≡◌, inl, inr, refl, ap, ◌∙◌, List, ◌∷◌, Option, none, some, Option-cases,
  arith, ◌==◌, eq_refl,
}
use mathlib.Core.Bool.{false≢true}
use csi_test.Csi.Messages.{Volume, CreateVolumeRequest}
use csi_test.Csi.Snapshots.{Snapshot, CreateSnapshotRequest, CreateSnapshotResponse}
use csi_test.Csi.Client.{Event, on_create_volume, on_create_snapshot}
use csi_test.Csi.Status.{Reply}
use csi_test.Rpc
use csi_test.Spec.{Env, State, Spec, done, asks, pure, snapshot_info, ◌>>=◌}
use csi_test.Config.{TestContext}
use csi_test.Spec.Returns.{bind-done}
use csi_test.Requests.{make_create_volume_req, make_create_snapshot_req}
use csi_test.Resources.{
  created_snapshot_id, snapshot_id_of, create_snapshot, register_snapshot, must_create_volume,
  must_create_snapshot, must_create_snapshot_from_volume_request, verify_snapshot_info,
  add_resource,
}
use csi_test.Resources.Tracking.{volume, snapshot}
use csi_test.Resources.Liveness.{is_live}
use csi_test.Controller.Verdicts.Creation.{created, created_volume, created_volume-id, after_create}
use csi_test.Suite.Acceptance.{Conforms, Clear}
use csi_test.Suite.Acceptance.Existing.{Holder, holds, snapped, is_whole, original, snapped_as}
use csi_test.Suite.Acceptance.Leads.{asks-done}
use csi_test.Suite.Acceptance.Made.{must_create-done, live-created, Clear-taken, created-nonempty}

-- The parts of a reply with a snapshot.
snapped-parts :
    (r : Reply CreateSnapshotResponse)
    → snapped r ≡ true
    → (response : CreateSnapshotResponse) × (x : Snapshot) × (r.error ≡ none)
      × (r.response ≡ some response)
      × (response.snapshot ≡ some x)
      × (is_whole (some x) ≡ true)
snapped-parts r ok = elim (Option-cases r.response) [
  | inl absent ↦ absurd (false≢true (ground (arith, ok, absent)))
  | inr (response, present) ↦ (elim (Option-cases response.snapshot) [
    | inl absent ↦ absurd (false≢true (ground (arith, ok, present, absent)))
    | inr (x, there) ↦
        (response, x, ground (arith, ok), present, there, ground (arith, ok, present, there))
  ])
]

-- The state after a CreateSnapshot that the driver has carried out.
abbrev pub after_snapshot : CreateSnapshotRequest → Env → State → State
after_snapshot req e s =
    let r = e.client.create_snapshot s.history req in
    record s {
      history = on_create_snapshot req r ∷ s.history;
      managed = add_resource (created_snapshot_id r.response) snapshot_info s.managed;
    }

pub must_create_snapshot-done :
    (req : CreateSnapshotRequest) (e : Env) (s : State)
    → snapped (e.client.create_snapshot s.history req) ≡ true
    → (x : Snapshot) × (must_create_snapshot req e s ≡ (done x, after_snapshot req e s))
      × (is_live snapshot x.snapshot_id (after_snapshot req e s).history ≡ true)
unfolding must_create_snapshot create_snapshot Rpc.create_snapshot register_snapshot
    verify_snapshot_info is_live ◌>>=◌
must_create_snapshot-done req e s ok =
    let r = e.client.create_snapshot s.history req in
    let (response, x, no_error, present, there, whole) = snapped-parts r ok in
    let id : created_snapshot_id r.response ≡ x.snapshot_id =
      ap created_snapshot_id present ∙ ap snapshot_id_of there in
    (
      x,
      ground (arith, no_error, present, there, whole, id),
      ground (arith, no_error, whole, id, eq_refl x.snapshot_id),
    )

-- A snapshot leaves the names of the volumes as they are.
pub holds-snapshot :
    (o : Option Holder) (req : CreateSnapshotRequest) (r : Reply CreateSnapshotResponse)
    (h : List Event)
    → holds o (on_create_snapshot req r ∷ h) ≡ holds o h
unfolding is_live
holds-snapshot none req r h = refl
holds-snapshot (some x) req r h = refl

-- A new snapshot is there, and is the one of its name.
module _ (req : CreateSnapshotRequest) (r : Reply CreateSnapshotResponse) (h : List Event) where
  pub live-snapped :
      snapped r ≡ true
      → is_live snapshot (created_snapshot_id r.response) (on_create_snapshot req r ∷ h) ≡ true
  unfolding is_live
  live-snapped ok =
      let (response, x, no_error, present, there, whole) = snapped-parts r ok in
      let id : created_snapshot_id r.response ≡ x.snapshot_id =
        ap created_snapshot_id present ∙ ap snapshot_id_of there in
      ground (arith, no_error, whole, id, eq_refl x.snapshot_id)

  pub original-snapped :
      snapped r ≡ true → original req.name (on_create_snapshot req r ∷ h) ≡ some (snapped_as req r)
  unfolding original
  original-snapped ok = ground (arith, ok, eq_refl req.name)

module _ (e : Env) (c : Conforms e) where
  abbrev pub request : String → CreateVolumeRequest
  request name = make_create_volume_req e.sc name

  -- The source volume of a copy.
  pub source-created :
      (name : String) (s : State)
      → (name == "") ≡ false
      → Clear s
      → created (e.client.create_volume s.history (request name)) ≡ true
  unfolding make_create_volume_req
  source-created name s named clear =
      (c.creates s.history (request name) named refl refl (Clear-taken _ s clear)).0

  pub source-live :
      (name : String) (s : State)
      → created (e.client.create_volume s.history (request name)) ≡ true
      → let r = e.client.create_volume s.history (request name) in
        is_live volume
          (created_volume r.response).volume_id
          (on_create_volume (request name) r ∷ s.history)
        ≡ true
  source-live name s ok =
      let r = e.client.create_volume s.history (request name) in
      let h = on_create_volume (request name) r ∷ s.history in
      ap (λ i. is_live volume i h) (created_volume-id r.response)
      ∙ live-created (request name) r s.history ok

  pub source-nonempty :
      (name : String) (s : State)
      → created (e.client.create_volume s.history (request name)) ≡ true
      → ((created_volume (e.client.create_volume s.history (request name)).response).volume_id
          == "")
        ≡ false
  source-nonempty name s ok =
      let r = e.client.create_volume s.history (request name) in
      ap (λ i. i == "") (created_volume-id r.response) ∙ created-nonempty r ok

  -- The source volume and its snapshot.
  pub source-done :
      (source name : String) (s : State) {x : Snapshot} {t : State}
      → let r = e.client.create_volume s.history (request source) in
        let s2 = after_create (request source) e s in
        created r ≡ true
        → must_create_snapshot
            (make_create_snapshot_req e.sc name (created_volume r.response).volume_id)
            e
            s2
          ≡ (done x, t)
        → must_create_snapshot_from_volume_request (request source) name e s
          ≡ (done (x, created_volume r.response), t)
  unfolding must_create_snapshot_from_volume_request pure
  source-done source name s ok goes =
      let req = request source in
      let s2 = after_create req e s in
      let v = created_volume (e.client.create_volume s.history req).response in
      let pair : Snapshot → Spec (Snapshot × Volume) = λ snap. pure (snap, v) in
      let rest : TestContext → Spec (Snapshot × Volume) =
        λ sc. must_create_snapshot (make_create_snapshot_req sc name v.volume_id) >>= pair in
      bind-done (must_create_volume req) _ e s (must_create-done e req s ok)
      ∙ (bind-done (asks (λ e. e.sc)) rest e s2 (asks-done e (λ e. e.sc) s2)
          ∙ (bind-done (must_create_snapshot _) pair e s2 goes ∙ refl))
