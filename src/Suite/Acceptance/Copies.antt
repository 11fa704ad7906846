-- ===== src/Suite/Acceptance/Copies.antt =====
-- The specs under CreateVolume about copies of a volume or a snapshot, with a driver that conforms.
use csi_test.Prelude.{String, refl, ◌∙◌}
use Prim.Native.String.{◌++◌ as str_append}
use csi_test.Spec.{Env, State}
use csi_test.Requests.{make_create_volume_req, make_create_snapshot_req}
use csi_test.Resources.Liveness.{is_live}
use csi_test.Controller.Create.{
  creates_from_snapshot, create_fails_on_missing_snapshot, creates_from_volume,
  create_fails_on_missing_volume,
}
use csi_test.Controller.Verdicts.Creation.{created_volume, after_create}
use csi_test.Suite.Acceptance.{Conforms, Clear}
use csi_test.Suite.Acceptance.Existing.{holder}
use csi_test.Suite.Acceptance.Leads.{
  Ends, then-Leads, value-Leads, requires-Leads, unique_string-done, unique_volume_id-done,
  asks-done, expect-Ends, expect_status-Ends, named-nonempty, names-differ,
}
use csi_test.Suite.Acceptance.Sources.{
  after_snapshot, must_create_snapshot-done, holds-snapshot, request, source-created, source-live,
  source-nonempty, source-done,
}
use csi_test.Suite.Acceptance.Made.{must_create-done, create_volume-done, Clear-taken, taken-other}

module _ (e : Env) (c : Conforms e) where
  pub creates_from_volume-Ends : (s : State) → Clear s → Ends e creates_from_volume s
  unfolding creates_from_volume make_create_volume_req
  creates_from_volume-Ends s clear =
      let source : String = "sanity-controller-source-vol" in
      let copy : String = "sanity-controller-vol-from-vol" in
      then-Leads e _ _ s (requires-Leads e _ s (λ o. o.volumes) c.queries clear) λ t s0 clear0.
        then-Leads e _ _ s0 (requires-Leads e _ s0 (λ o. o.clones) c.queries clear0) λ t' s1 clear1.
          let req = request e c (str_append source e.unique_suffix) in
          let r = e.client.create_volume s1.history req in
          let ok = source-created e c _ s1 (named-nonempty source e.unique_suffix refl) clear1 in
          let s2 = after_create req e s1 in
          value-Leads e _ _ s1 (asks-done e _ s1) (
            value-Leads e _ _ s1 (unique_string-done e source s1) (
              value-Leads e _ _ s1 (must_create-done e req s1 ok) (
                value-Leads e _ _ s2 (unique_string-done e copy s2) (
                  value-Leads e _ _ s2 (create_volume-done e _ s2) (
                    expect-Ends e _ _ (
                      c.copies_volume s2.history _ (created_volume r.response).volume_id
                        (named-nonempty copy e.unique_suffix refl) refl refl
                        (taken-other _ req r s1 clear1 ok
                          (names-differ source copy e.unique_suffix refl))
                        (source-live e c _ s1 ok)))))))

  pub create_fails_on_missing_volume-Ends :
      (s : State) → Clear s → Ends e create_fails_on_missing_volume s
  unfolding create_fails_on_missing_volume make_create_volume_req
  create_fails_on_missing_volume-Ends s clear =
      let prefix : String = "sanity-controller-vol-from-snap" in
      then-Leads e _ _ s (requires-Leads e _ s (λ o. o.volumes) c.queries clear) λ t s0 clear0.
        then-Leads e _ _ s0 (requires-Leads e _ s0 (λ o. o.clones) c.queries clear0) λ t' s1 clear1.
          let missing = e.sc.config.id_gen.unique_valid_volume_id s1.generated in
          value-Leads e _ _ s1 (asks-done e _ s1) (
            value-Leads e _ _ s1 (unique_string-done e prefix s1) (
              value-Leads e _ _ s1 (unique_volume_id-done e s1) (
                value-Leads e _ _ _ (create_volume-done e _ _) (
                  expect_status-Ends e _ _ _ (
                    c.copies_no_volume s1.history _ missing
                      (named-nonempty prefix e.unique_suffix refl) refl refl
                      (Clear-taken _ s1 clear1) (clear1.volumes missing))))))

  pub create_fails_on_missing_snapshot-Ends :
      (s : State) → Clear s → Ends e create_fails_on_missing_snapshot s
  unfolding create_fails_on_missing_snapshot make_create_volume_req
  create_fails_on_missing_snapshot-Ends s clear =
      let prefix : String = "sanity-controller-vol-from-snap" in
      let missing : String = "non-existing-snapshot-id" in
      then-Leads e _ _ s (requires-Leads e _ s (λ o. o.volumes) c.queries clear) λ t s0 clear0.
        then-Leads e _ _ s0 (requires-Leads e _ s0 (λ o. o.snapshots) c.queries clear0)
          λ t' s1 clear1. value-Leads e _ _ s1 (asks-done e _ s1) (
            value-Leads e _ _ s1 (unique_string-done e prefix s1) (
              value-Leads e _ _ s1 (create_volume-done e _ s1) (
                expect_status-Ends e _ _ _ (
                  c.copies_no_snapshot s1.history _ missing
                    (named-nonempty prefix e.unique_suffix refl) refl refl (Clear-taken _ s1 clear1)
                    (clear1.snapshots missing)))))

  pub creates_from_snapshot-Ends : (s : State) → Clear s → Ends e creates_from_snapshot s
  unfolding creates_from_snapshot make_create_volume_req make_create_snapshot_req is_live holder
  creates_from_snapshot-Ends s clear =
      let source : String = "sanity-controller-source-vol" in
      let copy : String = "sanity-controller-vol-from-snap" in
      let snap : String = "sanity-controller-snap-from-vol" in
      then-Leads e _ _ s (requires-Leads e _ s (λ o. o.volumes) c.queries clear) λ t s0 clear0.
        then-Leads e _ _ s0 (requires-Leads e _ s0 (λ o. o.snapshots) c.queries clear0)
          λ t' s1 clear1.
            let req = request e c (str_append source e.unique_suffix) in
            let r = e.client.create_volume s1.history req in
            let ok = source-created e c _ s1 (named-nonempty source e.unique_suffix refl) clear1 in
            let s2 = after_create req e s1 in
            let snap_req =
              make_create_snapshot_req e.sc (str_append snap e.unique_suffix)
                (created_volume r.response).volume_id in
            let snap_ok =
              c.snapshots s2.history snap_req (named-nonempty snap e.unique_suffix refl)
                (source-nonempty e c _ s1 ok) (source-live e c _ s1 ok) clear1.snapshots in
            let (x, snapped_x, live) = must_create_snapshot-done snap_req e s2 snap_ok in
            let s3 = after_snapshot snap_req e s2 in
            let name = str_append copy e.unique_suffix in
            value-Leads e _ _ s1 (asks-done e _ s1) (
              value-Leads e _ _ s1 (unique_string-done e source s1) (
                value-Leads e _ _ s1 (unique_string-done e snap s1) (
                  value-Leads e _ _ s1 (source-done e c _ _ s1 ok snapped_x) (
                    value-Leads e _ _ s3 (unique_string-done e copy s3) (
                      value-Leads e _ _ s3 (create_volume-done e _ s3) (
                        expect-Ends e _ _ (
                          c.copies_snapshot s3.history _ x.snapshot_id
                            (named-nonempty copy e.unique_suffix refl) refl refl
                            (holds-snapshot (holder name s2.history) snap_req _ s2.history
                              ∙ taken-other name req r s1 clear1 ok
                                  (names-differ source copy e.unique_suffix refl))
                            live)))))))
