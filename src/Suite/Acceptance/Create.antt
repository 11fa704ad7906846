-- ===== src/Suite/Acceptance/Create.antt =====
-- The specs under CreateVolume, with a driver that conforms.
use csi_test.Prelude.{
  String, true, false, ◌&&◌, ◌≡◌, refl, sym, ap, ◌∙◌, Option, is_none, ◌||◌, eqb, ◌==◌, eq_iff,
}
use csi_test.Prelude.Int.{add64}
use csi_test.Config.{CsiSecrets}
use csi_test.Csi.Messages.{CreateVolumeRequest, CapacityRange}
use csi_test.Csi.Status.{from_error_ok, status_code, out_of_range, unimplemented}
use csi_test.Spec.{Env, State}
use csi_test.Requests.{test_volume_size}
use csi_test.Resources.{created_volume_id}
use csi_test.Assert.{at_least, exactly, covers}
use csi_test.Controller.Create.{
  creates_without_capacity, creates_with_capacity, creates_twice, create_fails_on_other_capacity,
  creates_with_longest_name, letters,
}
use csi_test.Controller.Verdicts.Creation.{
  created, created_volume-id, named_request, after_create, writer_request-done,
}
use csi_test.Suite.Acceptance.{Conforms, Configured, Clear}
use csi_test.Suite.Acceptance.Existing.{has_capacity}
use csi_test.Suite.Acceptance.Leads.{
  Ends, then-Leads, value-Leads, requires-Leads, unique_string-done, asks-done, skip_if-done,
  expect_some-done, expect-done, pure-Ends, expect-Ends, expect_status-Ends, named-nonempty,
}
use csi_test.Suite.Acceptance.Made.{
  must_create-done, create_volume-done, live-created, holder-created, Clear-taken, created-parts,
  created-nonempty,
}

module _ (e : Env) (c : Conforms e) where
  abbrev secrets : CsiSecrets
  secrets = c.queries.secrets

  -- A first request with a prefix.
  abbrev request : String → Option CapacityRange → CreateVolumeRequest
  request prefix range = named_request e secrets prefix range

  new-created :
      (prefix : String) (range : Option CapacityRange) (s : State)
      → (prefix == "") ≡ false
      → Clear s
      → let r = e.client.create_volume s.history (request prefix range) in
        (created r ≡ true) × (has_capacity range r ≡ true)
  new-created prefix range s named clear =
      let (ok, enough, fresh) =
        c.creates s.history (request prefix range) (named-nonempty prefix e.unique_suffix named)
          refl refl (Clear-taken _ s clear) in
      (ok, enough)

  pub creates_without_capacity-Ends : (s : State) → Clear s → Ends e creates_without_capacity s
  unfolding creates_without_capacity
  creates_without_capacity-Ends s clear =
      let prefix : String = "sanity-controller-create-single-no-capacity" in
      let size = at_least (test_volume_size e.sc) in
      then-Leads e _ _ s (requires-Leads e _ s (λ o. o.volumes) c.queries clear) λ t s1 clear1.
        value-Leads e _ _ s1 (unique_string-done e prefix s1) (
          value-Leads e _ _ s1 (asks-done e _ s1) (
            value-Leads e _ _ s1 (writer_request-done e s1 secrets _ size c.queries.has_secrets) (
              value-Leads e _ _ s1
                (must_create-done e _ s1 (new-created prefix size s1 refl clear1).0)
                (pure-Ends e _))))

  pub creates_twice-Ends : (s : State) → Clear s → Ends e creates_twice s
  unfolding creates_twice
  creates_twice-Ends s clear =
      let prefix : String = "sanity-controller-create-twice" in
      let size = at_least (test_volume_size e.sc) in
      let req = request prefix size in
      let has = c.queries.has_secrets in
      then-Leads e _ _ s (requires-Leads e _ s (λ o. o.volumes) c.queries clear) λ t s1 clear1.
        let r = e.client.create_volume s1.history req in
        let first = new-created prefix size s1 refl clear1 in
        let s2 = after_create req e s1 in
        let again =
          c.creates_again s2.history req
            (record { request = req; id = created_volume_id r.response })
            (named-nonempty prefix e.unique_suffix refl) refl (created-nonempty r first.0)
            (holder-created req r s1.history first.0) (live-created req r s1.history first.0)
            refl in
        let r2 = e.client.create_volume s2.history req in
        value-Leads e _ _ s1 (unique_string-done e prefix s1) (
          value-Leads e _ _ s1 (asks-done e _ s1) (
            value-Leads e _ _ s1 (writer_request-done e s1 secrets _ size has) (
              value-Leads e _ _ s1 (must_create-done e req s1 first.0) (
                value-Leads e _ _ s2 (expect-done e _ s2 first.1) (
                  value-Leads e _ _ s2 (writer_request-done e s2 secrets _ size has) (
                    value-Leads e _ _ s2 (must_create-done e req s2 again.0) (
                      value-Leads e _ _ (after_create req e s2) (expect-done e _ _ again.1) (
                        expect-Ends e _ _ (
                          (eq_iff _ _).1 (
                            created_volume-id r.response
                            ∙ sym (created_volume-id r2.response ∙ again.2)))))))))))

  pub creates_with_capacity-Ends : (s : State) → Clear s → Ends e creates_with_capacity s
  unfolding creates_with_capacity
  creates_with_capacity-Ends s clear =
      let prefix : String = "sanity-controller-create-single-with-capacity" in
      let size = at_least (test_volume_size e.sc) in
      let req = request prefix size in
      then-Leads e _ _ s (requires-Leads e _ s (λ o. o.volumes) c.queries clear) λ t s1 clear1.
        let r = e.client.create_volume s1.history req in
        let first = new-created prefix size s1 refl clear1 in
        let (response, v, no_error, present, there, same, named) = created-parts r first.0 in
        let s2 = after_create req e s1 in
        value-Leads e _ _ s1 (unique_string-done e prefix s1) (
          value-Leads e _ _ s1 (asks-done e _ s1) (
            value-Leads e _ _ s1 (writer_request-done e s1 secrets _ size c.queries.has_secrets) (
              value-Leads e _ _ s1 (create_volume-done e req s1) (
                value-Leads e _ _ s2
                  (skip_if-done e _ s2 (
                    ap
                      (λ err.
                        from_error_ok err
                        && (eqb (status_code err) out_of_range
                            || eqb (status_code err) unimplemented))
                      no_error))
                  (value-Leads e _ _ s2 (expect-done e _ s2 (ap is_none no_error)) (
                    value-Leads e _ _ s2 (expect_some-done e _ response s2 present) (
                      value-Leads e _ _ s2 (expect_some-done e _ v s2 there) (
                        value-Leads e _ _ s2 (expect-done e _ s2 named) (
                          expect-Ends e _ s2 (
                            ap (λ w. covers (test_volume_size e.sc) w.capacity_bytes) (sym same)
                            ∙ first.1))))))))))

  pub create_fails_on_other_capacity-Ends :
      Configured e → (s : State) → Clear s → Ends e create_fails_on_other_capacity s
  unfolding create_fails_on_other_capacity
  create_fails_on_other_capacity-Ends k s clear =
      let prefix : String = "sanity-controller-create-twice-different" in
      let size = test_volume_size e.sc in
      let req = request prefix (exactly size) in
      let req2 = request prefix (exactly (add64 size size)) in
      let has = c.queries.has_secrets in
      then-Leads e _ _ s (requires-Leads e _ s (λ o. o.volumes) c.queries clear) λ t s1 clear1.
        let r = e.client.create_volume s1.history req in
        let first = new-created prefix (exactly size) s1 refl clear1 in
        let s2 = after_create req e s1 in
        let refused =
          c.conflicts s2.history req2 (record { request = req; id = created_volume_id r.response })
            size (add64 size size) (named-nonempty prefix e.unique_suffix refl) refl
            (holder-created req r s1.history first.0) (live-created req r s1.history first.0) refl
            refl k.doubles in
        value-Leads e _ _ s1 (unique_string-done e prefix s1) (
          value-Leads e _ _ s1 (asks-done e _ s1) (
            value-Leads e _ _ s1 (writer_request-done e s1 secrets _ (exactly size) has) (
              value-Leads e _ _ s1 (must_create-done e req s1 first.0) (
                value-Leads e _ _ s2
                  (writer_request-done e s2 secrets _ (exactly (add64 size size)) has)
                  (value-Leads e _ _ s2 (create_volume-done e req2 s2)
                    (expect_status-Ends e _ _ _ refused))))))

  pub creates_with_longest_name-Ends : (s : State) → Clear s → Ends e creates_with_longest_name s
  unfolding creates_with_longest_name letters
  creates_with_longest_name-Ends s clear =
      let size = at_least (test_volume_size e.sc) in
      then-Leads e _ _ s (requires-Leads e _ s (λ o. o.volumes) c.queries clear) λ t s1 clear1.
        value-Leads e _ _ s1 (asks-done e _ s1) (
          value-Leads e _ _ s1 (writer_request-done e s1 secrets _ size c.queries.has_secrets) (
            let first = c.creates s1.history _ refl refl refl (Clear-taken _ s1 clear1) in
            value-Leads e _ _ s1 (must_create-done e _ s1 first.0) (expect-Ends e _ _ first.1)))
