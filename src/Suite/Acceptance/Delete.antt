-- ===== src/Suite/Acceptance/Delete.antt =====
-- The specs under DeleteVolume and ValidateVolumeCapabilities, with a driver that conforms.
use csi_test.Prelude.{
  String, true, false, ◌≡◌, refl, sym, ap, ◌∙◌, [], ◌∷◌, Option, none, some, arith, ◌==◌,
}
use mathlib.Core.Bool.{false≢true}
use csi_test.Csi.Messages.{
  DeleteVolumeRequest, ControllerExpandVolumeRequest, CreateVolumeRequest,
  ValidateVolumeCapabilitiesRequest, ValidateVolumeCapabilitiesResponse,
}
use csi_test.Csi.Client.{on_validate, on_controller_expand}
use csi_test.Spec.{Env, State, done, ◌>>=◌}
use csi_test.Spec.Returns.{bind-done}
use csi_test.Rpc
use csi_test.Rpc.Keeps.{add_event}
use csi_test.Requests.{test_volume_size, writer_capability}
use csi_test.Resources.{delete_volume, unregister_resource}
use csi_test.Assert.{at_least}
use csi_test.Controller.Delete.{
  new_volume, delete_accepts_invalid_id, deletes_volume, validate_fails_without_capabilities,
  validates, validate_fails_on_missing_volume, confirms,
}
use csi_test.Controller.Verdicts.Creation.{
  created, created_volume, created_volume-id, named_request, after_create, writer_request-done,
}
use csi_test.Suite.Acceptance.{Conforms, Configured, Clear}
use csi_test.Suite.Acceptance.Existing.{confirms_all}
use csi_test.Suite.Acceptance.Leads.{
  Ends, then-Leads, value-Leads, requires-Leads, unique_string-done, unique_volume_id-done,
  asks-done, secret-done, expect_some-done, expect-done, expect-Ends, expect_status-Ends,
  named-nonempty,
}
use csi_test.Suite.Acceptance.Made.{must_create-done, Clear-taken, created-nonempty}

confirmed-parts :
    (o : Option ValidateVolumeCapabilitiesResponse)
    → confirms_all o ≡ true
    → (r : ValidateVolumeCapabilitiesResponse) × (o ≡ some r) × (confirms r.confirmed ≡ true)
confirmed-parts none h = absurd (false≢true h)
confirmed-parts (some r) h = (r, refl, h)

module _ (e : Env) (c : Conforms e) where
  abbrev request : String → CreateVolumeRequest
  request prefix = named_request e c.queries.secrets prefix (at_least (test_volume_size e.sc))

  new-created :
      (prefix : String) (s : State)
      → (prefix == "") ≡ false
      → Clear s
      → created (e.client.create_volume s.history (request prefix)) ≡ true
  new-created prefix s named clear =
      (c.creates s.history (request prefix) (named-nonempty prefix e.unique_suffix named) refl refl
        (Clear-taken _ s clear)).0

  new_volume-done :
      (prefix : String) (s : State)
      → created (e.client.create_volume s.history (request prefix)) ≡ true
      → new_volume prefix e s ≡ (
        done (created_volume (e.client.create_volume s.history (request prefix)).response),
        after_create (request prefix) e s,
      )
  unfolding new_volume
  new_volume-done prefix s ok =
      bind-done _ _ e s (unique_string-done e prefix s)
      ∙ (bind-done _ _ e s (asks-done e (λ e. e.sc) s)
          ∙ (bind-done _ _ e s (
                writer_request-done e s c.queries.secrets _ (at_least (test_volume_size e.sc))
                  c.queries.has_secrets)
              ∙ must_create-done e (request prefix) s ok))

  delete_volume-done :
      (req : DeleteVolumeRequest) (s : State)
      → (req.volume_id == "") ≡ false
      → delete_volume req e s
        ≡ (done (e.client.delete_volume s.history req), (delete_volume req e s).1)
  unfolding delete_volume Rpc.delete_volume unregister_resource ◌>>=◌
  delete_volume-done req s named = ground (arith, named)

  pub validate-done :
      (req : ValidateVolumeCapabilitiesRequest) (s : State)
      → let r = e.client.validate s.history req in
        Rpc.validate req e s ≡ (done r, add_event (on_validate req r) s)
  unfolding Rpc.validate
  validate-done req s = refl

  pub expand-done :
      (req : ControllerExpandVolumeRequest) (s : State)
      → let r = e.client.controller_expand s.history req in
        Rpc.controller_expand req e s ≡ (done r, add_event (on_controller_expand req r) s)
  unfolding Rpc.controller_expand
  expand-done req s = refl

  pub delete_accepts_invalid_id-Ends :
      Configured e → (s : State) → Clear s → Ends e delete_accepts_invalid_id s
  unfolding delete_accepts_invalid_id
  delete_accepts_invalid_id-Ends k s clear =
      then-Leads e _ _ s (requires-Leads e _ s (λ o. o.volumes) c.queries clear) λ t s1 clear1.
        value-Leads e _ _ s1 (asks-done e _ s1) (
          value-Leads e _ _ s1 (secret-done e c.queries _ s1) (
            value-Leads e _ _ s1 (delete_volume-done _ s1 k.invalid_id)
              (expect-Ends e _ _ (c.deletes_missing s1.history _ k.invalid_id (clear1.volumes _)))))

  pub deletes_volume-Ends : (s : State) → Clear s → Ends e deletes_volume s
  unfolding deletes_volume
  deletes_volume-Ends s clear =
      let prefix : String = "sanity-controller-create-appropriate" in
      then-Leads e _ _ s (requires-Leads e _ s (λ o. o.volumes) c.queries clear) λ t s1 clear1.
        let req = request prefix in
        let r = e.client.create_volume s1.history req in
        let ok = new-created prefix s1 refl clear1 in
        let s2 = after_create req e s1 in
        value-Leads e _ _ s1 (new_volume-done prefix s1 ok) (
          value-Leads e _ _ s2 (secret-done e c.queries _ s2) (
            value-Leads e _ _ s2
              (delete_volume-done _ s2
                (ap (λ i. i == "") (created_volume-id r.response) ∙ created-nonempty r ok))
              (expect-Ends e _ _
                (c.deletes_new s1.history _ req r ok (sym (created_volume-id r.response))))))

  pub validate_fails_without_capabilities-Ends :
      (s : State) → Clear s → Ends e validate_fails_without_capabilities s
  unfolding validate_fails_without_capabilities
  validate_fails_without_capabilities-Ends s clear =
      let prefix : String = "sanity-controller-validate-nocaps" in
      let s1 = after_create (request prefix) e s in
      value-Leads e _ _ s (new_volume-done prefix s (new-created prefix s refl clear)) (
        value-Leads e _ _ s1 (secret-done e c.queries _ s1) (
          value-Leads e _ _ s1 (validate-done _ s1) (
            expect_status-Ends e _ _ _
              (c.strict s1.history (on_validate _ _) refl (ground arith)))))

  pub validates-Ends : (s : State) → Clear s → Ends e validates s
  unfolding validates
  validates-Ends s clear =
      let prefix : String = "sanity-controller-validate" in
      let req = request prefix in
      let r = e.client.create_volume s.history req in
      let ok = new-created prefix s refl clear in
      let s1 = after_create req e s in
      let ask : ValidateVolumeCapabilitiesRequest = record {
        volume_id = (created_volume r.response).volume_id;
        volume_capabilities = writer_capability e.sc ∷ [];
        secrets = c.queries.secrets.controller_validate_volume_capabilities_secret;
      } in
      let v = e.client.validate s1.history ask in
      let s2 = add_event (on_validate ask v) s1 in
      let (no_error, confirmed) =
        c.validates s.history ask req r ok (sym (created_volume-id r.response)) refl refl in
      let (response, present, confirms_it) = confirmed-parts v.response confirmed in
      value-Leads e _ _ s (new_volume-done prefix s ok) (
        value-Leads e _ _ s1 (asks-done e _ s1) (
          value-Leads e _ _ s1 (secret-done e c.queries _ s1) (
            value-Leads e _ _ s1 (validate-done ask s1) (
              value-Leads e _ _ s2 (expect-done e _ s2 no_error) (
                value-Leads e _ _ s2 (expect_some-done e _ response s2 present)
                  (expect-Ends e _ s2 confirms_it))))))

  pub validate_fails_on_missing_volume-Ends :
      Configured e → (s : State) → Clear s → Ends e validate_fails_on_missing_volume s
  unfolding validate_fails_on_missing_volume
  validate_fails_on_missing_volume-Ends k s clear = value-Leads e _ _ s (asks-done e _ s) (
      value-Leads e _ _ s (unique_volume_id-done e s) (
        value-Leads e _ _ _ (secret-done e c.queries _ _) (
          value-Leads e _ _ _ (validate-done _ _) (
            expect_status-Ends e _ _ _ (
              c.validates_no_volume s.history _ (k.unique_ids s.generated) refl
                (clear.volumes _))))))
