-- ===== src/Controller/Verdicts/Creation.antt =====
-- What a driver has to reply for the specs to pass that create a volume and then ask about it again.
use Prim.Native.String.{◌++◌ as str_append}
use csi_test.Prelude.{
  String, Bool, true, false, not, ◌&&◌, refl, ◌≡◌, [], ◌∷◌, Option, none, some, is_none, arith,
  ◌==◌, Option-cases, inl, inr, ap, ◌∙◌, if◌then◌else◌,
}
use csi_test.Prelude.Int.{ℤ, pos, eqb_ℤ, add64}
use csi_test.Csi.Status.{Reply, already_exists}
use csi_test.Csi.Messages.{
  Volume, CreateVolumeRequest, CreateVolumeResponse, CapacityRange, zero_create_volume,
  ControllerExpandVolumeRequest, ControllerExpandVolumeResponse,
}
use csi_test.Csi.Client.{on_create_volume}
use csi_test.Csi.ControllerCapability
use csi_test.Config.{CsiSecrets}
use csi_test.Spec.{Env, State, done, failed, volume_info, ◌>>=◌}
use csi_test.Rpc
use csi_test.Requests.{
  secret, unique_string, test_volume_size, test_volume_expand_size, writer_capability,
}
use csi_test.Resources.{
  create_volume, must_create_volume, created_volume_id, volume_id_of, register_volume, add_resource,
}
use csi_test.Assert.{expect_status, writer_request, at_least, exactly, covers}
use csi_test.Controller.Create.{creates_twice, create_fails_on_other_capacity}
use csi_test.Controller.Expand.{expands_volume}
use csi_test.Controller.Verdicts.{Answers, asked, is_status_error, requires-eq}

-- The request with which the specs create a volume.
abbrev pub named_request : Env → CsiSecrets → String → Option CapacityRange → CreateVolumeRequest
named_request e secrets prefix range = record zero_create_volume {
  name = str_append prefix e.unique_suffix;
  volume_capabilities = writer_capability e.sc ∷ [];
  capacity_range = range;
  secrets = secrets.create_volume_secret;
  parameters = e.sc.config.test_volume_parameters;
}

-- A reply with a volume that has an ID.
abbrev pub created : Reply CreateVolumeResponse → Bool
created r = is_none r.error && not (created_volume_id r.response == "")

abbrev pub volume_or_zero : Option Volume → Volume
volume_or_zero none = record { capacity_bytes = pos 0; volume_id = ""; volume_context = [] }
volume_or_zero (some v) = v

-- The volume of a response, with zero values where there is none.
abbrev pub created_volume : Option CreateVolumeResponse → Volume
created_volume none = volume_or_zero none
created_volume (some r) = volume_or_zero r.volume

pub created_volume-id :
    (response : Option CreateVolumeResponse)
    → (created_volume response).volume_id ≡ created_volume_id response
created_volume-id none = refl
created_volume-id (some r) = go r.volume
  where
    go : (v : Option Volume) → (volume_or_zero v).volume_id ≡ volume_id_of v
    go none = refl
    go (some v) = refl

-- The state after a CreateVolume.
abbrev pub after_create : CreateVolumeRequest → Env → State → State
after_create req e s =
    let r = e.client.create_volume s.history req in
    let id = created_volume_id r.response in
    record s {
      history = on_create_volume req r ∷ s.history;
      managed = if created r then add_resource id (volume_info "") s.managed else s.managed;
    }

pub must_create_volume-eq :
    (req : CreateVolumeRequest) (e : Env) (s : State)
    → let r = e.client.create_volume s.history req in
      must_create_volume req e s
      ≡ ((if created r then done (created_volume r.response) else failed), after_create req e s)
unfolding must_create_volume create_volume Rpc.create_volume register_volume ◌>>=◌
must_create_volume-eq req e s =
    let r = e.client.create_volume s.history req in
    elim (Option-cases r.response) [
      | inl absent ↦
          let no_id : (created_volume_id r.response == "") ≡ true =
            ap (λ o. created_volume_id o == "") absent in
          ground (arith, absent, no_id)
      | inr (response, present) ↦ (elim (Option-cases response.volume) [
        | inl absent ↦
            let no_id : (created_volume_id r.response == "") ≡ true =
              ap (λ o. created_volume_id o == "") present ∙ ap (λ o. volume_id_of o == "") absent in
            ground (arith, present, absent, no_id)
        | inr (volume, there) ↦ ground (arith, present, there)
      ])
    ]

abbrev capacity_is : ℤ → Option ControllerExpandVolumeResponse → Bool
capacity_is size none = false
capacity_is size (some r) = eqb_ℤ r.capacity_bytes size

-- A reply to an expansion with a capacity.
abbrev pub expands_to : ℤ → Reply ControllerExpandVolumeResponse → Bool
expands_to size r = is_none r.error && capacity_is size r.response

pub writer_request-done :
    (e : Env) (s : State) (secrets : CsiSecrets) (name : String) (range : Option CapacityRange)
    → e.sc.secrets ≡ some secrets
    → writer_request name range e s ≡ (
      done (record zero_create_volume {
        name = name;
        volume_capabilities = writer_capability e.sc ∷ [];
        capacity_range = range;
        secrets = secrets.create_volume_secret;
        parameters = e.sc.config.test_volume_parameters;
      }),
      s,
    )
unfolding writer_request secret ◌>>=◌
writer_request-done e s secrets name range h = ground (arith, h)

-- "should not fail when requesting to create a volume with already existing name and same capacity"
-- passes exactly if the driver replies to two equal requests with volumes that have the same
-- non-empty ID and no capacity other than zero below the configured one.
pub creates_twice-eq :
    (e : Env) (s : State) (a : Answers ControllerCapability.create_delete_volume true e)
    → (creates_twice e s).0 ≡ (
        let size = test_volume_size e.sc in
        let req = named_request e a.secrets "sanity-controller-create-twice" (at_least size) in
        let h = (asked e s).history in
        let r1 = e.client.create_volume h req in
        let r2 = e.client.create_volume (on_create_volume req r1 ∷ h) req in
        if created r1
          && covers size ((created_volume r1.response).capacity_bytes)
          && created r2
          && covers size ((created_volume r2.response).capacity_bytes)
          && created_volume_id r1.response == created_volume_id r2.response
        then done tt
        else failed)
unfolding creates_twice unique_string ◌>>=◌
creates_twice-eq e s a =
    let size = test_volume_size e.sc in
    let name = str_append "sanity-controller-create-twice" e.unique_suffix in
    let req = named_request e a.secrets "sanity-controller-create-twice" (at_least size) in
    let s1 = asked e s in
    let s2 = after_create req e s1 in
    ground (
      arith,
      requires-eq ControllerCapability.create_delete_volume true e s a,
      writer_request-done e s1 a.secrets name (at_least size) a.has_secrets,
      must_create_volume-eq req e s1,
      writer_request-done e s2 a.secrets name (at_least size) a.has_secrets,
      must_create_volume-eq req e s2,
    )

-- "should fail when requesting to create a volume with already existing name and different capacity"
-- passes exactly if the driver creates a volume with an ID, and then refuses the same name with twice
-- the size, by a status error AlreadyExists.
pub create_fails_on_other_capacity-eq :
    (e : Env) (s : State) (a : Answers ControllerCapability.create_delete_volume true e)
    → (create_fails_on_other_capacity e s).0 ≡ (
        let size = test_volume_size e.sc in
        let prefix : String = "sanity-controller-create-twice-different" in
        let req1 = named_request e a.secrets prefix (exactly size) in
        let req2 = named_request e a.secrets prefix (exactly (add64 size size)) in
        let h = (asked e s).history in
        let r1 = e.client.create_volume h req1 in
        let r2 = e.client.create_volume (on_create_volume req1 r1 ∷ h) req2 in
        if created r1 && is_status_error already_exists r2.error then done tt else failed)
unfolding create_fails_on_other_capacity create_volume Rpc.create_volume register_volume
    unique_string expect_status ◌>>=◌
create_fails_on_other_capacity-eq e s a =
    let size = test_volume_size e.sc in
    let prefix : String = "sanity-controller-create-twice-different" in
    let name = str_append prefix e.unique_suffix in
    let req = named_request e a.secrets prefix (exactly size) in
    let s1 = asked e s in
    let s2 = after_create req e s1 in
    ground (
      arith,
      requires-eq ControllerCapability.create_delete_volume true e s a,
      writer_request-done e s1 a.secrets name (exactly size) a.has_secrets,
      must_create_volume-eq req e s1,
      writer_request-done e s2 a.secrets name (exactly (add64 size size)) a.has_secrets,
    )

-- "should work" of ExpandVolume passes exactly if the driver creates a volume with an ID, and then
-- expands the volume with that ID to exactly the capacity that is asked for.
pub expands_volume-eq :
    (e : Env) (s : State) (a : Answers ControllerCapability.expand_volume true e)
    → (expands_volume e s).0 ≡ (
        let size = at_least (test_volume_size e.sc) in
        let req1 = named_request e a.secrets "sanity-expand-volume" size in
        let h = (asked e s).history in
        let r1 = e.client.create_volume h req1 in
        let req2 : ControllerExpandVolumeRequest = record {
          volume_id = created_volume_id r1.response;
          capacity_range = at_least (test_volume_expand_size e.sc);
          secrets = a.secrets.controller_expand_volume_secret;
          volume_capability = some (writer_capability e.sc);
        } in
        let r2 = e.client.controller_expand (on_create_volume req1 r1 ∷ h) req2 in
        if created r1 && expands_to (test_volume_expand_size e.sc) r2 then done tt else failed)
unfolding expands_volume Rpc.controller_expand secret unique_string ◌>>=◌
expands_volume-eq e s a =
    let size = at_least (test_volume_size e.sc) in
    let name = str_append "sanity-expand-volume" e.unique_suffix in
    let req = named_request e a.secrets "sanity-expand-volume" size in
    let s1 = asked e s in
    ground (
      arith,
      a.has_secrets,
      requires-eq ControllerCapability.expand_volume true e s a,
      writer_request-done e s1 a.secrets name size a.has_secrets,
      must_create_volume-eq req e s1,
      created_volume-id (e.client.create_volume s1.history req).response,
    )
