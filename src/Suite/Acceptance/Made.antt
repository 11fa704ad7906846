-- ===== src/Suite/Acceptance/Made.antt =====
-- What the creation of a volume leaves, with a driver that conforms.
use csi_test.Prelude.{
  String, true, false, not, ◌≡◌, inl, inr, refl, sym, ap, ◌∙◌, List, ◌∷◌, Option, none, some,
  is_some, arith, ◌==◌, Option-cases, if◌then◌else◌, eq_iff, eq_refl,
}
use mathlib.Core.Bool.{false≢true}
use csi_test.Csi.Messages.{CreateVolumeRequest, CreateVolumeResponse, Volume}
use csi_test.Csi.Status.{Reply}
use csi_test.Csi.Client.{Event, on_create_volume}
use csi_test.Spec.{Env, State, done, failed, ◌>>=◌}
use csi_test.Rpc
use csi_test.Resources.{
  created_volume_id, volume_id_of, create_volume, must_create_volume, register_volume,
}
use csi_test.Resources.Tracking.{volume}
use csi_test.Resources.Liveness.{is_live}
use csi_test.Controller.Verdicts.Creation.{
  created, created_volume, volume_or_zero, after_create, must_create_volume-eq,
}
use csi_test.Suite.Acceptance.{Clear}
use csi_test.Suite.Acceptance.Existing.{Holder, holder, holds, without, is_taken}

module _ (e : Env) (req : CreateVolumeRequest) (s : State) where
  abbrev reply : Reply CreateVolumeResponse
  reply = e.client.create_volume s.history req

  pub must_create-done :
      created reply ≡ true
      → must_create_volume req e s ≡ (done (created_volume reply.response), after_create req e s)
  must_create-done ok =
      must_create_volume-eq req e s
      ∙ ap
          (λ b.
            ((if b then done (created_volume reply.response) else failed), after_create req e s))
          ok

  pub create_volume-done : create_volume req e s ≡ (done reply, after_create req e s)
  unfolding create_volume Rpc.create_volume register_volume ◌>>=◌
  create_volume-done = elim (Option-cases reply.response) [
    | inl absent ↦
        let no_id : (created_volume_id reply.response == "") ≡ true =
          ap (λ o. created_volume_id o == "") absent in
        ground (arith, absent, no_id)
    | inr (response, present) ↦ ground (arith, present)
  ]

has_response : (r : Reply CreateVolumeResponse) → created r ≡ true → is_some r.response ≡ true
has_response r ok = elim (Option-cases r.response) [
  | inl absent ↦
      let no_id : (created_volume_id r.response == "") ≡ true =
        ap (λ o. created_volume_id o == "") absent in
      ground (arith, no_id)
  | inr (response, present) ↦ ap is_some present
]

pub created-nonempty :
    (r : Reply CreateVolumeResponse)
    → created r ≡ true
    → (created_volume_id r.response == "") ≡ false
created-nonempty r ok = ground (arith, ok)

module _ (req : CreateVolumeRequest) (r : Reply CreateVolumeResponse) (h : List Event) where
  pub live-created :
      created r ≡ true
      → is_live volume (created_volume_id r.response) (on_create_volume req r ∷ h) ≡ true
  unfolding is_live
  live-created ok = ground (arith, has_response r ok, eq_refl (created_volume_id r.response))

  pub holder-created :
      created r ≡ true
      → holder req.name (on_create_volume req r ∷ h)
        ≡ some (record { request = req; id = created_volume_id r.response })
  unfolding holder
  holder-created ok = ground (arith, ok, eq_refl req.name)

holds-Clear : (o : Option Holder) (s : State) → Clear s → holds o s.history ≡ false
holds-Clear none s clear = refl
holds-Clear (some x) s clear = clear.volumes x.id

-- With no volume at all no name is taken, and then a creation takes its own name only.
pub Clear-taken : (n : String) (s : State) → Clear s → is_taken n s.history ≡ false
Clear-taken n s clear = holds-Clear (holder n s.history) s clear

without-dead :
    (req : CreateVolumeRequest) (r : Reply CreateVolumeResponse) (o : Option Holder) (s : State)
    → Clear s
    → holds (without (created_volume_id r.response) o) (on_create_volume req r ∷ s.history) ≡ false
unfolding is_live
without-dead req r none s clear = refl
without-dead req r (some x) s clear = ground (
  arith,
  clear.volumes x.id,
  eq_iff x.id (created_volume_id r.response),
  eq_iff (created_volume_id r.response) x.id,
)

pub taken-other :
    (n : String) (req : CreateVolumeRequest) (r : Reply CreateVolumeResponse) (s : State)
    → Clear s
    → created r ≡ true
    → (req.name == n) ≡ false
    → is_taken n (on_create_volume req r ∷ s.history) ≡ false
unfolding holder
taken-other n req r s clear ok other =
    let h = on_create_volume req r ∷ s.history in
    let kept : holder n h ≡ without (created_volume_id r.response) (holder n s.history) =
      ground (arith, ok, other) in
    ap (λ o. holds o h) kept ∙ without-dead req r (holder n s.history) s clear

-- The parts of a reply with a volume.
pub created-parts :
    (r : Reply CreateVolumeResponse)
    → created r ≡ true
    → (response : CreateVolumeResponse) × (v : Volume) × (r.error ≡ none)
      × (r.response ≡ some response)
      × (response.volume ≡ some v)
      × (created_volume r.response ≡ v)
      × (not (v.volume_id == "") ≡ true)
created-parts r ok = elim (Option-cases r.response) [
  | inl absent ↦
      let no_id : (created_volume_id r.response == "") ≡ true =
        ap (λ o. created_volume_id o == "") absent in
      absurd (false≢true (ground (arith, ok, no_id)))
  | inr (response, present) ↦ (elim (Option-cases response.volume) [
    | inl absent ↦
        let no_id : (created_volume_id r.response == "") ≡ true =
          ap (λ o. created_volume_id o == "") present ∙ ap (λ o. volume_id_of o == "") absent in
        absurd (false≢true (ground (arith, ok, no_id)))
    | inr (v, there) ↦
        let same = ap created_volume present ∙ ap volume_or_zero there in
        let id : created_volume_id r.response ≡ v.volume_id =
          ap created_volume_id present ∙ ap volume_id_of there in
        let named : not (created_volume_id r.response == "") ≡ true = ground (arith, ok) in
        (
          response,
          v,
          ground (arith, ok),
          present,
          there,
          same,
          ap (λ i. not (i == "")) (sym id) ∙ named,
        )
  ])
]
