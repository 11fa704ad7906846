-- ===== src/Examples/Concurrent.antt =====
-- Interleaved calls of the resource manager.
use csi_test.Prelude.{◌≤◌, ◌+◌, ◌≡◌, refl, List, [], ◌∷◌, ◌++◌, true}
use csi_test.Csi.Messages.{CreateVolumeRequest, DeleteVolumeRequest, zero_create_volume}
use csi_test.Csi.Client.{Event}
use csi_test.Spec.{done}
use csi_test.Resources.Cleanup.{cleanup}
use csi_test.Resources.Cleanup.Order.{deletions}
use csi_test.Resources.Cleanup.Counted.{deletions_of}
use csi_test.Resources.Tracking.{volume}
use csi_test.Resources.Liveness.{is_live}
use csi_test.Resources.Refinement.{count, replay}
use csi_test.Resources.Concurrent.{
  create_volume, delete_volume, Locked, register_volume, unregister_resource, locked, System,
  started, begin, commit, fresh_system, Reach, start, next,
}
use csi_test.Resources.Concurrent.Balance.{made, freed, to_add, to_take, interleaved-count}
use csi_test.Resources.Concurrent.Exclusive.{Exclusive, exclusive-cleanup}
use csi_test.Resources.Concurrent.Race.{race-unmanaged}
use csi_test.Examples.Drivers.{env, empty_state, env-CanClean}

abbrev request : CreateVolumeRequest
request = record zero_create_volume { name = "volume" }

abbrev deletion : DeleteVolumeRequest
deletion = record { volume_id = "vol-1"; secrets = [] }

-- Two creations make their calls, and then register.
abbrev both_waiting : System
both_waiting =
    started (create_volume request) env
      (started (create_volume request) env (fresh_system empty_state))

abbrev part : Locked
part = register_volume "vol-1" ""

abbrev both_registered : System
both_registered = record {
  state = (locked part env (locked part env both_waiting.state).1).1;
  waiting = [];
}

registered-Reach : Reach env empty_state both_registered
registered-Reach =
    let called : Reach env empty_state both_waiting =
      next (next start (begin (create_volume request))) (begin (create_volume request)) in
    next (next called (commit (part ∷ []) part [] refl)) (commit [] part [] refl)

interleaved-count_example :
    (recent : List Event) × (both_registered.state.history ≡ recent ++ empty_state.history)
    × (made "vol-1" recent ≤ count both_registered.state.managed "vol-1" + freed "vol-1" recent)
    × (count both_registered.state.managed "vol-1" ≤ made "vol-1" recent)
interleaved-count_example =
    interleaved-count env empty_state both_registered "vol-1" registered-Reach refl

-- A creation, and a deletion that starts after it.
abbrev one_waiting : System
one_waiting = started (create_volume request) env (fresh_system empty_state)

abbrev registered : System
registered = record { state = (locked part env one_waiting.state).1; waiting = [] }

abbrev deleted : System
deleted =
    let s = (started (delete_volume deletion) env registered).state in
    record { state = (locked (unregister_resource "vol-1") env s).1; waiting = [] }

deleted-Exclusive : Exclusive env empty_state deleted
unfolding to_add to_take
deleted-Exclusive =
    Exclusive.commit
      (Exclusive.begin
        (Exclusive.commit (Exclusive.begin Exclusive.start (create_volume request) (λ v h. refl)) []
          part [] refl)
        (delete_volume deletion) (λ v h. refl))
      [] (unregister_resource "vol-1") [] refl

exclusive-cleanup_example :
    (recent : List Event) × (deleted.state.history ≡ recent ++ empty_state.history)
    × (count deleted.state.managed "vol-1" ≡ replay recent "vol-1")
    × (deletions_of "vol-1" (deletions (cleanup env deleted.state).1.history)
        ≡ replay recent "vol-1" + deletions_of "vol-1" (deletions deleted.state.history))
exclusive-cleanup_example =
    exclusive-cleanup env empty_state deleted "vol-1" env-CanClean deleted-Exclusive refl

race-unmanaged_example :
    (y : System) × Reach env empty_state y
    × (y.waiting ≡ [])
    × (y.state.managed ≡ [])
    × ((cleanup env y.state).0 ≡ done tt)
    × (is_live volume "vol-1" (cleanup env y.state).1.history ≡ true)
race-unmanaged_example = race-unmanaged env empty_state deletion request refl refl refl refl
