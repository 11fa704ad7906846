-- ===== src/Resources/Cleanup/Order.antt =====
-- The order and the reach of Cleanup: which deletions it asks for, and when it succeeds.
use Prim.Native.String.{◌++◌ as str_append}
use mathlib.Core.List.{append-nil, append_assoc, reverse-cons}
use csi_test.Prelude.{
  ℕ, ◌+◌, String, Bool, true, false, ◌≡◌, inl, inr, refl, sym, ap, ◌∙◌, List, [], ◌∷◌, ◌++◌, map,
  reverse, Option, none, some, is_some, not, length, length-append, Bool-cases, eqb, arith,
  if◌then◌else◌,
}
use csi_test.Csi.Status.{GoError, not_found}
use csi_test.Csi.NodeCapability
use csi_test.Csi.Client.{
  Event, on_delete_volume, on_delete_snapshot, on_controller_unpublish, on_node_unstage,
  on_node_unpublish,
}
use csi_test.Csi.Node.{NodeUnpublishVolumeRequest}
use csi_test.Config.{CsiSecrets}
use csi_test.Spec.{
  Env, State, ResourceInfo, ResourceData, volume_info, snapshot_info, Outcome, done, failed, Spec,
  ◌>>=◌,
}
use csi_test.Rpc
use csi_test.Requests.{secret}
use csi_test.Capability.Queries.{is_answer, is_node_capability_supported-eq-done}
use csi_test.Resources.Tracking.{Kind, volume, snapshot}
use csi_test.Resources.Cleanup.{
  CleanupError, cleanup_staging, cleanup_node, cleanup_publish, cleanup_delete, cleanup_volume,
  cleanup_snapshot, cleanup_resource, cleanup_all, cleanup,
}

-- The deletions that a history asks for, the newest first.
pub deletions : List Event → List (Kind × String)
deletions [] = []
deletions (on_delete_volume req r ∷ history) = (volume, req.volume_id) ∷ deletions history
deletions (on_delete_snapshot req r ∷ history) = (snapshot, req.snapshot_id) ∷ deletions history
deletions (_ ∷ history) = deletions history

abbrev pub kind_of : ResourceData → Kind
kind_of (volume_info node_id) = volume
kind_of snapshot_info = snapshot

abbrev pub target : ResourceInfo → Kind × String
target info = (kind_of info.resource, info.id)

-- The error of a node call is a refusal, unless it is NotFound.
unfoldable pub refuses : Option GoError → Bool
refuses none = false
refuses (some err) = not (eqb err.code not_found)

-- A call of Cleanup that a driver refused: one with an error, other than NotFound of a node call.
abbrev pub is_refused : Event → Bool
is_refused (on_delete_volume req r) = is_some r.error
is_refused (on_delete_snapshot req r) = is_some r.error
is_refused (on_controller_unpublish req r) = is_some r.error
is_refused (on_node_unstage req r) = refuses r.error
is_refused (on_node_unpublish req r) = refuses r.error
is_refused _ = false

unfoldable pub refusals : List Event → ℕ
refusals [] = 0
refusals (ev ∷ history) = (if is_refused ev then 1 else 0) + refusals history

-- The context has secrets, and the driver answers the node capability query, where that is asked.
pub record CanClean (e : Env) : Type 0 where
  pub secrets : CsiSecrets
  pub has_secrets : e.sc.secrets ≡ some secrets
  pub answers :
      e.has_node_client ≡ true
      → (history : List Event) → is_answer (e.client.node_capabilities history) ≡ true

-- The targets of the resources of a list that is cleaned from its first to its last, newest first.
unfoldable pub targets_of : List ResourceInfo → List (Kind × String)
targets_of [] = []
targets_of (info ∷ infos) = targets_of infos ++ target info ∷ []

targets_of-append :
    (xs ys : List ResourceInfo) → targets_of (xs ++ ys) ≡ targets_of ys ++ targets_of xs
unfolding targets_of
targets_of-append [] ys = sym (append-nil (targets_of ys))
targets_of-append (x ∷ xs) ys =
    rw (targets_of-append xs ys) (append_assoc (targets_of ys) (targets_of xs) (target x ∷ []))

pub targets_of-reverse : (xs : List ResourceInfo) → targets_of (reverse xs) ≡ map target xs
unfolding targets_of
targets_of-reverse [] = refl
targets_of-reverse (x ∷ xs) =
    rw (reverse-cons x xs)
      (targets_of-append (reverse xs) (x ∷ []) ∙ ap (◌∷◌ (target x)) (targets_of-reverse xs))

abbrev pub is_done : Outcome (List CleanupError) → Bool
is_done (done errs) = true
is_done _ = false

abbrev pub errs_of : Outcome (List CleanupError) → List CleanupError
errs_of (done errs) = errs
errs_of _ = []

-- A part of Cleanup that is done, with its errors counted and the deletions `targets` asked for.
pub record Run (e : Env) (s : State) (m : Spec (List CleanupError)) (targets : List (Kind × String))
    : Type 0 where
  pub finished : is_done (m e s).0 ≡ true
  pub same : (m e s).1.managed ≡ s.managed
  pub deleted : deletions (m e s).1.history ≡ targets ++ deletions s.history
  pub counted : refusals (m e s).1.history ≡ length (errs_of (m e s).0) + refusals s.history

-- The request with which Cleanup unpublishes a volume.
abbrev pub unpublish_request : Env → String → NodeUnpublishVolumeRequest
unpublish_request e id = record {
  volume_id = id;
  target_path = str_append e.sc.target_path "/target";
}

module _ (e : Env) (can : CanClean e) where
  pub secret-eq-done :
      (field : CsiSecrets → List (String × String)) (s : State)
      → secret field e s ≡ (done (field can.secrets), s)
  unfolding secret ◌>>=◌
  secret-eq-done field s = ground (arith, can.has_secrets)

  pub staging-Run :
      (id : String) (s : State) → e.has_node_client ≡ true → Run e s (cleanup_staging id) []
  unfolding cleanup_staging Rpc.node_unstage deletions refusals refuses
  staging-Run id s has = ground (
    arith,
    is_node_capability_supported-eq-done NodeCapability.stage_unstage_volume e s
        (can.answers has s.history),
  )

  pub node-Run : (id : String) (s : State) → Run e s (cleanup_node id) []
  unfolding cleanup_node Rpc.node_unpublish deletions refusals refuses
  node-Run id s = elim (Bool-cases e.has_node_client) [
    | inl has ↦
        ground (arith, has, staging-Run id (Rpc.node_unpublish (unpublish_request e id) e s).1 has)
    | inr none_there ↦ ground (arith, none_there)
  ]

  pub publish-Run : (id node_id : String) (s : State) → Run e s (cleanup_publish id node_id) []
  unfolding cleanup_publish Rpc.controller_unpublish deletions refusals
  publish-Run id node_id s =
      ground (arith, secret-eq-done (λ x. x.controller_unpublish_volume_secret) s)

  pub delete-Run : (id : String) (s : State) → Run e s (cleanup_delete id) ((volume, id) ∷ [])
  unfolding cleanup_delete Rpc.delete_volume deletions refusals
  delete-Run id s = ground (arith, secret-eq-done (λ x. x.delete_volume_secret) s)

  pub snapshot-Run : (id : String) (s : State) → Run e s (cleanup_snapshot id) ((snapshot, id) ∷ [])
  unfolding cleanup_snapshot Rpc.delete_snapshot deletions refusals
  snapshot-Run id s = ground (arith, secret-eq-done (λ x. x.delete_snapshot_secret) s)

  pub volume-Run :
      (id node_id : String) (s : State) → Run e s (cleanup_volume id node_id) ((volume, id) ∷ [])
  unfolding cleanup_volume
  volume-Run id node_id s =
      let s1 = (cleanup_node id e s).1 in
      let s2 = (cleanup_publish id node_id e s1).1 in
      let p = errs_of (cleanup_publish id node_id e s1).0 in
      let d = errs_of (cleanup_delete id e s2).0 in
      ground (
        arith,
        node-Run id s,
        publish-Run id node_id s1,
        delete-Run id s2,
        length-append (errs_of (cleanup_node id e s).0 ++ p) d,
        length-append (errs_of (cleanup_node id e s).0) p,
      )

  pub resource-Run :
      (id : String) (d : ResourceData) (s : State)
      → Run e s (cleanup_resource id d) ((kind_of d, id) ∷ [])
  unfolding cleanup_resource
  resource-Run id (volume_info node_id) s = volume-Run id node_id s
  resource-Run id snapshot_info s = snapshot-Run id s

  pub all-Run :
      (infos : List ResourceInfo) (s : State) → Run e s (cleanup_all infos) (targets_of infos)
  unfolding cleanup_all targets_of
  all-Run [] s = ground arith
  all-Run (info ∷ infos) s =
      let s1 = (cleanup_resource info.id info.resource e s).1 in
      let first = resource-Run info.id info.resource s in
      let rest = all-Run infos s1 in
      record {
        finished = ground (arith, first, rest);
        same = ground (arith, first, rest);
        deleted = ground (
          arith,
          first,
          rest,
          append_assoc (targets_of infos) (target info ∷ []) (deletions s.history),
        );
        counted = ground (
          arith,
          first,
          rest,
          length-append (errs_of (cleanup_resource info.id info.resource e s).0)
              (errs_of (cleanup_all infos e s1).0),
        );
      }

  -- Cleanup asks for exactly one deletion for each managed resource, from the last registered to the
  -- first, also after a deletion, an unpublication or an unstaging has failed. The context has secrets,
  -- and the driver answers NodeGetCapabilities where there is a NodeClient.
  pub cleanup-deletions :
      (s : State) → deletions (cleanup e s).1.history ≡ map target s.managed ++ deletions s.history
  unfolding cleanup
  cleanup-deletions s = ground (arith, all-Run (reverse s.managed) s, targets_of-reverse s.managed)

  -- Cleanup succeeds, and empties the list of managed resources, exactly if none of its calls has come
  -- back with an error, where NotFound of NodeUnpublishVolume and NodeUnstageVolume does not count;
  -- otherwise it fails and leaves the list alone. The context has secrets, and the driver answers
  -- NodeGetCapabilities where there is a NodeClient.
  pub cleanup-outcome :
      (s : State)
      → let t = (cleanup e s).1 in
        let clean = eqb (refusals t.history) (refusals s.history) in
        ((cleanup e s).0 ≡ (if clean then done tt else failed))
        × (t.managed ≡ (if clean then [] else s.managed))
  unfolding cleanup
  cleanup-outcome s = ground (arith, all-Run (reverse s.managed) s)
