-- ===== src/Node/Full/Order.antt =====
-- The order of the calls of runControllerTest.
use csi_test.Prelude.{
  ℕ, zero, suc, String, Bool, true, false, List, [], ◌∷◌, ◌++◌, replicate, ◌≡◌, refl, sym, ap, ◌∙◌,
  arith, Option, if◌then◌else◌,
}
use mathlib.Core.List.{append_assoc, append-nil}
use csi_test.Config.{TestContext}
use csi_test.Csi.Messages.{
  Volume, CapacityRange, CreateVolumeRequest, ControllerPublishVolumeResponse,
}
use csi_test.Csi.Node.{NodeGetInfoResponse}
use csi_test.Controller.Lifecycle.{topology_requirement}
use csi_test.Spec.{Env, State, Spec, Outcome, done, pure, asks, when, ◌>>=◌, ◌>>◌}
use csi_test.Spec.Returns.{>>=-eq-done}
use csi_test.Requests.{test_volume_size, unique_string, secret}
use csi_test.Assert.{writer_request, at_least}
use csi_test.Node.Setup.{Supports, stage_on_node, publish_on_node, target_of}
use csi_test.Node.Full.{repeat, check_stats, run_controller_test}
use csi_test.Node.Full.Calls.{
  Step, identified, created, attached, staged, published, measured, steps, Takes, node_info-Takes,
  publish_on_controller-Takes, stage_on_node-Takes, publish_on_node-Takes, check_stats-Takes,
  must_create_volume-Takes,
}

snoc_replicate : {A : Type 0} (n : ℕ) (a : A) → replicate n a ++ a ∷ [] ≡ a ∷ replicate n a
snoc_replicate zero a = refl
snoc_replicate (suc n) a = ap (λ t. a ∷ t) (snoc_replicate n a)

-- The calls for a volume `id` on the node, the newest first.
abbrev pub node_steps : Supports → ℕ → TestContext → String → List Step
node_steps supports count sc id =
    let target = target_of sc.target_path in
    let path = if supports.node_stage then sc.staging_path else "" in
    (if supports.volume_stats then measured id target ∷ [] else [])
    ++ replicate count (published id target path)
    ++ (if supports.node_stage then replicate count (staged id sc.staging_path) else [])

-- All calls of a run, the newest first.
abbrev pub full_steps : Supports → ℕ → TestContext → String → String → List Step
full_steps supports count sc id node_id =
    node_steps supports count sc id
    ++ (if supports.controller_publish then attached id node_id ∷ [] else [])
    ++ created id ∷ identified node_id ∷ []

-- A part of a spec that is done takes steps with P.
abbrev Logs : {A : Type 0} → Env → Spec A → (List Step → Type 0) → Type 0
Logs {A = A} e m P =
    (s : State) (a : A)
    → (m e s).0 ≡ done a
    → (xs : List Step) × P xs × (steps (m e s).1 ≡ xs ++ steps s)

module _ (e : Env) {A B : Type 0} where
  -- A part whose steps are known, and a rest whose steps make P with them.
  bind-Logs :
      (m : Spec A) (f : A → Spec B) (g : A → List Step) {P : List Step → Type 0}
      → Takes e m g
      → ((a : A) → Logs e (f a) (λ xs. P (xs ++ g a)))
      → Logs e (m >>= f) P
  bind-Logs m f g k l s b ok =
      let t = ((m >>= f) e s).1 in
      let (a, u, first, rest) = >>=-eq-done m f e s b t (ap (λ (r : Outcome B). (r, t)) ok) in
      let taken =
        sym (ap (λ (p : Outcome A × State). steps p.1) first)
        ∙ k s a (ap (λ (p : Outcome A × State). p.0) first) in
      let (xs, p, logged) = l a u b (ap (λ (p : Outcome B × State). p.0) rest) in
      (
        xs ++ g a,
        p,
        sym (ap (λ (p : Outcome B × State). steps p.1) rest)
            ∙ (logged ∙ (ap (λ zs. xs ++ zs) taken ∙ sym (append_assoc xs (g a) (steps s)))),
      )

module _ (e : Env) where
  -- Two parts in a row.
  then-Takes :
      (m : Spec (Unit {0})) (n : Spec (Unit {0})) (xs ys : List Step)
      → Takes e m (λ r. xs)
      → Takes e n (λ r. ys)
      → Takes e (m >> n) (λ r. ys ++ xs)
  then-Takes m n xs ys k l s r ok =
      let (zs, made, logged) =
        bind-Logs e m (λ x. n) (λ x. xs) {P = λ zs. zs ≡ ys ++ xs} k
          (λ a u b h. (ys, refl, l u b h)) s r ok in
      logged ∙ ap (λ zs. zs ++ steps s) made

  repeat-Takes :
      (m : Spec (Unit {0})) (a : Step) (count : ℕ)
      → Takes e m (λ r. a ∷ [])
      → Takes e (repeat count m) (λ r. replicate count a)
  unfolding repeat pure
  repeat-Takes m a zero k s r ok = refl
  repeat-Takes m a (suc count) k s r ok =
      let both =
        then-Takes m (repeat count m) (a ∷ []) (replicate count a) k (repeat-Takes m a count k) in
      both s r ok ∙ ap (λ zs. zs ++ steps s) (snoc_replicate count a)

  writer_request-Takes :
      (name : String) (size : Option CapacityRange) → Takes e (writer_request name size) (λ r. [])
  unfolding writer_request secret ◌>>=◌
  writer_request-Takes name size s r ok = ground (arith, ok)

  unique_string-Takes : (prefix : String) → Takes e (unique_string prefix) (λ r. [])
  unfolding unique_string ◌>>=◌
  unique_string-Takes prefix s r ok = refl

  context-Takes : Takes e (asks (λ e. e.sc)) (λ r. [])
  unfolding asks
  context-Takes s r ok = refl

  when-Takes :
      (test : Bool) (m : Spec (Unit {0})) (xs : List Step)
      → (test ≡ true → Takes e m (λ r. xs))
      → Takes e (when test m) (λ r. if test then xs else [])
  unfolding when pure
  when-Takes true m xs k s r ok = k refl s r ok
  when-Takes false m xs k s r ok = refl

  stage_repeatedly-Takes :
      (supports : Supports) (count : ℕ) (vol : Volume) (c : Option ControllerPublishVolumeResponse)
      → Takes e (when supports.node_stage (repeat count (stage_on_node supports vol c))) (λ r.
        if supports.node_stage
        then replicate count (staged vol.volume_id e.sc.staging_path)
        else [])
  stage_repeatedly-Takes supports count vol c =
      let step = staged vol.volume_id e.sc.staging_path in
      let one_round = stage_on_node supports vol c in
      when-Takes supports.node_stage (repeat count one_round) (replicate count step) λ offers.
        repeat-Takes one_round step count λ s r ok.
          stage_on_node-Takes e supports vol c s r ok
          ∙ ap (λ b. (if b then step ∷ [] else []) ++ steps s) offers

  node_part-Takes :
      (supports : Supports) (count : ℕ) (vol : Volume) (c : Option ControllerPublishVolumeResponse)
      → Takes e
          (when supports.node_stage (repeat count (stage_on_node supports vol c))
            >> (repeat count (publish_on_node supports vol c) >> check_stats supports vol))
          (λ r. node_steps supports count e.sc vol.volume_id)
  node_part-Takes supports count vol c s r ok =
      let target = target_of e.sc.target_path in
      let path = if supports.node_stage then e.sc.staging_path else "" in
      let publish =
        repeat-Takes (publish_on_node supports vol c) (published vol.volume_id target path) count
          (publish_on_node-Takes e supports vol c) in
      let later =
        then-Takes _ (check_stats supports vol) _ _ publish (check_stats-Takes e supports vol) in
      then-Takes _ _ _ _ (stage_repeatedly-Takes supports count vol c) later s r ok
      ∙ simp append_assoc

abbrev full_request : CreateVolumeRequest → NodeGetInfoResponse → CreateVolumeRequest
full_request req ni = record req {
  accessibility_requirements = topology_requirement ni.accessible_topology;
}

run_controller_test-Logs :
    (supports : Supports) (count : ℕ) (e : Env)
    → Logs e (run_controller_test supports count) (λ xs.
      (id : String) × (node_id : String) × (xs ≡ full_steps supports count e.sc id node_id))
unfolding run_controller_test
run_controller_test-Logs supports count e =
    bind-Logs e _ _ (λ r. []) (unique_string-Takes e "sanity-node-full")
      λ name.
        bind-Logs e _ _ (λ ni. identified ni.node_id ∷ []) (node_info-Takes e)
          λ ni.
            bind-Logs e _ _ (λ r. []) (context-Takes e)
              λ sc.
                bind-Logs e _ _ (λ r. [])
                  (writer_request-Takes e name (at_least (test_volume_size sc)))
                  λ req.
                    bind-Logs e _ _ (λ vol. created vol.volume_id ∷ [])
                      (must_create_volume-Takes e (full_request req ni))
                      λ vol.
                        bind-Logs e _ _
                          (λ r.
                            if supports.controller_publish
                            then attached vol.volume_id ni.node_id ∷ []
                            else [])
                          (publish_on_controller-Takes e supports vol ni)
                          λ c s r ok. (
                            node_steps supports count e.sc vol.volume_id,
                            (vol.volume_id, ni.node_id, simp (append_assoc, append-nil)),
                            node_part-Takes e supports count vol c s r ok,
                          )

-- A runControllerTest that passes has asked for the node's ID, then created one volume, then attached
-- it to that node if the controller publishes, then staged it `count` times if the node stages, then
-- published it `count` times, and then measured it if the node has statistics; no other call.
pub run_controller_test-steps :
    (supports : Supports) (count : ℕ) (e : Env) (s : State)
    → (run_controller_test supports count e s).0 ≡ done tt
    → (id : String) × (node_id : String) × (steps (run_controller_test supports count e s).1
        ≡ full_steps supports count e.sc id node_id ++ steps s)
run_controller_test-steps supports count e s ok =
    let (xs, (id, node_id, made), logged) = run_controller_test-Logs supports count e s tt ok in
    (id, node_id, logged ∙ ap (λ zs. zs ++ steps s) made)
