-- ===== src/Suite/Arguments/Goes.antt =====
-- Rules for the parts of a spec before its request: they go on with a value, or skip the spec.
use csi_test.Prelude.{
  ℕ, Bool, true, false, ◌||◌, ◌≡◌, ◌⊎◌, inl, inr, refl, sym, ap, ◌∙◌, is_some, not, StringMap,
  Option-cases, arith,
}
use csi_test.Spec.{
  Env, State, Spec, Outcome, done, skipped, pure, asks, expect_some, expect_no_error, skip_if,
  provide_controller, ◌>>=◌, ◌>>◌,
}
use Prim.Native.String.{String, ◌++◌ as str_append}
use csi_test.Csi.Capabilities.{GetPluginCapabilitiesResponse}
use csi_test.Config.{CsiSecrets}
use csi_test.Rpc
use csi_test.Requests.{secret, unique_string, unique_volume_id, unique_node_id}
use csi_test.Capability.{is_controller_capability_supported, is_node_capability_supported}
use csi_test.Capability.Queries.{
  is_controller_capability_supported-eq-done, is_node_capability_supported-eq-done,
}
use csi_test.Assert.{requires}
use csi_test.Node.Setup.{before_each, supported_if}
use mathlib.Core.Bool.{false≢true}
use csi_test.Csi.Client.{on_plugin_capabilities}
use csi_test.Rpc.Keeps.{add_event}
use csi_test.Suite.Arguments.{Probed, Probes, Goes, Queries}

goes_on :
    {A B : Type 0} (P : Outcome B × State → Type 0) (e : Env) (m : Spec A) (f : A → Spec B)
    (s : State)
    → ((m e s).0 ≡ skipped) ⊎ ((a : A) × ((m e s).0 ≡ done a))
    → (((m >>= f) e s).0 ≡ skipped → P ((m >>= f) e s))
    → ((a : A) (t : State) → P (f a e t))
    → P ((m >>= f) e s)
unfolding ◌>>=◌
goes_on P e m f s (inl skips) stop k = stop (ground (arith, skips))
goes_on P e m f s (inr (a, goes)) stop k = rw goes (k a (m e s).1)

module _ (e : Env) {A : Type 0} where
  -- The rest of a spec after a part that goes on.
  pub then-Probes :
      (m : Spec A) (f : A → Spec (Unit {0}))
      → Goes e m
      → ((a : A) → Probes e (f a))
      → Probes e (m >>= f)
  then-Probes m f g k s =
      goes_on (λ r. (r.0 ≡ skipped) ⊎ Probed e r.0 r.1) e m f s (g s) (λ h. inl h) (λ a t. k a t)

  pub then-Goes :
      {B : Type 0} (m : Spec A) (f : A → Spec B)
      → Goes e m
      → ((a : A) → Goes e (f a))
      → Goes e (m >>= f)
  then-Goes {B = B} m f g k s =
      goes_on (λ r. (r.0 ≡ skipped) ⊎ ((b : B) × (r.0 ≡ done b))) e m f s (g s) (λ h. inl h)
        (λ a t. k a t)

module _ (e : Env) where
  pure-Goes : {A : Type 0} (a : A) → Goes e (pure a)
  unfolding pure
  pure-Goes a s = inr (a, refl)

  pub asks-Goes : {A : Type 0} (f : Env → A) → Goes e (asks f)
  unfolding asks
  asks-Goes f s = inr (f e, refl)

  pub unique_volume_id-Goes : Goes e unique_volume_id
  unfolding unique_volume_id
  unique_volume_id-Goes s = inr (e.sc.config.id_gen.unique_valid_volume_id s.generated, refl)

  pub unique_node_id-Goes : Goes e unique_node_id
  unfolding unique_node_id
  unique_node_id-Goes s = inr (e.sc.config.id_gen.unique_valid_node_id s.generated, refl)

  pub unique_string-Goes : (prefix : String) → Goes e (unique_string prefix)
  unfolding unique_string
  unique_string-Goes prefix s = inr (str_append prefix e.unique_suffix, refl)

  pub skip_if-Goes : (b : Bool) → Goes e (skip_if b)
  unfolding skip_if
  skip_if-Goes true s = inl refl
  skip_if-Goes false s = inr (tt, refl)

-- The first lines of BeforeEach.
abbrev with_plugin : {B : Type 0} → (GetPluginCapabilitiesResponse → Spec B) → Spec B
with_plugin f = do
  r ← Rpc.plugin_capabilities
  expect_no_error r.error
  res ← expect_some r.response
  f res

module _ {e : Env} (q : Queries e) where
  pub secret-Goes : (field : CsiSecrets → StringMap) → Goes e (secret field)
  unfolding secret ◌>>=◌
  secret-Goes field s = inr (field q.secrets, ground (arith, q.has_secrets))

  controller-Goes : (t : ℕ) → Goes e (is_controller_capability_supported t)
  controller-Goes t s =
      inr (
        _,
        ap (λ r. r.0) (is_controller_capability_supported-eq-done t e s (q.controller s.history)),
      )

  node-Goes : (t : ℕ) → Goes e (is_node_capability_supported t)
  node-Goes t s =
      inr (_, ap (λ r. r.0) (is_node_capability_supported-eq-done t e s (q.node s.history)))

  pub requires-Goes : (t : ℕ) → Goes e (requires t)
  unfolding requires
  requires-Goes t = then-Goes e _ _ (controller-Goes t) λ b. skip_if-Goes e (not b)

  supported_if-Goes : (b : Bool) (m : Spec Bool) → Goes e m → Goes e (supported_if b m)
  unfolding supported_if
  supported_if-Goes true m g = g
  supported_if-Goes false m g = pure-Goes e false

  provide_controller-Goes : (b : Bool) → Goes e (provide_controller b)
  unfolding provide_controller
  provide_controller-Goes b s = inr (s.provides_controller || b, refl)

  plugin-Goes :
      {B : Type 0} (f : GetPluginCapabilitiesResponse → Spec B)
      → ((res : GetPluginCapabilitiesResponse) → Goes e (f res))
      → Goes e (with_plugin f)
  unfolding Rpc.plugin_capabilities ◌>>=◌
  plugin-Goes f k s =
      let r = e.client.plugin_capabilities s.history in
      elim (Option-cases r.response) [
        | inl absent ↦ absurd (false≢true (sym (ap is_some absent) ∙ q.plugin_response s.history))
        | inr (res, there) ↦
            let same : with_plugin f e s ≡ f res e (add_event (on_plugin_capabilities r) s) =
              ground (arith, there, q.plugin_error s.history) in
            rw same (k res (add_event (on_plugin_capabilities r) s))
      ]

  pub before_each-Goes : Goes e before_each
  unfolding before_each
  before_each-Goes = plugin-Goes _ λ res. then-Goes e _ _ (provide_controller-Goes _) λ provides.
      then-Goes e _ _ (supported_if-Goes provides _ (controller-Goes _)) λ publish.
        then-Goes e _ _ (node-Goes _) λ stage. then-Goes e _ _ (node-Goes _) λ stats.
          then-Goes e _ _ (node-Goes _)
            λ node_expand. then-Goes e _ _ (controller-Goes _) λ expand. pure-Goes e _
