-- ===== src/Suite/Acceptance/Leads.antt =====
-- Rules for what the parts of a spec lead to with a driver that conforms.
use csi_test.Prelude.{
  ℕ, suc, StringMap, String, Bool, true, false, not, ◌≡◌, ◌⊎◌, inl, inr, refl, sym, ap, ◌∙◌, Option,
  some, arith, ◌==◌, Bool-cases, eq_iff,
}
use Prim.Native.String.{◌++◌ as str_append}
use text.Mathlib.TextLemmas.{append-eq-nil_iff, append_cancel_right}
use csi_test.Csi.Status.{GoError, Code}
use csi_test.Config.{CsiSecrets}
use mathlib.Core.Bool.{false≢true}
use csi_test.Controller.Verdicts.{is_status_error}
use csi_test.Csi.Client.{on_controller_capabilities}
use csi_test.Spec.{
  Env, State, Spec, Outcome, done, skipped, asks, expect, skip_if, expect_some, pure, ◌>>=◌,
}
use csi_test.Spec.Returns.{bind-done}
use csi_test.Rpc.Keeps.{add_event}
use csi_test.Requests.{unique_string, unique_volume_id, secret}
use csi_test.Capability.Queries.{
  has_rpc, controller_list, is_controller_capability_supported-eq-done,
}
use csi_test.Assert.{requires, expect_status}
use csi_test.Resources.Liveness.{is_live}
use csi_test.Suite.Arguments.{Queries}
use csi_test.Suite.Acceptance.{Clear, Offers, Offered}

-- From `s`, the part is skipped or done with a value and a state of which `Q` holds.
abbrev pub Leads : {A : Type 0} → Env → Spec A → State → (A → State → Type 0) → Type 0
Leads {A = A} e m s Q =
    (((m e s).0 ≡ skipped) × ¬ (Offers e)) ⊎ ((a : A) × (t : State) × (m e s ≡ (done a, t)) × Q a t)

-- An end of which nothing more is asked.
abbrev pub Ends : Env → Spec (Unit {0}) → State → Type 0
Ends e m s = Leads e m s (λ a t. Unit {0})

module _ (e : Env) {A B : Type 0} where
  pub then-Leads :
      (m : Spec A) (f : A → Spec B) (s : State) {Q : A → State → Type 0} {R : B → State → Type 0}
      → Leads e m s Q
      → ((a : A) (t : State) → Q a t → Leads e (f a) t R)
      → Leads e (m >>= f) s R
  unfolding ◌>>=◌
  then-Leads m f s (inl (skips, lacking)) k = inl (ground (arith, skips), lacking)
  then-Leads m f s (inr (a, t, goes, q)) k = rw (bind-done m f e s goes) (k a t q)

  -- A part whose result is known.
  pub value-Leads :
      (m : Spec A) (f : A → Spec B) (s : State) {R : B → State → Type 0} {a : A} {t : State}
      → m e s ≡ (done a, t)
      → Leads e (f a) t R
      → Leads e (m >>= f) s R
  value-Leads m f s goes k = rw (bind-done m f e s goes) k

module _ (e : Env) where
  pub Ends-Accepts :
      (m : Spec (Unit {0})) (s : State)
      → Ends e m s
      → (((m e s).0 ≡ skipped) × ¬ (Offers e)) ⊎ ((m e s).0 ≡ done tt)
  Ends-Accepts m s (inl lacks) = inl lacks
  Ends-Accepts m s (inr (a, t, goes, q)) = inr (ap (λ (r : Outcome (Unit {0}) × State). r.0) goes)

  pub expect-done : (b : Bool) (s : State) → b ≡ true → expect b e s ≡ (done tt, s)
  unfolding expect
  expect-done b s h = rw h

  skip_if-Leads :
      (b : Bool) (s : State) (P : State → Type 0)
      → P s
      → (Offers e → b ≡ false)
      → Leads e (skip_if b) s (λ a t. P t)
  unfolding skip_if
  skip_if-Leads true s P p goes = inl (refl, λ o. false≢true (sym (goes o)))
  skip_if-Leads false s P p goes = inr (tt, s, refl, p)

  pub requires-Leads :
      (t : ℕ) (s : State)
      → (Offers e → Offered t e)
      → Queries e
      → Clear s
      → Leads e (requires t) s (λ a u. Clear u)
  unfolding requires is_live
  requires-Leads t s offers q clear =
      let r = e.client.controller_capabilities s.history in
      let asked = add_event (on_controller_capabilities r) s in
      let offered = has_rpc t (controller_list r.response) in
      value-Leads e _ _ s
        (is_controller_capability_supported-eq-done t e s (q.controller s.history))
        (skip_if-Leads (not offered) asked Clear
          (record { volumes = clear.volumes; snapshots = clear.snapshots })
          (λ o. ap not (offers o s.history)))

  pub unique_string-done :
      (prefix : String) (s : State)
      → unique_string prefix e s ≡ (done (str_append prefix e.unique_suffix), s)
  unfolding unique_string
  unique_string-done prefix s = refl

  pub unique_volume_id-done :
      (s : State)
      → unique_volume_id e s ≡ (
        done (e.sc.config.id_gen.unique_valid_volume_id s.generated),
        record s { generated = suc s.generated },
      )
  unfolding unique_volume_id
  unique_volume_id-done s = refl

  pub asks-done : {A : Type 0} (f : Env → A) (s : State) → asks f e s ≡ (done (f e), s)
  unfolding asks
  asks-done f s = refl

  pub secret-done :
      (q : Queries e) (field : CsiSecrets → StringMap) (s : State)
      → secret field e s ≡ (done (field q.secrets), s)
  unfolding secret ◌>>=◌
  secret-done q field s = ground (arith, q.has_secrets)

  pub skip_if-done : (b : Bool) (s : State) → b ≡ false → skip_if b e s ≡ (done tt, s)
  unfolding skip_if
  skip_if-done b s h = rw h

  pub expect_some-done :
      {A : Type 0} (o : Option A) (a : A) (s : State) → o ≡ some a → expect_some o e s ≡ (done a, s)
  unfolding expect_some
  expect_some-done o a s h = rw h

  pub pure-Ends : (s : State) → Ends e (pure tt) s
  unfolding pure
  pure-Ends s = inr (tt, s, refl, tt)

  pub expect-Ends : (b : Bool) (s : State) → b ≡ true → Ends e (expect b) s
  expect-Ends b s h = inr (tt, s, expect-done b s h, tt)

  pub expect_status-Ends :
      (err : Option GoError) (code : Code) (s : State)
      → is_status_error code err ≡ true
      → Ends e (expect_status err code) s
  unfolding expect_status ◌>>=◌
  expect_status-Ends err code s h = inr (tt, s, ground (arith, h), tt)

pub named-nonempty : (p s : String) → (p == "") ≡ false → (str_append p s == "") ≡ false
named-nonempty p s h = elim (Bool-cases (str_append p s == "")) [
  | inl is_empty_text ↦
      absurd (
        false≢true (sym h ∙ (eq_iff p "").1 (append-eq-nil_iff.0 ((eq_iff _ _).0 is_empty_text)).0))
  | inr named ↦ named
]

pub names-differ : (p q s : String) → (p == q) ≡ false → (str_append p s == str_append q s) ≡ false
names-differ p q s h = elim (Bool-cases (str_append p s == str_append q s)) [
  | inl same ↦
      absurd (false≢true (sym h ∙ (eq_iff p q).1 (append_cancel_right p q s ((eq_iff _ _).0 same))))
  | inr differ ↦ differ
]
