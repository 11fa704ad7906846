-- ===== src/Spec/Returns.antt =====
-- From the parts of a block to the block, and back.
use csi_test.Prelude.{◌≡◌, refl, ap}
use csi_test.Spec.{Env, State, Outcome, done, failed, skipped, panicked, Spec, continue, ◌>>=◌}

module _ {ℓ κ} {A : Type ℓ} {B : Type κ} where
  -- A first step that is done hands over to the rest.
  pub bind-done :
      (m : Spec A) (f : A → Spec B) (e : Env) (s : State) {a : A} {t : State}
      → m e s ≡ (done a, t)
      → (m >>= f) e s ≡ f a e t
  unfolding ◌>>=◌
  bind-done m f e s h = ap (λ (p : Outcome A × State). continue p.0 f e p.1) h

  continue-eq-done :
      (r : Outcome A) (f : A → Spec B) (e : Env) (s : State) (b : B) (t : State)
      → continue r f e s ≡ (done b, t)
      → (a : A) × (r ≡ done a) × (f a e s ≡ (done b, t))
  continue-eq-done (done a) f e s b t h = (a, refl, h)
  continue-eq-done failed f e s b t h = cc (ap (λ (p : Outcome B × State). p.0) h)
  continue-eq-done skipped f e s b t h = cc (ap (λ (p : Outcome B × State). p.0) h)
  continue-eq-done panicked f e s b t h = cc (ap (λ (p : Outcome B × State). p.0) h)

  -- A block that is done has done its first step, and then the rest.
  pub >>=-eq-done :
      (m : Spec A) (f : A → Spec B) (e : Env) (s : State) (b : B) (t : State)
      → (m >>= f) e s ≡ (done b, t)
      → (a : A) × (u : State) × (m e s ≡ (done a, u)) × (f a e u ≡ (done b, t))
  unfolding ◌>>=◌
  >>=-eq-done m f e s b t h =
      let c = continue-eq-done (m e s).0 f e (m e s).1 b t h in
      (c.0, (m e s).1, ap (λ (r : Outcome A). (r, (m e s).1)) c.1, c.2)
