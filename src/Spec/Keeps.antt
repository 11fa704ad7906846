-- ===== src/Spec/Keeps.antt =====
-- Invariants of specs: one rule for each way to build a spec.
use csi_test.Prelude.{Bool, true, false, Option, none, some, if◌then◌else◌}
use csi_test.Spec.{
  Env, State, Outcome, done, failed, skipped, panicked, Spec, pure, fail, skip, asks, gets, expect,
  skip_if, when, expect_some, deref, continue, ◌>>=◌,
}

-- `m` leaves `P` true in the end, however it ends.
pub record Keeps {ℓ} {A : Type ℓ} (P : State → Type 0) (m : Spec A) : Type ℓ where
  pub at : (e : Env) (s : State) → P s → P (m e s).1

module _ {ℓ} {A : Type ℓ} {P : State → Type 0} where
  pub Keeps-pure : (a : A) → Keeps P (pure a)
  unfolding pure
  Keeps-pure a = record { at = λ e s h. h }

  pub Keeps-fail : Keeps P (fail {A = A})
  unfolding fail
  Keeps-fail = record { at = λ e s h. h }

  pub Keeps-skip : Keeps P (skip {A = A})
  unfolding skip
  Keeps-skip = record { at = λ e s h. h }

  pub Keeps-asks : (f : Env → A) → Keeps P (asks f)
  unfolding asks
  Keeps-asks f = record { at = λ e s h. h }

  pub Keeps-gets : (f : State → A) → Keeps P (gets f)
  unfolding gets
  Keeps-gets f = record { at = λ e s h. h }

  pub Keeps-expect_some : (o : Option A) → Keeps P (expect_some o)
  unfolding expect_some
  Keeps-expect_some none = record { at = λ e s h. h }
  Keeps-expect_some (some a) = record { at = λ e s h. h }

  pub Keeps-deref : (o : Option A) → Keeps P (deref o)
  unfolding deref
  Keeps-deref none = record { at = λ e s h. h }
  Keeps-deref (some a) = record { at = λ e s h. h }

  pub Keeps-if : (b : Bool) (m n : Spec A) → Keeps P m → Keeps P n → Keeps P (if b then m else n)
  Keeps-if true m n km kn = km
  Keeps-if false m n km kn = kn

module _ {P : State → Type 0} where
  pub Keeps-expect : (b : Bool) → Keeps P (expect b)
  unfolding expect
  Keeps-expect true = record { at = λ e s h. h }
  Keeps-expect false = record { at = λ e s h. h }

  pub Keeps-when : (b : Bool) (m : Spec (Unit {0})) → Keeps P m → Keeps P (when b m)
  unfolding when
  Keeps-when true m km = km
  Keeps-when false m km = record { at = λ e s h. h }

  pub Keeps-skip_if : (b : Bool) → Keeps P (skip_if b)
  unfolding skip_if
  Keeps-skip_if true = record { at = λ e s h. h }
  Keeps-skip_if false = record { at = λ e s h. h }

module _ {ℓ κ} {A : Type ℓ} {B : Type κ} {P : State → Type 0} where
  continue-Keeps :
      (r : Outcome A) (f : A → Spec B) (e : Env) (s : State)
      → ((a : A) → Keeps P (f a))
      → P s
      → P (continue r f e s).1
  continue-Keeps (done a) f e s kf h = (kf a).at e s h
  continue-Keeps failed f e s kf h = h
  continue-Keeps skipped f e s kf h = h
  continue-Keeps panicked f e s kf h = h

  pub Keeps-bind :
      (m : Spec A) (f : A → Spec B) → Keeps P m → ((a : A) → Keeps P (f a)) → Keeps P (m >>= f)
  unfolding ◌>>=◌
  Keeps-bind m f km kf = record {
    at = λ e s h. let (r, s') = m e s in continue-Keeps r f e s' kf (km.at e s h);
  }

pub ruleset keeps_rules = (
  Keeps-pure, Keeps-fail, Keeps-skip, Keeps-asks, Keeps-gets, Keeps-expect_some, Keeps-deref,
  Keeps-if, Keeps-expect, Keeps-skip_if, Keeps-when, Keeps-bind,
)
