-- ===== src/Prelude/Lists.antt =====
-- Lists measured and indexed by native numbers, and dictionaries as association lists.
use mathlib.Core.List.{Memᴰ}
use mathlib.Core.List.Memᴰ.{head, tail}
use Prim.Native.Nat.{ℕ, zero, suc, ◌+◌}
use Prim.Native.String.{String}
use mathlib.Core.Path.{◌≡◌, sym, subst}
use mathlib.Core.Bool.{Bool, true, false}
use mathlib.Core.List.{List, [], ◌∷◌, ◌++◌}
use native.Mathlib.Omega.{arith}
use text.Mathlib.Text.{◌==◌}
use csi_test.Prelude.Tests.{if◌then◌else◌}

module _ {ℓ} {A : Type ℓ} where
  abbrev pub length : List A → ℕ
  length [] = 0
  length (x ∷ xs) = suc (length xs)

  abbrev pub is_empty : List A → Bool
  is_empty [] = true
  is_empty (x ∷ xs) = false

  abbrev pub replicate : ℕ → A → List A
  replicate zero a = []
  replicate (suc n) a = a ∷ replicate n a

  pub length-append : (xs ys : List A) → length (xs ++ ys) ≡ length xs + length ys
  length-append [] ys = omega arith
  length-append (x ∷ xs) ys = omega (arith, length-append xs ys)

-- A predicate of each element, as a tuple.
abbrev pub Each {ℓ κ} : {A : Type ℓ} → (A → Type κ) → List A → Type κ
Each P [] = Unit
Each P (x ∷ xs) = P x × Each P xs

module _ {ℓ} {A : Type ℓ} where
  abbrev pub flatten : List (List A) → List A
  flatten [] = []
  flatten (xs ∷ xss) = xs ++ flatten xss

module _ {ℓ κ} {A : Type ℓ} (P : A → Type κ) where
  pub Each-append : (xs ys : List A) → Each P xs → Each P ys → Each P (xs ++ ys)
  Each-append [] ys kx ky = ky
  Each-append (x ∷ xs) ys (k, kx) ky = (k, Each-append xs ys kx ky)

  pub Each-flatten : (xss : List (List A)) → Each (Each P) xss → Each P (flatten xss)
  Each-flatten [] k = tt
  Each-flatten (xs ∷ xss) (k, ks) = Each-append xs (flatten xss) k (Each-flatten xss ks)

module _ {ℓ κ} {A : Type ℓ} (P : A → Type κ) where
  pub Each-Memᴰ : (xs : List A) → Each P xs → (x : A) → Memᴰ x xs → P x
  Each-Memᴰ [] k y m = elim m [ ]
  Each-Memᴰ (x ∷ xs) (k, kx) y (head same) = subst P (sym same) k
  Each-Memᴰ (x ∷ xs) (k, kx) y (tail m) = Each-Memᴰ xs kx y m

module _ {ℓ κ ρ} {A : Type ℓ} {P : A → Type κ} {Q : A → Type ρ} where
  pub Each-map : ((a : A) → P a → Q a) → (xs : List A) → Each P xs → Each Q xs
  Each-map f [] k = tt
  Each-map f (x ∷ xs) (k, kx) = (f x k, Each-map f xs kx)

-- A Go `map[string]string`; a nil map and an empty one read alike.
abbrev pub StringMap : Type 0
StringMap = List (String × String)

-- `m[key]`, with Go's zero value for a missing key.
abbrev pub get_or_empty : StringMap → String → String
get_or_empty [] key = ""
get_or_empty ((k, v) ∷ m) key = if k == key then v else get_or_empty m key
