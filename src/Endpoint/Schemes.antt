-- ===== src/Endpoint/Schemes.antt =====
-- What Parse makes of endpoints with and without a scheme.
use csi_test.Prelude.{
  ℕ, false, ◌≡◌, refl, List, [], ◌∷◌, ◌++◌, none, some, is_empty, eqb, arith, if◌then◌else◌,
}
use csi_test.GoText.{to_lower, lower_code, has_prefix}
use csi_test.Endpoint.{separator, unix, split_separator, has_scheme, parse}

-- Not the colon: what a letter in lower case may come from.
lower-colon : (c d : ℕ) → lower_code c ≡ d → eqb d b':' ≡ false → eqb c b':' ≡ false
unfolding lower_code
lower-colon c d p h = ground (arith, p, h)

split-cons :
    (c : ℕ) (s : List ℕ)
    → eqb c b':' ≡ false
    → split_separator (c ∷ s) ≡ (c ∷ (split_separator s).0, (split_separator s).1)
unfolding split_separator has_prefix
split-cons c s h = ground (arith, h)

split-separator : (address : List ℕ) → split_separator (separator ++ address) ≡ ([], address)
unfolding split_separator has_prefix
split-separator address = refl

-- An endpoint that starts with "unix://" in any mixture of capitals and small letters is parsed into
-- the scheme as it is written and the address after it, unless the address is empty, which is an
-- error.
pub parse-unix :
    (scheme address : List ℕ)
    → to_lower scheme ≡ unix
    → parse (scheme ++ separator ++ address)
      ≡ (if is_empty address then none else some (scheme, address))
unfolding parse has_scheme to_lower has_prefix
parse-unix (a ∷ b ∷ c ∷ d ∷ []) address h =
    let s4 = separator ++ address in
    ground (
      arith,
      h,
      lower-colon a b'u',
      lower-colon b b'n',
      lower-colon c b'i',
      lower-colon d b'x',
      split-cons a (b ∷ c ∷ d ∷ s4),
      split-cons b (c ∷ d ∷ s4),
      split-cons c (d ∷ s4),
      split-cons d s4,
      split-separator address,
    )
parse-unix [] address h = ground (arith, h)
parse-unix (a ∷ []) address h = ground (arith, h)
parse-unix (a ∷ b ∷ []) address h = ground (arith, h)
parse-unix (a ∷ b ∷ c ∷ []) address h = ground (arith, h)
parse-unix (a ∷ b ∷ c ∷ d ∷ e ∷ rest) address h = ground (arith, h)
