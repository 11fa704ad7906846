-- ===== src/Identity/Names.antt =====
-- Which plugin names the GetPluginInfo spec accepts.
use csi_test.Prelude.{
  ℕ, Bool, true, false, not, ◌&&◌, ◌≡◌, refl, List, [], ◌∷◌, Option, none, some, is_none, length,
  Bool-cases, Option-cases, inl, inr, ap, ◌∙◌, eqb, leb, arith, if◌then◌else◌,
}
use Prim.Native.Char.{Char, code, len_utf8, len_utf8_def, width}
use Prim.Native.Nat.{compare, Ordering}
use Prim.Native.String.{String, len}
use Prim.Native.String.len as Len
use csi_test.GoText.{codes}
use csi_test.Csi.Capabilities.{GetPluginInfoResponse}
use csi_test.Spec.{Env, State, done, failed, ◌>>=◌}
use csi_test.Rpc
use csi_test.Identity.{
  is_letter, is_name_char, all_name_chars, ends_with_letter, without_last, matches_name,
  returns_plugin_info,
}

abbrev pub begins_with_letter : List ℕ → Bool
begins_with_letter [] = false
begins_with_letter (c ∷ cs) = is_letter c

-- Two to 63 characters, the first and the last a letter, and each a letter, a digit, a dash, a dot or
-- an underscore.
abbrev pub is_name : List ℕ → Bool
is_name cs =
    leb 2 (length cs)
    && leb (length cs) 63
    && begins_with_letter cs
    && ends_with_letter cs
    && all_name_chars cs

-- All characters but the last, and the last one, which is a letter.
without_last-chars :
    (cs : List ℕ)
    → (ends_with_letter cs && all_name_chars (without_last cs))
      ≡ (ends_with_letter cs && all_name_chars cs)
unfolding all_name_chars ends_with_letter without_last
without_last-chars [] = refl
without_last-chars (c ∷ []) = ground arith
without_last-chars (c ∷ d ∷ cs) = ground (arith, without_last-chars (d ∷ cs))

matches_name-eq : (cs : List ℕ) → matches_name cs ≡ is_name cs
unfolding matches_name all_name_chars ends_with_letter
matches_name-eq [] = refl
matches_name-eq (c ∷ []) = ground arith
matches_name-eq (c ∷ d ∷ cs) = ground (arith, without_last-chars (d ∷ cs))

one_byte : (c : Char) → is_name_char (code c) ≡ true → len_utf8 c ≡ 1
one_byte c h =
    let small : compare (code c) 128 ≡ Ordering.lt = ground (arith, h) in
    len_utf8_def c ∙ ap (λ o. width o (compare (code c) 2048) (compare (code c) 65536)) small

-- A name takes one byte for each character.
name-len : (s : String) → all_name_chars (codes s) ≡ true → len s ≡ length (codes s)
unfolding all_name_chars
name-len String.[] h = Len.nil
name-len (String.◌∷◌ c s) h = ground (arith, h, Len.cons c s, one_byte c, name-len s)

-- A response with a name.
abbrev pub accepts : Option GetPluginInfoResponse → Bool
accepts none = false
accepts (some res) = is_name (codes res.name)

name-checked :
    (name : String)
    → (not (eqb (len name) 0) && leb (len name) 63 && matches_name (codes name))
      ≡ is_name (codes name)
name-checked name = elim (Bool-cases (is_name (codes name))) [
  | inl valid ↦ ground (arith, valid, matches_name-eq (codes name), name-len name)
  | inr wrong ↦ ground (arith, wrong, matches_name-eq (codes name))
]

-- "should return appropriate information" passes exactly if the driver replies to GetPluginInfo
-- without an error and with a name of two to 63 characters that begins and ends with a letter and has
-- letters, digits, dashes, dots and underscores only.
pub returns_plugin_info-eq :
    (e : Env) (s : State)
    → let r = e.client.plugin_info s.history in
      (returns_plugin_info e s).0
      ≡ (if is_none r.error && accepts r.response then done tt else failed)
unfolding returns_plugin_info Rpc.plugin_info ◌>>=◌
returns_plugin_info-eq e s =
    let r = e.client.plugin_info s.history in
    elim (Option-cases r.response) [
      | inl absent ↦ ground (arith, absent)
      | inr (res, present) ↦ ground (arith, present, name-checked res.name)
    ]
