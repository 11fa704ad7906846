-- ===== src/Identity.antt =====
-- pkg/sanity/identity.go: the specs of the Identity service.
pub mod Names
use csi_test.Prelude.{
  ℕ, Bool, true, false, not, ◌&&◌, ◌||◌, List, [], ◌∷◌, Option, none, some, length, eqb, leb,
}
use Prim.Native.String.{len}
use csi_test.GoText.{codes}
use csi_test.Csi.Status.{ok, failed_precondition, status_code, from_error_ok}
use csi_test.Csi.Capabilities.{PluginCapability, service, volume_expansion, no_type}
use csi_test.Spec.{Spec, pure, expect, expect_some, expect_no_error, ◌>>=◌, ◌>>◌}
use csi_test.Rpc

-- The nested switch over one capability.
abbrev pub is_known : PluginCapability → Bool
is_known (service t) = eqb t 1 || eqb t 2
is_known (volume_expansion t) = eqb t 1 || eqb t 2
is_known no_type = false

unfoldable pub check_plugin : List PluginCapability → Spec (Unit {0})
check_plugin [] = pure tt
check_plugin (c ∷ caps) = do expect (is_known c); check_plugin caps

unfoldable pub returns_plugin_capabilities : Spec (Unit {0})
returns_plugin_capabilities = do
  r ← Rpc.plugin_capabilities
  expect_no_error r.error
  caps ← expect_some r.response
  check_plugin caps.capabilities

-- res.GetReady().GetValue() == true || res.GetReady().GetValue() == false
abbrev pub ready_or_not : Option Bool → Bool
ready_or_not none = true
ready_or_not (some ready) = ready || not ready

unfoldable pub probes : Spec (Unit {0})
probes = do
  r ← Rpc.probe
  expect_no_error r.error
  res ← expect_some r.response
  expect (from_error_ok r.error)
  expect (eqb (status_code r.error) failed_precondition || eqb (status_code r.error) ok)
  expect (ready_or_not res.ready)

-- [a-zA-Z]
abbrev pub is_letter : ℕ → Bool
is_letter c = (leb b'a' c && leb c b'z') || (leb b'A' c && leb c b'Z')

-- [A-Za-z0-9-\.\_]
abbrev pub is_name_char : ℕ → Bool
is_name_char c = is_letter c || (leb b'0' c && leb c b'9') || eqb c b'-' || eqb c b'.' || eqb c b'_'

unfoldable pub all_name_chars : List ℕ → Bool
all_name_chars [] = true
all_name_chars (c ∷ cs) = is_name_char c && all_name_chars cs

unfoldable pub ends_with_letter : List ℕ → Bool
ends_with_letter [] = false
ends_with_letter (c ∷ []) = is_letter c
ends_with_letter (c ∷ d ∷ cs) = ends_with_letter (d ∷ cs)

unfoldable pub without_last : List ℕ → List ℕ
without_last [] = []
without_last (c ∷ []) = []
without_last (c ∷ d ∷ cs) = c ∷ without_last (d ∷ cs)

-- The middle of a name of at least two characters, and its last character.
abbrev pub tail_matches : List ℕ → Bool
tail_matches cs = ends_with_letter cs && all_name_chars (without_last cs) && leb (length cs) 62

-- ^[a-zA-Z][A-Za-z0-9-\.\_]{0,61}[a-zA-Z]$
unfoldable pub matches_name : List ℕ → Bool
unfolding all_name_chars ends_with_letter without_last
matches_name [] = false
matches_name (c ∷ cs) = is_letter c && tail_matches cs

unfoldable pub returns_plugin_info : Spec (Unit {0})
returns_plugin_info = do
  r ← Rpc.plugin_info
  expect_no_error r.error
  res ← expect_some r.response
  expect (not (eqb (len res.name) 0))
  expect (leb (len res.name) 63)
  expect (matches_name (codes res.name))
