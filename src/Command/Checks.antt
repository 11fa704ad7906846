-- ===== src/Command/Checks.antt =====
-- When the suite runs, with what, and the exit status.
use csi_test.Prelude.{
  ℕ, String, Bool, true, false, not, ◌&&◌, ◌||◌, ◌≡◌, refl, List, [], ◌∷◌, is_some, eqb, Bool-cases,
  inl, inr, arith, ◌==◌, if◌then◌else◌,
}
use csi_test.GoText.{codes, codes_eq, to_lower, trim_space}
use csi_test.Config.{TestConfig, new_test_config}
use csi_test.Csi.Messages.{AccessType, block, mount, unset}
use csi_test.Registry.{Test}
use csi_test.Registry.Run.{Runner, test}
use csi_test.Command.{
  Setting, set_endpoint, set_test_volume_access_type, version_flag, apply_setting, parse_flags,
  parse_version, is_access_type, check_and_run, main,
}

-- The last value of --csi.endpoint, if there is one.
unfoldable pub last_endpoint : String → List Setting → String
last_endpoint address [] = address
last_endpoint address (set_endpoint v ∷ settings) = last_endpoint v settings
last_endpoint address (_ ∷ settings) = last_endpoint address settings

parse-endpoint :
    (settings : List Setting) (config : TestConfig)
    → (parse_flags settings config).address ≡ last_endpoint config.address settings
unfolding parse_flags last_endpoint apply_setting
parse-endpoint [] config = refl
parse-endpoint (set_endpoint v ∷ settings) config =
    parse-endpoint settings (record config { address = v })
parse-endpoint (s ∷ settings) config = parse-endpoint settings (apply_setting s config)

-- The last value of --csi.testvolumeaccesstype, if there is one.
unfoldable pub last_access_type : String → List Setting → String
last_access_type name [] = name
last_access_type name (set_test_volume_access_type v ∷ settings) = last_access_type v settings
last_access_type name (_ ∷ settings) = last_access_type name settings

parse-access_type :
    (settings : List Setting) (config : TestConfig)
    → (parse_flags settings config).test_volume_access_type
      ≡ last_access_type config.test_volume_access_type settings
unfolding parse_flags last_access_type apply_setting
parse-access_type [] config = refl
parse-access_type (set_test_volume_access_type v ∷ settings) config =
    parse-access_type settings (record config { test_volume_access_type = v })
parse-access_type (s ∷ settings) config = parse-access_type settings (apply_setting s config)

-- There is a --version.
mentions_version : List Setting → Bool
mentions_version [] = false
mentions_version (version_flag v ∷ settings) = true
mentions_version (_ ∷ settings) = mentions_version settings

-- There is a --version, and none after it, with the value true.
unfoldable pub asks_version : List Setting → Bool
unfolding mentions_version
asks_version [] = false
asks_version (version_flag v ∷ settings) =
    let later = asks_version settings in if mentions_version settings then later else v
asks_version (_ ∷ settings) = asks_version settings

parse-version :
    (settings : List Setting) (version : Bool)
    → parse_version settings version
      ≡ (if mentions_version settings then asks_version settings else version)
unfolding parse_version asks_version mentions_version
parse-version [] version = refl
parse-version (version_flag v ∷ settings) version = parse-version settings v
parse-version (s ∷ settings) version = parse-version settings version

asks-mentions :
    (settings : List Setting) → mentions_version settings ≡ false → asks_version settings ≡ false
unfolding asks_version mentions_version
asks-mentions [] h = refl
asks-mentions (version_flag v ∷ settings) h = ground (arith, h)
asks-mentions (s ∷ settings) h = asks-mentions settings h

asked : (settings : List Setting) → parse_version settings false ≡ asks_version settings
asked settings =
    let parsed = parse-version settings false in
    elim (Bool-cases (mentions_version settings)) [
      | inl some_there ↦ ground (arith, parsed, some_there)
      | inr none_there ↦ ground (arith, parsed, none_there, asks-mentions settings none_there)
    ]

-- The text is "mount" or "block" up to case and space around it.
abbrev pub names_type : String → Bool
names_type text =
    let name = trim_space (to_lower (codes text)) in
    codes_eq name (codes "block") || codes_eq name (codes "mount")

type-named : (text : String) → is_access_type text ≡ names_type text
type-named text = ground arith

abbrev pub type_name : AccessType → String
type_name mount = "mount"
type_name block = "block"
type_name unset = ""

module _ {A : Type 0} (tests : List (Test A)) (runner : Runner A) (version : Bool)
    (config : TestConfig) where
  check_and_run-exit :
      let exit = check_and_run tests runner version config in
      (is_some exit.ran ≡ (
        not version && not (config.address == "") && is_access_type config.test_volume_access_type))
      × (eqb exit.status 0 ≡ (version || (is_some exit.ran && (test tests runner config).0)))
  check_and_run-exit = ground arith

module _ {A : Type 0} (tests : List (Test A)) (runner : Runner A) (temp_dir : String)
    (uuid : ℕ → String) (settings : List Setting) where
  -- The suite runs exactly if the last --version, if there is one, is false, the last --csi.endpoint is not empty, and the
  -- last --csi.testvolumeaccesstype, which is "mount" if there is none, is "mount" or "block" up to case
  -- and space around it. The exit status is 0 exactly if --version is asked for, or the suite runs and
  -- passes.
  pub main-exit :
      let version = asks_version settings in
      let config = parse_flags settings (new_test_config temp_dir uuid) in
      let exit = main tests runner temp_dir uuid settings in
      (is_some exit.ran ≡ (
        not version
        && not (last_endpoint "" settings == "")
        && names_type (last_access_type "mount" settings)))
      × (eqb exit.status 0 ≡ (version || (is_some exit.ran && (test tests runner config).0)))
  unfolding main new_test_config
  main-exit =
      let start = new_test_config temp_dir uuid in
      let config = parse_flags settings start in
      let address : config.address ≡ last_endpoint "" settings = parse-endpoint settings start in
      let name : config.test_volume_access_type ≡ last_access_type "mount" settings =
        parse-access_type settings start in
      let version : parse_version settings false ≡ asks_version settings = asked settings in
      ground (
        arith,
        address,
        name,
        version,
        type-named config.test_volume_access_type,
        check_and_run-exit tests runner (parse_version settings false) config,
      )
