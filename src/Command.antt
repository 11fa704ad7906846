-- ===== src/Command.antt =====
-- cmd/csi-sanity/main.go: the flags, the checks of the configuration, and the exit status. Package flag
-- makes a list of settings from the command line, in its order.
pub mod Checks
use csi_test.Prelude.{
  ℕ, String, Bool, false, not, ◌||◌, List, [], ◌∷◌, Option, none, some, ◌==◌, if◌then◌else◌,
}
use csi_test.Prelude.Int.{ℤ}
use Prim.Native.String.{◌++◌ as str_append}
use csi_test.GoText.{codes, codes_eq, to_lower, trim_space}
use csi_test.Config.{Duration, TestConfig, new_test_config}
use csi_test.Registry.{Test}
use csi_test.Registry.Run.{Runner, test}

abbrev pub prefix : String
prefix = "csi."

-- A flag of the command line with its value; `version_flag` is the one without the prefix.
pub data Setting : Type 0 where
  set_endpoint set_controller_endpoint set_mount_dir set_staging_dir set_create_mount_path_cmd
        set_create_staging_path_cmd set_remove_mount_path_cmd set_remove_staging_path_cmd
        set_check_path_cmd set_secrets set_test_volume_access_type set_test_volume_parameters
        set_test_snapshot_parameters set_junit_file :
      String → Setting
  set_create_path_cmd_timeout set_remove_path_cmd_timeout set_check_path_cmd_timeout :
      Duration → Setting
  set_test_volume_size set_test_volume_expand_size : ℤ → Setting
  set_test_node_volume_attach_limit : Bool → Setting
  version_flag : Bool → Setting

-- The name of a flag.
abbrev pub flag_name : Setting → String
flag_name (set_endpoint v) = str_append prefix "endpoint"
flag_name (set_controller_endpoint v) = str_append prefix "controllerendpoint"
flag_name (set_mount_dir v) = str_append prefix "mountdir"
flag_name (set_staging_dir v) = str_append prefix "stagingdir"
flag_name (set_create_mount_path_cmd v) = str_append prefix "createmountpathcmd"
flag_name (set_create_staging_path_cmd v) = str_append prefix "createstagingpathcmd"
flag_name (set_create_path_cmd_timeout v) = str_append prefix "createpathcmdtimeout"
flag_name (set_remove_mount_path_cmd v) = str_append prefix "removemountpathcmd"
flag_name (set_remove_staging_path_cmd v) = str_append prefix "removestagingpathcmd"
flag_name (set_remove_path_cmd_timeout v) = str_append prefix "removepathcmdtimeout"
flag_name (set_check_path_cmd v) = str_append prefix "checkpathcmd"
flag_name (set_check_path_cmd_timeout v) = str_append prefix "checkpathcmdtimeout"
flag_name (set_secrets v) = str_append prefix "secrets"
flag_name (set_test_volume_access_type v) = str_append prefix "testvolumeaccesstype"
flag_name (set_test_volume_size v) = str_append prefix "testvolumesize"
flag_name (set_test_volume_expand_size v) = str_append prefix "testvolumeexpandsize"
flag_name (set_test_volume_parameters v) = str_append prefix "testvolumeparameters"
flag_name (set_test_snapshot_parameters v) = str_append prefix "testsnapshotparameters"
flag_name (set_test_node_volume_attach_limit v) = str_append prefix "testnodevolumeattachlimit"
flag_name (set_junit_file v) = str_append prefix "junitfile"
flag_name (version_flag v) = "version"

-- The variable of a flag is a field of the configuration, which starts with its default.
unfoldable pub apply_setting : Setting → TestConfig → TestConfig
apply_setting (set_endpoint v) config = record config { address = v }
apply_setting (set_controller_endpoint v) config = record config { controller_address = v }
apply_setting (set_mount_dir v) config = record config { target_path = v }
apply_setting (set_staging_dir v) config = record config { staging_path = v }
apply_setting (set_create_mount_path_cmd v) config = record config { create_target_path_cmd = v }
apply_setting (set_create_staging_path_cmd v) config = record config { create_staging_path_cmd = v }
apply_setting (set_create_path_cmd_timeout v) config = record config { create_path_cmd_timeout = v }
apply_setting (set_remove_mount_path_cmd v) config = record config { remove_target_path_cmd = v }
apply_setting (set_remove_staging_path_cmd v) config = record config { remove_staging_path_cmd = v }
apply_setting (set_remove_path_cmd_timeout v) config = record config { remove_path_cmd_timeout = v }
apply_setting (set_check_path_cmd v) config = record config { check_path_cmd = v }
apply_setting (set_check_path_cmd_timeout v) config = record config { check_path_cmd_timeout = v }
apply_setting (set_secrets v) config = record config { secrets_file = v }
apply_setting (set_test_volume_access_type v) config = record config { test_volume_access_type = v }
apply_setting (set_test_volume_size v) config = record config { test_volume_size = v }
apply_setting (set_test_volume_expand_size v) config = record config { test_volume_expand_size = v }
apply_setting (set_test_volume_parameters v) config = record config {
  test_volume_parameters_file = v;
}
apply_setting (set_test_snapshot_parameters v) config = record config {
  test_snapshot_parameters_file = v;
}
apply_setting (set_test_node_volume_attach_limit v) config = record config {
  test_node_volume_attach_limit = v;
}
apply_setting (set_junit_file v) config = record config { junit_file = v }
apply_setting (version_flag v) config = config

-- flag.Parse(): a flag that is given more than once has its last value.
unfoldable pub parse_flags : List Setting → TestConfig → TestConfig
unfolding apply_setting
parse_flags [] config = config
parse_flags (s ∷ settings) config = parse_flags settings (apply_setting s config)

-- The variable `version`.
unfoldable pub parse_version : List Setting → Bool → Bool
parse_version [] version = version
parse_version (version_flag v ∷ settings) version = parse_version settings v
parse_version (_ ∷ settings) version = parse_version settings version

abbrev pub is_access_type : String → Bool
is_access_type access_type =
    let at = trim_space (to_lower (codes access_type)) in
    codes_eq at (codes "mount") || codes_eq at (codes "block")

-- The exit status, and the configuration with which the suite has run, if it has.
pub record Exit : Type 0 where
  pub status : ℕ
  pub ran : Option TestConfig

-- testing.Fail() sets the result that is the exit status.
abbrev pub exit_status : Bool → ℕ
exit_status passed = if passed then 0 else 1

abbrev pub check_and_run : {A : Type 0} → List (Test A) → Runner A → Bool → TestConfig → Exit
check_and_run tests runner version config =
    if version
    then record { status = 0; ran = none }
    else if config.address == ""
    then record { status = 1; ran = none }
    else if not (is_access_type config.test_volume_access_type)
    then record { status = 1; ran = none }
    else record { status = exit_status (test tests runner config).0; ran = some config }

unfoldable pub main :
    {A : Type 0}
    → List (Test A)
    → Runner A
    → (temp_dir : String) → (uuid : ℕ → String) → List Setting
    → Exit
unfolding parse_flags parse_version test codes_eq to_lower trim_space
main tests runner temp_dir uuid settings =
    check_and_run tests runner (parse_version settings false)
      (parse_flags settings (new_test_config temp_dir uuid))
