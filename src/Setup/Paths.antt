-- ===== src/Setup/Paths.antt =====
-- pkg/sanity/sanity.go: the directories of a test and the kinds of paths. What the operating system
-- does is the parameter `Host`.
pub mod Kinds
use csi_test.Prelude.{String, Bool, Option, none, some, ◌==◌, ◌||◌, if◌then◌else◌}
use csi_test.Config.{Result, Duration, PathKind, TestConfig}
use Prim.Native.String.{◌++◌ as str_append}

-- What os.Stat reports: an error, which may say that the path does not exist, or a mode.
pub data StatResult : Type 0 where
  regular directory other_mode does_not_exist : StatResult
  stat_failed : String → StatResult

-- `run cmd path timeout` is the output of the command or its error; an error of the other calls is
-- `some` of its message. `trim_space` is strings.TrimSpace.
pub record Host : Type 0 where
  pub trim_space : String → String
  pub run : String → String → Duration → Result String
  pub mkdir : String → Option String
  pub remove : String → Option String
  pub stat : String → StatResult

-- The result of a failure: the value is empty.
abbrev pub failure : String → Result String
failure message = record { value = ""; err = some message }

abbrev pub success : String → Result String
success value = record { value = value; err = none }

-- The result of `call` if it has no error, and otherwise the failure that `message` describes.
abbrev pub or_failure : (String → String) → Result String → Result String
or_failure message r = elim r.err [ none ↦ success r.value | some err ↦ failure (message err) ]

abbrev pub trimmed : Host → Result String → Result String
trimmed host out = record out { value = host.trim_space out.value }

unfoldable pub create_mount_target_location :
    Host → String → String → Option (String → Result String) → Duration → Result String
create_mount_target_location host target_path create_path_cmd custom_create_dir timeout =
    if target_path == ""
    then success target_path
    else if create_path_cmd == ""
    then elim custom_create_dir [
      | some create ↦ or_failure (λ err. err) (create target_path)
      | none ↦ elim (host.mkdir target_path) [ none ↦ success target_path | some err ↦ failure err ]
    ]
    else or_failure (λ err. str_append "target path creation command failed: " err)
        (trimmed host (host.run create_path_cmd target_path timeout))

unfoldable pub remove_mount_target_location :
    Host → String → String → Option (String → Option String) → Duration → Option String
remove_mount_target_location host target_path remove_path_cmd custom_remove_path timeout =
    if target_path == ""
    then none
    else if remove_path_cmd == ""
    then elim custom_remove_path [
      | some remove ↦ remove target_path
      | none ↦ host.remove target_path
    ]
    else (host.run remove_path_cmd target_path timeout).err

abbrev pub path_is_file : PathKind
path_is_file = "file"

abbrev pub path_is_dir : PathKind
path_is_dir = "directory"

abbrev pub path_is_not_found : PathKind
path_is_not_found = "not_found"

abbrev pub path_is_other : PathKind
path_is_other = "other"

abbrev pub is_kind : String → Bool
is_kind pk =
    pk == path_is_file || pk == path_is_dir || pk == path_is_not_found || pk == path_is_other

unfoldable pub is_path_kind : String → Result PathKind
is_path_kind pk =
    if is_kind pk
    then success pk
    else record { value = pk; err = some (str_append "invalid PathType: " pk) }

abbrev pub kind_of_stat : StatResult → Result PathKind
kind_of_stat regular = success path_is_file
kind_of_stat directory = success path_is_dir
kind_of_stat other_mode = success path_is_other
kind_of_stat does_not_exist = success path_is_not_found
kind_of_stat (stat_failed err) = failure err

-- defaultCheckPath
unfoldable pub default_check_path : Host → String → Result PathKind
default_check_path host path = kind_of_stat (host.stat path)

-- The kind that the output of the check command names.
unfoldable pub kind_of_output : String → Option String → Result PathKind
unfolding is_path_kind
kind_of_output out none =
    or_failure (λ err. str_append "check path command failed: " err) (is_path_kind out)
kind_of_output out (some err) = failure (str_append "check path command failed: " err)

unfoldable pub check_by_command : Result String → Result PathKind
unfolding kind_of_output
check_by_command out = kind_of_output out.value out.err

unfoldable pub check_without_command :
    Host → String → Option (String → Result PathKind) → Result PathKind
unfolding default_check_path
check_without_command host path none = default_check_path host path
check_without_command host path (some check) = check path

-- CheckPath; a nil config is none.
unfoldable pub check_path : Host → String → Option TestConfig → Result PathKind
unfolding check_by_command check_without_command
check_path host path none =
    if path == ""
    then failure "path argument must not be empty"
    else failure "config argument must not be nil"
check_path host path (some config) =
    if path == ""
    then failure "path argument must not be empty"
    else if config.check_path_cmd == ""
    then check_without_command host path config.check_path
    else check_by_command
        (trimmed host (host.run config.check_path_cmd path config.check_path_cmd_timeout))
