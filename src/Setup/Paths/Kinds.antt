-- ===== src/Setup/Paths/Kinds.antt =====
-- The results of the functions on paths.
use csi_test.Prelude.{
  String, Bool, true, false, ◌≡◌, Option, none, some, is_none, refl, ◌==◌, if◌then◌else◌,
}
use Prim.Native.String.{◌++◌ as str_append}
use csi_test.Config.{Result, PathKind, TestConfig}
use csi_test.Setup.Paths.{
  Host, StatResult, regular, directory, other_mode, does_not_exist, stat_failed, is_kind,
  is_path_kind, default_check_path, check_path, check_by_command, trimmed, kind_of_stat,
  kind_of_output, check_without_command, success, or_failure,
}

-- A result is proper: without an error the value is one of the four kinds, and with one it is empty.
abbrev pub is_proper : Result PathKind → Bool
is_proper r = if is_none r.err then is_kind r.value else r.value == ""

if-proper :
    (b : Bool) (r t : Result PathKind)
    → is_proper r ≡ true
    → is_proper t ≡ true
    → is_proper (if b then r else t) ≡ true
if-proper true r t pr pt = pr
if-proper false r t pr pt = pt

stat-proper : (stat : StatResult) → is_proper (kind_of_stat stat) ≡ true
stat-proper regular = refl
stat-proper directory = refl
stat-proper other_mode = refl
stat-proper does_not_exist = refl
stat-proper (stat_failed err) = refl

output-proper : (out : String) (err : Option String) → is_proper (kind_of_output out err) ≡ true
unfolding kind_of_output is_path_kind
output-proper out none = go (is_kind out) refl
  where
    go :
        (b : Bool)
        → is_kind out ≡ b
        → is_proper (
            or_failure
              (λ err. str_append "check path command failed: " err)
              (if b
                then success out
                else record { value = out; err = some (str_append "invalid PathType: " out) }))
          ≡ true
    go true p = p
    go false p = refl
output-proper out (some err) = refl

without-proper :
    (host : Host) (path : String) (custom : Option (String → Result PathKind))
    → ((check : String → Result PathKind) → custom ≡ some check → is_proper (check path) ≡ true)
    → is_proper (check_without_command host path custom) ≡ true
unfolding check_without_command default_check_path
without-proper host path none h = stat-proper (host.stat path)
without-proper host path (some check) h = h check refl

-- CheckPath returns one of the four kinds without an error, or the empty kind with one, provided that
-- a custom check that the configuration has does so.
pub check_path-proper :
    (host : Host) (path : String) (config : TestConfig)
    → ((check : String → Result PathKind)
        → config.check_path ≡ some check
        → is_proper (check path) ≡ true)
    → is_proper (check_path host path (some config)) ≡ true
unfolding check_path check_by_command
check_path-proper host path config custom =
    let out = trimmed host (host.run config.check_path_cmd path config.check_path_cmd_timeout) in
    if-proper (path == "") _ _ refl (
      if-proper (config.check_path_cmd == "") _ _
        (without-proper host path config.check_path custom) (output-proper out.value out.err))
