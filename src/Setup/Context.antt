-- ===== src/Setup/Context.antt =====
-- pkg/sanity/sanity.go: Setup and Teardown of TestContext, with loadSecrets and loadFromFile. Files,
-- YAML and the directories are parameters.
pub mod Ready
use csi_test.Prelude.{
  String, Bool, true, false, Option, some, StringMap, is_none, ◌==◌, if◌then◌else◌,
}
use csi_test.Config.{CsiSecrets, zero_secrets, Result, TestContext}
use csi_test.Spec.{Outcome, done, failed, skipped, panicked}
use csi_test.Setup.Connections.{Dialler, Connections, connect}
use csi_test.Setup.Paths.{Host, create_mount_target_location, remove_mount_target_location}

-- ioutil.ReadFile, and yaml.Unmarshal of a text over what the target holds already.
pub record Files : Type 0 where
  pub read_file : String → Result String
  pub unmarshal_map : String → StringMap → StringMap × Option String
  pub unmarshal_secrets : String → CsiSecrets → CsiSecrets × Option String

-- The world of a test context.
pub record World : Type 0 where
  pub host : Host
  pub files : Files
  pub dial : Dialler

-- A TestContext with its connections.
pub record Context : Type 0 where
  pub sc : TestContext
  pub connections : Connections

abbrev pub Step : Type 0
Step = World → Context → Outcome (Unit {0}) × Context

abbrev pub after : Outcome (Unit {0}) → Step → Step
after (done x) next w c = next w c
after failed next w c = (failed, c)
after skipped next w c = (skipped, c)
after panicked next w c = (panicked, c)

infixr 20 ◌>=>◌
unfoldable pub ◌>=>◌ : Step → Step → Step
◌>=>◌ m n w c = let (r, c1) = m w c in after r n w c1

-- loadFromFile: the map after it, and false where it panics.
unfoldable pub load_from_file : Files → String → StringMap → Bool × StringMap
load_from_file files from to =
    if from == ""
    then (true, to)
    else let r = files.read_file from in
      if is_none r.err
      then (let (m, err) = files.unmarshal_map r.value to in (is_none err, m))
      else (false, to)

-- loadSecrets: the secrets, and false where it has an error.
unfoldable pub load_secrets : Files → String → Bool × CsiSecrets
load_secrets files path =
    let r = files.read_file path in
    if is_none r.err
    then (let (s, err) = files.unmarshal_secrets r.value zero_secrets in (is_none err, s))
    else (false, zero_secrets)

abbrev pub expected : Bool → Outcome (Unit {0})
expected ok = if ok then done tt else failed

abbrev pub not_panicked : Bool → Outcome (Unit {0})
not_panicked ok = if ok then done tt else panicked

unfoldable pub load_volume_parameters : Step
unfolding load_from_file
load_volume_parameters w c =
    let config = c.sc.config in
    let (ok, m) =
      load_from_file w.files config.test_volume_parameters_file config.test_volume_parameters in
    let config1 = record config { test_volume_parameters = m } in
    (not_panicked ok, record c { sc = record c.sc { config = config1 } })

unfoldable pub load_snapshot_parameters : Step
unfolding load_from_file
load_snapshot_parameters w c =
    let config = c.sc.config in
    let (ok, m) =
      load_from_file w.files config.test_snapshot_parameters_file config.test_snapshot_parameters in
    let config1 = record config { test_snapshot_parameters = m } in
    (not_panicked ok, record c { sc = record c.sc { config = config1 } })

unfoldable pub set_secrets : Step
unfolding load_secrets
set_secrets w c =
    let (ok, secrets) =
      if c.sc.config.secrets_file == ""
      then (true, zero_secrets)
      else load_secrets w.files c.sc.config.secrets_file in
    (expected ok, record c { sc = record c.sc { secrets = some secrets } })

unfoldable pub open_connections : Step
unfolding connect
open_connections w c =
    let config = c.sc.config in
    let (ok, connections) = connect w.dial config.address config.controller_address c.connections in
    (expected ok, record c { connections = connections })

unfoldable pub create_target : Step
create_target w c =
    let config = c.sc.config in
    let r =
      create_mount_target_location w.host config.target_path config.create_target_path_cmd
        config.create_target_dir config.create_path_cmd_timeout in
    if is_none r.err
    then (done tt, record c { sc = record c.sc { target_path = r.value } })
    else (failed, c)

unfoldable pub create_staging : Step
create_staging w c =
    let config = c.sc.config in
    let r =
      create_mount_target_location w.host config.staging_path config.create_staging_path_cmd
        config.create_staging_dir config.create_path_cmd_timeout in
    if is_none r.err
    then (done tt, record c { sc = record c.sc { staging_path = r.value } })
    else (failed, c)

unfoldable pub setup : Step
setup =
    load_volume_parameters >=> load_snapshot_parameters >=> set_secrets >=> open_connections
    >=> create_target >=> create_staging

-- Teardown(): both removals run, and their errors are dropped. The results are those errors.
unfoldable pub teardown : World → Context → Option String × Option String
teardown w c =
    let config = c.sc.config in
    (
      remove_mount_target_location w.host c.sc.target_path config.remove_target_path_cmd
          config.remove_target_path config.remove_path_cmd_timeout,
      remove_mount_target_location w.host c.sc.staging_path config.remove_staging_path_cmd
          config.remove_staging_path config.remove_path_cmd_timeout,
    )
