-- ===== src/Setup/Context/Ready.antt =====
-- What a test finds after a Setup that has succeeded.
use csi_test.Prelude.{String, true, ◌≡◌, refl, none, is_some, arith}
use csi_test.Config.{Result, TestConfig}
use csi_test.Spec.{done}
use csi_test.Setup.Connections.{connect}
use csi_test.Setup.Connections.Reuse.{Wired, connect-Wired}
use csi_test.Setup.Paths.{create_mount_target_location}
use csi_test.Setup.Context.{
  World, Context, Step, ◌>=>◌, load_volume_parameters, load_snapshot_parameters, set_secrets,
  open_connections, create_target, create_staging, setup,
}

-- The directory for the target path as the configuration says.
abbrev pub target_result : World → TestConfig → Result String
target_result w config =
    create_mount_target_location w.host config.target_path config.create_target_path_cmd
      config.create_target_dir config.create_path_cmd_timeout

abbrev pub staging_result : World → TestConfig → Result String
staging_result w config =
    create_mount_target_location w.host config.staging_path config.create_staging_path_cmd
      config.create_staging_dir config.create_path_cmd_timeout

-- Two steps that are done: each is, and the second ends where both end.
record Both (m n : Step) (w : World) (c : Context) : Type 0 where
  first : (m w c).0 ≡ done tt
  second : (n w (m w c).1).0 ≡ done tt
  ends : ((m >=> n) w c).1 ≡ (n w (m w c).1).1

Both-done : (m n : Step) (w : World) (c : Context) → ((m >=> n) w c).0 ≡ done tt → Both m n w c
unfolding ◌>=>◌
Both-done m n w c h = ground (arith, h)

-- The two directories, from a context with the rest in place.
record Placed (w : World) (c d : Context) : Type 0 where
  secrets : d.sc.secrets ≡ c.sc.secrets
  connections : d.connections ≡ c.connections
  config : d.sc.config ≡ c.sc.config
  target : target_result w c.sc.config ≡ record { value = d.sc.target_path; err = none }
  staging : staging_result w c.sc.config ≡ record { value = d.sc.staging_path; err = none }

target-done :
    (w : World) (c : Context)
    → (create_target w c).0 ≡ done tt
    → ((create_target w c).1
        ≡ record c { sc = record c.sc { target_path = (target_result w c.sc.config).value } })
      × ((target_result w c.sc.config).err ≡ none)
unfolding create_target
target-done w c h = ground (arith, h)

staging-done :
    (w : World) (c : Context)
    → (create_staging w c).0 ≡ done tt
    → ((create_staging w c).1
        ≡ record c { sc = record c.sc { staging_path = (staging_result w c.sc.config).value } })
      × ((staging_result w c.sc.config).err ≡ none)
unfolding create_staging
staging-done w c h = ground (arith, h)

directories-Placed :
    (w : World) (c : Context)
    → ((create_target >=> create_staging) w c).0 ≡ done tt
    → Placed w c ((create_target >=> create_staging) w c).1
directories-Placed w c h =
    let b = Both-done create_target create_staging w c h in
    let t = target-done w c b.first in
    let g = staging-done w (create_target w c).1 b.second in
    record {
      secrets = ground (arith, b, t, g);
      connections = ground (arith, b, t, g);
      config = ground (arith, b, t, g);
      target = ground (arith, b, t, g);
      staging = ground (arith, b, t, g);
    }

-- The steps before the connections leave them and what they depend on alone.
record Same (w : World) (c d : Context) : Type 0 where
  connections : d.connections ≡ c.connections
  address : d.sc.config.address ≡ c.sc.config.address
  target : target_result w d.sc.config ≡ target_result w c.sc.config
  staging : staging_result w d.sc.config ≡ staging_result w c.sc.config

load_volume_parameters-Same : (w : World) (c : Context) → Same w c (load_volume_parameters w c).1
unfolding load_volume_parameters
load_volume_parameters-Same w c = record {
  connections = refl;
  address = refl;
  target = refl;
  staging = refl;
}

load_snapshot_parameters-Same :
    (w : World) (c : Context) → Same w c (load_snapshot_parameters w c).1
unfolding load_snapshot_parameters
load_snapshot_parameters-Same w c = record {
  connections = refl;
  address = refl;
  target = refl;
  staging = refl;
}

set_secrets-Same : (w : World) (c : Context) → Same w c (set_secrets w c).1
unfolding set_secrets
set_secrets-Same w c = record { connections = refl; address = refl; target = refl; staging = refl }

has_secrets : (w : World) (c : Context) → is_some (set_secrets w c).1.sc.secrets ≡ true
unfolding set_secrets
has_secrets w c = refl

record Connected (w : World) (c d : Context) : Type 0 where
  sc : d.sc ≡ c.sc
  wired : Wired d.connections
  connected : is_some d.connections.conn ≡ true
  address : d.connections.conn_address ≡ c.sc.config.address

open-Connected :
    (w : World) (c : Context)
    → Wired c.connections
    → (open_connections w c).0 ≡ done tt
    → Connected w c (open_connections w c).1
unfolding open_connections
open-Connected w c wired ok =
    let config = c.sc.config in
    let is_ok : (connect w.dial config.address config.controller_address c.connections).0 ≡ true =
      ground (arith, ok) in
    let (after, same, there) =
      connect-Wired w.dial config.address config.controller_address c.connections wired is_ok in
    record { sc = refl; wired = after; connected = there; address = same }

-- If the connections of the context have been opened to the addresses that it remembers for them, then
-- after a Setup that is done they have been so too, and there is a connection that was opened to the
-- configured address; the context has secrets, and the target and staging paths that the creation of
-- the directories returned without an error.
pub setup-ready :
    (w : World) (c : Context)
    → Wired c.connections
    → (setup w c).0 ≡ done tt
    → let d = (setup w c).1 in
      (is_some d.sc.secrets ≡ true)
      × Wired d.connections
      × (is_some d.connections.conn ≡ true)
      × (d.connections.conn_address ≡ c.sc.config.address)
      × (target_result w c.sc.config ≡ record { value = d.sc.target_path; err = none })
      × (staging_result w c.sc.config ≡ record { value = d.sc.staging_path; err = none })
unfolding setup set_secrets load_snapshot_parameters load_volume_parameters
setup-ready w c wired ok =
    let tail3 = create_target >=> create_staging in
    let tail2 = open_connections >=> tail3 in
    let tail1 = set_secrets >=> tail2 in
    let c1 = (load_volume_parameters w c).1 in
    let c2 = (load_snapshot_parameters w c1).1 in
    let c3 = (set_secrets w c2).1 in
    let c4 = (open_connections w c3).1 in
    let b1 = Both-done load_volume_parameters (load_snapshot_parameters >=> tail1) w c ok in
    let b2 = Both-done load_snapshot_parameters tail1 w c1 b1.second in
    let b3 = Both-done set_secrets tail2 w c2 b2.second in
    let b4 = Both-done open_connections tail3 w c3 b3.second in
    let placed = directories-Placed w c4 b4.second in
    let s1 = load_volume_parameters-Same w c in
    let s2 = load_snapshot_parameters-Same w c1 in
    let s3 = set_secrets-Same w c2 in
    let wired3 : Wired c3.connections = record {
      node = λ n h. wired.node n h;
      controller = λ n h. wired.controller n h;
    } in
    let opened = open-Connected w c3 wired3 b4.first in
    let secrets = has_secrets w c2 in
    let ends : (setup w c).1 ≡ (tail3 w c4).1 = ground (arith, b1, b2, b3, b4) in
    let connections : (setup w c).1.connections ≡ c4.connections = ground (arith, ends, placed) in
    (
      ground (arith, ends, placed, opened, secrets),
      rw (connections) opened.wired,
      ground (arith, connections, opened),
      ground (arith, connections, opened, s1, s2, s3),
      ground (arith, ends, placed, opened, s1, s2, s3),
      ground (arith, ends, placed, opened, s1, s2, s3),
    )
