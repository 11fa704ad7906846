-- ===== src/Config.antt =====
-- The configuration and the context of a run: the types of pkg/sanity/sanity.go and the ID generator
-- of pkg/sanity/util.go.
use Prim.Native.String.{◌++◌ as str_append, slice}
use csi_test.Prelude.{ℕ, String, Bool, false, Option, none, [], StringMap, ◌*◌}
use csi_test.Prelude.Int.{ℤ, pos}

pub record CsiSecrets : Type 0 where
  pub create_volume_secret : StringMap
  pub delete_volume_secret : StringMap
  pub controller_publish_volume_secret : StringMap
  pub controller_unpublish_volume_secret : StringMap
  pub controller_validate_volume_capabilities_secret : StringMap
  pub node_stage_volume_secret : StringMap
  pub node_publish_volume_secret : StringMap
  pub create_snapshot_secret : StringMap
  pub delete_snapshot_secret : StringMap
  pub controller_expand_volume_secret : StringMap
  pub list_snapshots_secret : StringMap

-- `&CSISecrets{}`
abbrev pub zero_secrets : CsiSecrets
zero_secrets = record {
  create_volume_secret = [];
  delete_volume_secret = [];
  controller_publish_volume_secret = [];
  controller_unpublish_volume_secret = [];
  controller_validate_volume_capabilities_secret = [];
  node_stage_volume_secret = [];
  node_publish_volume_secret = [];
  create_snapshot_secret = [];
  delete_snapshot_secret = [];
  controller_expand_volume_secret = [];
  list_snapshots_secret = [];
}

-- A generator of IDs. The unique ones differ from call to call, so those functions take the number
-- of unique IDs generated before.
pub record IdGenerator : Type 0 where
  pub unique_valid_volume_id : ℕ → String
  pub invalid_volume_id : String
  pub unique_valid_node_id : ℕ → String
  pub invalid_node_id : String

-- `uuid n` is the text of the n-th `uuid.New()`.
pub default_id_generator : (uuid : ℕ → String) → IdGenerator
default_id_generator uuid = record {
  unique_valid_volume_id = λ n. str_append "fake-vol-id-" (slice (uuid n) 0 10);
  invalid_volume_id = "fake-vol-id";
  unique_valid_node_id = λ n. str_append "fake-node-id-" (slice (uuid n) 0 10);
  invalid_node_id = "fake-node-id";
}

-- The pair `(value, err)` of a function that may fail; `err` holds the message.
pub record Result (A : Type 0) : Type 0 where
  pub value : A
  pub err : Option String

-- A duration in nanoseconds.
abbrev pub Duration : Type 0
Duration = ℤ

abbrev pub PathKind : Type 0
PathKind = String

-- The dial options are left out: they are handed on to package grpc unread.
pub record TestConfig : Type 0 where
  pub target_path : String
  pub staging_path : String
  pub address : String
  pub controller_address : String
  pub secrets_file : String
  pub test_volume_size : ℤ
  pub test_volume_expand_size : ℤ
  pub test_volume_parameters_file : String
  pub test_volume_parameters : StringMap
  pub test_node_volume_attach_limit : Bool
  pub test_volume_access_type : String
  pub junit_file : String
  pub test_snapshot_parameters_file : String
  pub test_snapshot_parameters : StringMap
  pub create_target_dir : Option (String → Result String)
  pub create_staging_dir : Option (String → Result String)
  pub remove_target_path : Option (String → Option String)
  pub remove_staging_path : Option (String → Option String)
  pub create_target_path_cmd : String
  pub create_staging_path_cmd : String
  pub create_path_cmd_timeout : Duration
  pub remove_target_path_cmd : String
  pub remove_staging_path_cmd : String
  pub remove_path_cmd_timeout : Duration
  pub id_gen : IdGenerator
  pub idempotent_count : ℤ
  pub check_path : Option (String → Result PathKind)
  pub check_path_cmd : String
  pub check_path_cmd_timeout : Duration

ten_seconds : Duration
ten_seconds = pos (10 * 1000000000)

-- `temp_dir` is `os.TempDir()`.
unfoldable pub new_test_config : (temp_dir : String) → (uuid : ℕ → String) → TestConfig
unfolding ten_seconds default_id_generator
new_test_config temp_dir uuid = record {
  target_path = str_append temp_dir "/csi-mount";
  staging_path = str_append temp_dir "/csi-staging";
  address = "";
  controller_address = "";
  secrets_file = "";
  test_volume_size = pos (10 * 1024 * 1024 * 1024);
  test_volume_expand_size = pos 0;
  test_volume_parameters_file = "";
  test_volume_parameters = [];
  test_node_volume_attach_limit = false;
  test_volume_access_type = "mount";
  junit_file = "";
  test_snapshot_parameters_file = "";
  test_snapshot_parameters = [];
  create_target_dir = none;
  create_staging_dir = none;
  remove_target_path = none;
  remove_staging_path = none;
  create_target_path_cmd = "";
  create_staging_path_cmd = "";
  create_path_cmd_timeout = ten_seconds;
  remove_target_path_cmd = "";
  remove_staging_path_cmd = "";
  remove_path_cmd_timeout = ten_seconds;
  id_gen = default_id_generator uuid;
  idempotent_count = pos 10;
  check_path = none;
  check_path_cmd = "";
  check_path_cmd_timeout = ten_seconds;
}

-- The context of a test. A `secrets` pointer that is nil is `none`.
pub record TestContext : Type 0 where
  pub config : TestConfig
  pub secrets : Option CsiSecrets
  pub target_path : String
  pub staging_path : String
