-- ===== src/Csi/ControllerCapability.antt =====
-- csi.ControllerServiceCapability_RPC_*
use csi_test.Prelude.{ℕ}

abbrev pub create_delete_volume : ℕ
create_delete_volume = 1

abbrev pub publish_unpublish_volume : ℕ
publish_unpublish_volume = 2

abbrev pub list_volumes : ℕ
list_volumes = 3

abbrev pub get_capacity : ℕ
get_capacity = 4

abbrev pub create_delete_snapshot : ℕ
create_delete_snapshot = 5

abbrev pub list_snapshots : ℕ
list_snapshots = 6

abbrev pub clone_volume : ℕ
clone_volume = 7

abbrev pub publish_readonly : ℕ
publish_readonly = 8

abbrev pub expand_volume : ℕ
expand_volume = 9
