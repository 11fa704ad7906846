-- ===== src/Csi/NodeCapability.antt =====
-- csi.NodeServiceCapability_RPC_*
use csi_test.Prelude.{ℕ}

abbrev pub stage_unstage_volume : ℕ
stage_unstage_volume = 1

abbrev pub get_volume_stats : ℕ
get_volume_stats = 2

abbrev pub expand_volume : ℕ
expand_volume = 3
