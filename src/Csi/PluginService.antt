-- ===== src/Csi/PluginService.antt =====
-- csi.PluginCapability_Service_*
use csi_test.Prelude.{ℕ}

abbrev pub controller_service : ℕ
controller_service = 1

abbrev pub volume_accessibility_constraints : ℕ
volume_accessibility_constraints = 2
