-- ===== src/Examples/Arguments.antt =====
-- A driver that refuses what lacks a field, and the specs that send it such requests.
use csi_test.Prelude.{Bool, ◌||◌, [], is_none, is_empty, ◌==◌, if◌then◌else◌}
use csi_test.Prelude.Int.{pos}
use csi_test.Csi.Status.{Reply, invalid_argument, unimplemented}
use csi_test.Csi.Client.{Client}
use csi_test.Examples.Drivers.{answer, status, small_driver}

abbrev pub refuse_if : {A : Type 0} → Bool → Reply A → Reply A
refuse_if lacks r = if lacks then status invalid_argument else r

abbrev pub strict_driver : Client
strict_driver = record small_driver {
  create_volume = λ h req.
      refuse_if (req.name == "" || is_empty req.volume_capabilities)
        (small_driver.create_volume h req);
  controller_publish = λ h req.
      refuse_if (req.volume_id == "" || req.node_id == "" || is_none req.volume_capability)
        (answer (record { publish_context = [] }));
  controller_unpublish = λ h req. refuse_if (req.volume_id == "") (answer tt);
  validate = λ h req.
      refuse_if (req.volume_id == "" || is_empty req.volume_capabilities) (status unimplemented);
  controller_expand = λ h req.
      refuse_if (req.volume_id == "" || is_none req.capacity_range)
        (answer (record { capacity_bytes = pos 0 }));
  create_snapshot =
      λ h req. refuse_if (req.name == "" || req.source_volume_id == "") (status unimplemented);
  delete_snapshot = λ h req. refuse_if (req.snapshot_id == "") (answer tt);
  node_stage = λ h req.
      refuse_if
        (req.volume_id == "" || req.staging_target_path == "" || is_none req.volume_capability)
        (answer tt);
  node_unstage =
      λ h req. refuse_if (req.volume_id == "" || req.staging_target_path == "") (answer tt);
  node_publish = λ h req.
      refuse_if (req.volume_id == "" || req.target_path == "" || is_none req.volume_capability)
        (answer tt);
  node_unpublish = λ h req. refuse_if (req.volume_id == "" || req.target_path == "") (answer tt);
  volume_stats =
      λ h req. refuse_if (req.volume_id == "" || req.volume_path == "") (status unimplemented);
  node_expand = λ h req. refuse_if (req.volume_id == "" || req.volume_path == "") (answer tt);
}
