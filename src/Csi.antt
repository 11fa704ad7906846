-- ===== src/Csi.antt =====
-- What crosses the gRPC boundary: errors and replies, the messages of the CSI services and the
-- client through which the driver under test is reached. The messages are the structs of the
-- generated package vendor/github.com/container-storage-interface/spec/lib/go/csi.
pub mod Status
pub mod Messages
pub mod Snapshots
pub mod Node
pub mod Capabilities
pub mod ControllerCapability
pub mod NodeCapability
pub mod PluginService
pub mod Client
