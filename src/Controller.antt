-- ===== src/Controller.antt =====
-- pkg/sanity/controller.go: the specs of the Controller service.
pub mod Volumes
pub mod Create
pub mod Delete
pub mod Publish
pub mod Lifecycle
pub mod Snapshots
pub mod ListSnapshots
pub mod Expand
pub mod Verdicts
