-- ===== src/Node.antt =====
-- pkg/sanity/node.go: the specs of the Node service.
pub mod Setup
pub mod Full
pub mod Publish
pub mod Stage
pub mod Stats
