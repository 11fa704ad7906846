-- ===== src/Setup.antt =====
-- pkg/sanity/sanity.go: what happens around a test, Setup, Teardown and Finalize of TestContext, and
-- the functions that they call.
pub mod Connections
pub mod Paths
pub mod Context
