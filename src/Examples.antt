-- ===== src/Examples.antt =====
-- Runs at concrete inputs: a driver and an environment, and the theorems of the library at them.
pub mod Drivers
mod Suite
mod Setup
mod Driver
mod Endpoint
mod Proxy
mod Connect
mod Mock
mod Registry
mod Verdicts
mod Node
mod Acceptance
mod Arguments
mod Concurrent
