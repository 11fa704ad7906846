-- ===== src/Driver.antt =====
-- driver/driver.go: the mock driver that serves the suite's own tests, its checks of the requests'
-- secrets and its life cycle.
pub mod Auth
pub mod Server
pub mod Mock
pub mod Log
