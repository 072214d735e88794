-- ===== src/Run.antt =====
-- controller/ansiblerun.go: the life of one AnsibleRun.
pub mod Model
pub mod Hosts
pub mod Targets
pub mod Launch
pub mod Recover
pub mod Apply
pub mod Cleanup
pub mod Report
pub mod Core
pub mod AtMostOnce
