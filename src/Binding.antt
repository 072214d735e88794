-- ===== src/Binding.antt =====
-- controller/ansiblebinding.go: a binding and the children that it keeps, one for each VM that it
-- selects.
pub mod Model
pub mod Writes
pub mod Summary
pub mod Report
pub mod Children
pub mod Orphans
pub mod Claims
pub mod Details
pub mod Apply
