-- ===== src/Vm.antt =====
-- controller/ansiblebindingvm.go: the life of one AnsibleBindingVM, the claim of a binding on a VM.
pub mod Model
pub mod Same
pub mod Names
pub mod History
pub mod Ready
pub mod Poll
pub mod Apply
pub mod Hook
pub mod Events
pub mod Cleanup
pub mod Report
