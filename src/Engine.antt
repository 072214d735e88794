-- ===== src/Engine.antt =====
-- controller/engine.go and controller/workqueue.go: the generic reconcile loop of one kind.
pub mod Finalizers
pub mod Patch
pub mod Reconcile
pub mod Queue
pub mod Events
pub mod Report
