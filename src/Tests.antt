-- ===== src/Tests.antt =====
-- The theorems at concrete inputs, and runs of the definitions.
mod EngineWorld
mod Engine
mod RunWorld
mod Run
mod Times
mod Events
mod Awx
mod VmWorld
mod Vm
mod Binding
mod VarsFrom
