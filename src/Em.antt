-- ===== src/Em.antt =====
-- The execution manager: em/execution_manager.cpp.
pub mod Config
pub mod Manifests
pub mod Environment
pub mod Boot
pub mod Clock
pub mod Monitor
pub mod Handlers
pub mod Supervision
pub mod Loop
pub mod Main
