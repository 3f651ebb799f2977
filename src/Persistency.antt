-- ===== src/Persistency.antt =====
-- Persistency: persistency/ and include/ara/per/.
pub mod Files
pub mod KeyValue
pub mod Registry
pub mod Facade
pub mod Trees
pub mod FileStorage
pub mod Handle
