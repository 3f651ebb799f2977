-- ===== src/Com.antt =====
-- ara::com: ara/com/ and include/ara/com/.
pub mod Adapter
pub mod Typed
