-- ===== src/Someip.antt =====
-- The binding to vsomeip: com/someip_binding.hpp and com/someip_binding.cpp.
pub mod Requests
pub mod Binding
