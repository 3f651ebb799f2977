-- ===== src/Core.antt =====
-- The shared vocabulary of include/ara/core/ and what the program takes from its libraries.
pub mod Result
pub mod Json
pub mod Numbers
