-- ===== src/Logging.antt =====
-- Logging: logging/include/ and logging/src/.
pub mod Logger
pub mod Format
pub mod Dlt
pub mod Calls
