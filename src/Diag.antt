-- ===== src/Diag.antt =====
-- Diagnostics: ara/diag/ and diagnostics/provider/.
pub mod Server
pub mod Frames
pub mod Provider
pub mod Run
