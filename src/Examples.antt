-- ===== src/Examples.antt =====
-- The theorems at concrete inputs, and runs of the model.
mod Documents
mod Starting
mod Watching
mod Storing
mod Talking
mod Reporting
mod Filing
mod Managing
mod Driving
