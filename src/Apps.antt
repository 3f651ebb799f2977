-- ===== src/Apps.antt =====
-- The applications on the platform: apps/ and services/services_description.hpp.
pub mod Float
pub mod Pair
pub mod SpeedLogic
pub mod SpeedClient
pub mod SensorProvider
