-- ===== src/Phm.antt =====
-- Platform health management: phm/ and include/ara/phm/.
pub mod Supervisor
pub mod Ids
pub mod Client
