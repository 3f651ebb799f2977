-- ===== src/Phm/Ids.antt =====
-- phm/include/phm/phm_ids.hpp
use minimal_autosar_adaptive.Prelude.{ℕ}

abbrev pub service : ℕ
service = 0x7A01

abbrev pub instance_id : ℕ
instance_id = 0x0001

abbrev pub alive_method : ℕ
alive_method = 0x0001

abbrev pub checkpoint_method : ℕ
checkpoint_method = 0x0002
