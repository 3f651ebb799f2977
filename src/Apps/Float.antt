-- ===== src/Apps/Float.antt =====
-- What the applications use of `float`, as an interface: there are no floats here. A literal is its
-- text. `stof` is `none` where std::stof throws. The codec of floats is that of
-- include/ara/com/core.hpp, and the service that carries them of services/services_description.hpp.
use minimal_autosar_adaptive.Prelude.{Bool, Bytes, String, Option, none, some}
use minimal_autosar_adaptive.Com.Typed.{Codec, Descriptor, EventEntry}

pub record Float (F : Type 0) : Type 0 where
  pub literal : String → F
  pub plus : F → F → F
  pub times : F → F → F
  pub sin : F → F
  pub greater : F → F → Bool
  pub to_string : F → Bytes
  pub stof : Bytes → Option F

module _ {F : Type 0} (float : Float F) where
  -- try { return std::stof(s); } catch (...) { return 0.f; }
  unfoldable pub stof_or_zero : Bytes → F
  stof_or_zero s = elim (float.stof s) [ none ↦ float.literal "0.0" | some v ↦ v ]

  unfoldable pub float_codec : Codec F
  unfolding stof_or_zero
  float_codec = record { serialize = float.to_string; deserialize = stof_or_zero }

  unfoldable pub compute_speed_from_phase : F → F
  compute_speed_from_phase t =
      float.plus (float.literal "50.0") (float.times (float.literal "10.0") (float.sin t))

unfoldable pub speed_desc : Descriptor
speed_desc = record { service_id = 0x1234; instance_id = 0x0001 }

unfoldable pub speed_event : EventEntry
speed_event = record { group = 0x0001; id = 0x8001 }
