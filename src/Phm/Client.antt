-- ===== src/Phm/Client.antt =====
-- SupervisionClient: phm/src/supervision_client.cpp. A request is what `someip::send_request` is
-- given. The host is little-endian, so the bytes of htonl(id) in memory are those of id, the
-- highest first.
use minimal_autosar_adaptive.Prelude.{
  ℕ, ◌+◌, ◌*◌, ◌/◌, ◌%◌, ◌<◌, ◌≡◌, ap, Bytes, String, List, Option, none, some, [], ◌∷◌, arith,
}
use minimal_autosar_adaptive.Someip.Binding.{Binding, Call, init, request_a_service}
use minimal_autosar_adaptive.Phm.Ids.{service, instance_id, alive_method, checkpoint_method}

-- The constructor and Connect.
unfoldable pub new_client : String → Option Bytes → Binding → Binding × List Call
new_client app env b = init app env b

unfoldable pub connect : Binding → Option (List Call)
connect b = request_a_service service instance_id b

pub record Request : Type 0 where
  pub service_id : ℕ
  pub instance : ℕ
  pub method : ℕ
  pub payload : Bytes

-- htonl(id), as bytes in memory.
unfoldable pub to_network : ℕ → Bytes
to_network id = id / 16777216 % 256 ∷ id / 65536 % 256 ∷ id / 256 % 256 ∷ id % 256 ∷ []

-- memcpy of four bytes and ntohl; `none` for a payload of another size.
unfoldable pub from_network : Bytes → Option ℕ
from_network (a ∷ b ∷ c ∷ d ∷ []) = some (a * 16777216 + b * 65536 + c * 256 + d)
from_network _ = none

unfoldable pub report_alive : Request
report_alive = record {
  service_id = service;
  instance = instance_id;
  method = alive_method;
  payload = [];
}

unfoldable pub report_checkpoint : ℕ → Request
unfolding to_network
report_checkpoint id = record {
  service_id = service;
  instance = instance_id;
  method = checkpoint_method;
  payload = to_network id;
}

-- What one side encodes the other decodes, for every 32-bit id.
pub from_network-to_network : (id : ℕ) → id < 4294967296 → from_network (to_network id) ≡ some id
unfolding from_network to_network
from_network-to_network id h = ap some (omega arith)
