-- ===== src/Diag/Server.antt =====
-- DiagServer: ara/diag/diag_server.hpp and the body of the accept loop of ara/diag/diag_server.cpp.
-- What the sockets deliver is an argument, and what is written comes back; setting the socket up
-- is left out. A byte is a number below 256.
use minimal_autosar_adaptive.Prelude.{
  ℕ, zero, suc, ◌+◌, ◌-◌, ◌*◌, ◌/◌, ◌%◌, ◌^◌, Bool, nat_eq, ◌==◌, Bytes, List, [], ◌∷◌, Option,
  none, some, length, if◌then◌else◌, leb,
}

pub data Nrc : Type 0 where
  nrc_ok sub_func_not_supported out_of_range invalid_len : Nrc

-- static_cast<uint8_t>(n)
unfoldable pub nrc_code : Nrc → ℕ
nrc_code nrc_ok = 0x00
nrc_code sub_func_not_supported = 0x12
nrc_code out_of_range = 0x31
nrc_code invalid_len = 0x13

-- The handlers, `none` where none is registered.
pub record Server : Type 0 where
  pub on_read : Option (ℕ → Nrc × Bytes)
  pub on_routine : Option (ℕ → ℕ → Bytes → Nrc)

unfoldable pub register_rdbi : (ℕ → Nrc × Bytes) → Server → Server
register_rdbi h s = record s { on_read = some h }

unfoldable pub register_routine : (ℕ → ℕ → Bytes → Nrc) → Server → Server
register_routine h s = record s { on_routine = some h }

unfoldable pub uds_pos : ℕ → Bytes → Bytes
uds_pos sid payload = (sid + 0x40) % 256 ∷ payload

unfoldable pub uds_neg : ℕ → ℕ → Bytes
uds_neg sid nrc = 0x7F ∷ sid ∷ nrc ∷ []

-- A port from 13400 to 13499; `char` is signed, so a byte from 128 on is sign-extended.
unfoldable pub hash_name : ℕ → Bytes → ℕ
hash_name h [] = h
hash_name h (c ∷ s) = hash_name ((h * 131 + (if leb 128 c then c + 2 ^ 32 - 256 else c)) % 2 ^ 32) s

unfoldable pub pick_port : Bytes → ℕ
unfolding hash_name
pick_port name = (13400 + hash_name 0 name % 100) % 65536

unfoldable pub handle_rdbi : ℕ → Server → Nrc × Bytes
handle_rdbi did s = elim s.on_read [ none ↦ (out_of_range, []) | some h ↦ h did ]

unfoldable pub handle_routine : ℕ → ℕ → Bytes → Server → Nrc
handle_routine sub rid payload s = elim s.on_routine [
  | none ↦ sub_func_not_supported
  | some h ↦ h sub rid payload
]

unfoldable pub is_nrc_ok : Nrc → Bool
unfolding nrc_code
is_nrc_ok n = nrc_code n == 0

-- case 0x22
unfoldable pub read_data : Bytes → Server → Bytes
unfolding handle_rdbi is_nrc_ok uds_pos uds_neg
read_data (hi ∷ lo ∷ more) s =
    let (nrc, payload) = handle_rdbi ((hi * 256 + lo) % 65536) s in
    if is_nrc_ok nrc then uds_pos 0x22 payload else uds_neg 0x22 (nrc_code nrc)
read_data _ s = uds_neg 0x22 (nrc_code invalid_len)

-- case 0x31
unfoldable pub routine_control : Bytes → Server → Bytes
unfolding handle_routine is_nrc_ok uds_pos uds_neg
routine_control (sub ∷ hi ∷ lo ∷ payload) s =
    let nrc = handle_routine sub ((hi * 256 + lo) % 65536) payload s in
    if is_nrc_ok nrc then uds_pos 0x31 [] else uds_neg 0x31 (nrc_code nrc)
routine_control _ s = uds_neg 0x31 (nrc_code invalid_len)

-- switch (sid)
unfoldable pub dispatch : ℕ → Bytes → Server → Bytes
unfolding read_data routine_control
dispatch sid args s =
    if sid == 0x22
    then read_data args s
    else if sid == 0x31
    then routine_control args s
    else if sid == 0x19
    then uds_pos 0x19 []
    else uds_neg sid (nrc_code out_of_range)

abbrev pub take {ℓ} : {A : Type ℓ} → ℕ → List A → List A
take zero xs = []
take (suc n) [] = []
take (suc n) (x ∷ xs) = x ∷ take n xs

-- The length goes out as a uint16_t, and so many bytes of the response.
unfoldable pub write_response : Bytes → Bytes
write_response rsp = let rlen = length rsp % 65536 in rlen / 256 ∷ rlen % 256 ∷ take rlen rsp

unfoldable pub answer : Bytes → Server → Option Bytes
unfolding dispatch write_response
answer [] s = none
answer (sid ∷ args) s = some (write_response (dispatch sid args s))

-- One connection: the bytes that the first `read` delivers, and those of the second, given how
-- many are asked for. `none` where the connection is closed without an answer.
unfoldable pub serve : Bytes → (ℕ → Bytes) → Server → Option Bytes
unfolding answer
serve (hi ∷ lo ∷ []) body s =
    let len = (hi * 256 + lo) % 65536 in
    let req = body len in if length req == len then answer req s else none
serve _ body s = none
