-- ===== src/Protocol/Codes.antt =====
-- compiler/rust/crates/squid-device-protocol/src/lib.rs: the header's codes and their decoders.
use squid_script.Base.{ℕ, ◌≡◌, refl, ok, ◌<◌, arith}
use squid_script.Protocol.Wire.{
  FrameKind, Status, Opcode, kind_code, kind_from, status_code, status_from, opcode_code,
  opcode_from,
}
use squid_script.Protocol.Wire.{request, ok_status, hello}

pub kind_from-kind_code : (k : FrameKind) → kind_from (kind_code k) ≡ ok k
unfolding kind_from kind_code
kind_from-kind_code request = refl
kind_from-kind_code _ = refl

pub status_from-status_code : (s : Status) → status_from (status_code s) ≡ ok s
unfolding status_from status_code
status_from-status_code ok_status = refl
status_from-status_code _ = refl

-- An opcode is read back from its code.
pub opcode_from-opcode_code : (o : Opcode) → opcode_from (opcode_code o) ≡ ok o
unfolding opcode_from opcode_code
opcode_from-opcode_code hello = refl
opcode_from-opcode_code _ = refl

pub opcode_code-lt : (o : Opcode) → opcode_code o < 256
unfolding opcode_code
opcode_code-lt hello = omega arith
opcode_code-lt _ = omega arith

-- A byte that the decoder accepts as an opcode is that opcode's code, and no other.
pub opcode_code-opcode_from :
    (value : ℕ) (o : Opcode) → opcode_from value ≡ ok o → opcode_code o ≡ value
unfolding opcode_from opcode_code
opcode_code-opcode_from value o h = ground arith
