-- ===== src/Protocol/Lookup.antt =====
-- compiler/rust/crates/squid-device-protocol/src/lib.rs: the device's search of a request's payload
-- for a field, without a copy: `RawFields`, `string_field`, `bytes_field`, `u64_field`,
-- `chunk_offset`, `payload_field_bytes` and `key_event_from_request_into`.
-- `RawFields` is what its offset leaves of the payload. `max` is `usize::MAX`.
pub mod Agree
pub mod Total
use squid_script.Base.{
  ℕ, zero, suc, ◌+◌, Bool, true, false, not, ◌&&◌, Option, none, some, List, [], ◌∷◌, ◌++◌, length,
  front, drop, is_empty, leb, ltb, ◌==◌, if◌then◌else◌, Result, ok, err, stuck, ◌>>=◌, ◌>>◌, guard,
  map_err, ok_or,
}
use squid_script.Base.Words.{from_le}
use squid_script.Base.Utf8.{is_utf8}
use squid_script.Protocol.Wire.{
  DecodeError, truncated_field, invalid_utf8, output_too_small, unknown_opcode, opcode_code, Opcode,
  key,
}
use squid_script.Protocol.Frame.{decode_request}

pub data SessionError : Type 0 where
  decode : DecodeError → SessionError
  invalid_request missing_field not_utf8 app_id_too_long path_too_long too_large : SessionError
  inactive offset_error bounds crc_error : SessionError

-- The loop over `fields(payload)` up to the first field of the tag and type; each round takes four
-- bytes at least.
unfoldable pub find_field_from : ℕ → ℕ → ℕ → List ℕ → Result DecodeError (Option (List ℕ))
find_field_from fuel tag type [] = ok none
find_field_from zero tag type (b ∷ payload) = stuck
find_field_from (suc fuel) tag type (t ∷ ty ∷ l₀ ∷ l₁ ∷ payload) =
    let len = from_le (l₀ ∷ l₁ ∷ []) in
    let sliced = front len payload >>= λ value.
    let rest = find_field_from fuel tag type (drop len payload) in
    if t == tag && ty == type then ok (some value) else rest in
    if ltb (length payload) len then err truncated_field else sliced
find_field_from (suc fuel) tag type payload = err truncated_field

unfoldable pub find_field : ℕ → ℕ → List ℕ → Result DecodeError (Option (List ℕ))
unfolding find_field_from
find_field tag type payload = find_field_from (length payload) tag type payload

abbrev pub check_utf8 : Option (List ℕ) → Result SessionError (Option (List ℕ))
check_utf8 none = ok none
check_utf8 (some value) = if is_utf8 value then ok (some value) else err not_utf8

abbrev pub check_u64 : Option (List ℕ) → Result SessionError (Option ℕ)
check_u64 none = ok none
check_u64 (some value) =
    if length value == 8 then ok (some (from_le value)) else err invalid_request

unfoldable pub string_field : List ℕ → ℕ → Result SessionError (Option (List ℕ))
string_field payload tag = map_err decode (find_field tag 1 payload) >>= check_utf8

unfoldable pub bytes_field : List ℕ → ℕ → Result SessionError (Option (List ℕ))
bytes_field payload tag = map_err decode (find_field tag 0 payload)

unfoldable pub u64_field : List ℕ → ℕ → Result SessionError (Option ℕ)
u64_field payload tag = map_err decode (find_field tag 5 payload) >>= check_u64

unfoldable pub chunk_offset : ℕ → List ℕ → Result SessionError ℕ
chunk_offset max payload = do
  offset ← ok_or (← u64_field payload 1) missing_field
  if leb offset max then ok offset else err bounds

-- `payload_field_bytes` makes the same search as the loops over `RawFields`.
abbrev pub payload_field_bytes : List ℕ → ℕ → ℕ → Result DecodeError (Option (List ℕ))
payload_field_bytes payload expected_tag expected_type =
    find_field expected_tag expected_type payload

-- `.filter(|bytes| !bytes.is_empty())`
abbrev pub not_empty : Option (List ℕ) → Option (List ℕ)
not_empty none = none
not_empty (some value) = if is_empty value then none else some value

abbrev pub is_key : Opcode → Bool
is_key key = true
is_key _ = false

-- The name of the key event, `key.` and the key, written at the front of `out`.
unfoldable pub key_event_from_request_into :
    (List ℕ → ℕ) → ℕ → List ℕ → List ℕ → Result DecodeError (ℕ × List ℕ)
key_event_from_request_into hash max bytes out = do
  request ← decode_request hash max bytes
  guard (is_key request.opcode) (unknown_opcode (opcode_code request.opcode))
  name ← ok_or (not_empty (← payload_field_bytes request.payload 1 1)) truncated_field
  guard (is_utf8 name) invalid_utf8
  let needed = 4 + length name
  guard (not (ltb (length out) needed)) (output_too_small needed (length out))
  ok (needed, 0x6b ∷ 0x65 ∷ 0x79 ∷ 0x2e ∷ (name ++ drop needed out))
