-- ===== src/Protocol/Responses.antt =====
-- compiler/rust/crates/squid-device-protocol/src/lib.rs: the device's responses, written field by field
-- into a buffer: `tlv_*_len`, `write_*_tlv`, `encode_response_payload_into` and the encoders on it.
-- A writer of a field returns the bytes that it wrote and the rest of its slice. What a buffer holds
-- after an error is left out. `max` is `usize::MAX`, `hash` is `crc32fast::hash`.
pub mod Writes
pub mod Entries
pub mod Frames
use squid_script.Base.{
  ℕ, ◌+◌, Bool, ◌&&◌, List, [], ◌∷◌, ◌++◌, length, take, drop, slice, leb, Result, ok, ◌>>=◌, ◌>>◌,
  guard, ok_or,
}
use squid_script.Base.Words.{to_le}
use squid_script.Protocol.Wire.{
  response, Opcode, app_list, Status, ok_status, kind_code, opcode_code, status_code, DecodeError,
  output_too_small, header_len,
}
use squid_script.Protocol.Fields.{u16_max, checked_add, bool_byte}
use squid_script.Protocol.Frame.{header}

abbrev pub u32_max : ℕ
u32_max = 4294967295

-- `tlv_string_len_for_len`, `tlv_bytes_len` and `tlv_record_len`, of the length of the value.
unfoldable pub tlv_len : ℕ → Result DecodeError ℕ
tlv_len value_len =
    guard (leb value_len u16_max) (output_too_small value_len u16_max) >> ok (4 + value_len)

abbrev pub tlv_bool_len : ℕ
tlv_bool_len = 5

abbrev pub tlv_u64_len : ℕ
tlv_u64_len = 12

-- The four bytes of the header.
unfoldable pub write_tlv_header : List ℕ → ℕ → ℕ → ℕ → Result DecodeError (List ℕ)
write_tlv_header out tag field_type value_len =
    guard (leb value_len u16_max && leb (4 + value_len) (length out))
      (output_too_small (4 + value_len) (length out))
    >> ok (tag ∷ field_type ∷ to_le 2 value_len)

unfoldable pub write_string_tlv : List ℕ → ℕ → List ℕ → Result DecodeError (List ℕ × List ℕ)
write_string_tlv out tag value = do
  head ← write_tlv_header out tag 1 (length value)
  ok (head ++ value, drop (4 + length value) out)

unfoldable pub write_bytes_tlv : List ℕ → ℕ → List ℕ → Result DecodeError (List ℕ × List ℕ)
write_bytes_tlv out tag value = do
  head ← write_tlv_header out tag 0 (length value)
  ok (head ++ value, drop (4 + length value) out)

unfoldable pub write_bool_tlv : List ℕ → ℕ → Bool → Result DecodeError (List ℕ × List ℕ)
write_bool_tlv out tag value = do
  head ← write_tlv_header out tag 3 1
  ok (head ++ (bool_byte value ∷ []), drop 5 out)

unfoldable pub write_u64_tlv : List ℕ → ℕ → ℕ → Result DecodeError (List ℕ × List ℕ)
write_u64_tlv out tag value = do
  head ← write_tlv_header out tag 5 8
  ok (head ++ to_le 8 value, drop 12 out)

unfoldable pub encode_response_payload_into :
    (List ℕ → ℕ)
    → ℕ
    → Opcode
    → Status
    → ℕ
    → ℕ
    → List ℕ
    → (List ℕ → Result DecodeError (List ℕ))
    → Result DecodeError (ℕ × List ℕ)
encode_response_payload_into hash max opcode status sequence payload_len out write_payload = do
  guard (leb payload_len u32_max) (output_too_small payload_len u32_max)
  needed ← ok_or (checked_add max header_len payload_len) (output_too_small max (length out))
  guard (leb needed (length out)) (output_too_small needed (length out))
  payload ← write_payload (slice header_len needed out)
  ok (
    needed,
    header (kind_code response) (opcode_code opcode) (status_code status) sequence payload_len
        (hash payload) (payload ++ drop needed out),
  )

unfoldable pub encode_empty_response_into :
    (List ℕ → ℕ) → ℕ → Opcode → Status → ℕ → List ℕ → Result DecodeError (ℕ × List ℕ)
encode_empty_response_into hash max opcode status sequence out =
    encode_response_payload_into hash max opcode status sequence 0 out ok

-- The sum of the four lengths, each addition checked.
unfoldable pub hello_len : ℕ → ℕ → List ℕ → List ℕ → Result DecodeError ℕ
hello_len max capacity target firmware = do
  a ← tlv_len (length target)
  b ← tlv_len (length firmware)
  ab ← ok_or (checked_add max a b) (output_too_small max capacity)
  abc ← ok_or (checked_add max ab tlv_bool_len) (output_too_small max capacity)
  ok_or (checked_add max abc tlv_u64_len) (output_too_small max capacity)

unfoldable pub write_hello : List ℕ → List ℕ → Bool → ℕ → List ℕ → Result DecodeError (List ℕ)
write_hello target firmware diagnostic serial_max_frame_bytes payload = do
  (a, rest) ← write_string_tlv payload 1 target
  (b, rest) ← write_string_tlv rest 2 firmware
  (c, rest) ← write_bool_tlv rest 3 diagnostic
  (d, rest) ← write_u64_tlv rest 4 serial_max_frame_bytes
  ok (a ++ (b ++ (c ++ (d ++ rest))))

unfoldable pub encode_hello_response_into :
    (List ℕ → ℕ)
    → ℕ
    → Opcode
    → ℕ
    → List ℕ
    → List ℕ
    → Bool
    → ℕ
    → List ℕ
    → Result DecodeError (ℕ × List ℕ)
encode_hello_response_into hash max opcode sequence target firmware diagnostic
      serial_max_frame_bytes out =
    do
      payload_len ← hello_len max (length out) target firmware
      encode_response_payload_into hash max opcode ok_status sequence payload_len out
          (write_hello target firmware diagnostic serial_max_frame_bytes)

-- The first loop of `encode_line_response_into`, at the length `len` so far.
unfoldable pub lines_len_from : ℕ → ℕ → ℕ → List (List ℕ) → Result DecodeError ℕ
lines_len_from max capacity len [] = ok len
lines_len_from max capacity len (line ∷ lines) = do
  n ← tlv_len (length line)
  len' ← ok_or (checked_add max len n) (output_too_small max capacity)
  lines_len_from max capacity len' lines

-- Its second loop: the new contents of `payload`.
unfoldable pub write_lines : List (List ℕ) → List ℕ → Result DecodeError (List ℕ)
write_lines [] payload = ok payload
write_lines (line ∷ lines) payload = do
  (written, rest) ← write_string_tlv payload 1 line
  more ← write_lines lines rest
  ok (written ++ more)

unfoldable pub encode_line_response_into :
    (List ℕ → ℕ) → ℕ → Opcode → ℕ → List (List ℕ) → List ℕ → Result DecodeError (ℕ × List ℕ)
encode_line_response_into hash max opcode sequence lines out = do
  payload_len ← lines_len_from max (length out) 0 lines
  encode_response_payload_into hash max opcode ok_status sequence payload_len out
      (write_lines lines)

-- `AppListEntry`, and the host's `AppEntry`.
pub record AppEntry : Type 0 where
  pub app_id : List ℕ
  pub sqbc_len : ℕ

-- `tlv_string_len(entry.app_id)?.checked_add(tlv_u64_len())`
unfoldable pub entry_len : ℕ → ℕ → AppEntry → Result DecodeError ℕ
entry_len max capacity entry = do
  n ← tlv_len (length entry.app_id)
  ok_or (checked_add max n tlv_u64_len) (output_too_small max capacity)

unfoldable pub entries_len_from : ℕ → ℕ → ℕ → List AppEntry → Result DecodeError ℕ
entries_len_from max capacity len [] = ok len
entries_len_from max capacity len (entry ∷ entries) = do
  record_len ← entry_len max capacity entry
  n ← tlv_len record_len
  len' ← ok_or (checked_add max len n) (output_too_small max capacity)
  entries_len_from max capacity len' entries

-- `payload[4..].split_at_mut(record_len)` does not panic behind the header's check.
unfoldable pub write_entries : ℕ → List AppEntry → List ℕ → Result DecodeError (List ℕ)
write_entries max [] payload = ok payload
write_entries max (entry ∷ entries) payload = do
  record_len ← entry_len max (length payload) entry
  head ← write_tlv_header payload 1 32 record_len
  (id, rest_record) ← write_string_tlv (take record_len (drop 4 payload)) 1 entry.app_id
  (len, unused) ← write_u64_tlv rest_record 2 entry.sqbc_len
  more ← write_entries max entries (drop record_len (drop 4 payload))
  ok (head ++ ((id ++ (len ++ unused)) ++ more))

unfoldable pub encode_app_list_response_into :
    (List ℕ → ℕ) → ℕ → ℕ → List AppEntry → List ℕ → Result DecodeError (ℕ × List ℕ)
encode_app_list_response_into hash max sequence entries out = do
  payload_len ← entries_len_from max (length out) 0 entries
  encode_response_payload_into hash max app_list ok_status sequence payload_len out
      (write_entries max entries)
