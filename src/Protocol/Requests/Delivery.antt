-- ===== src/Protocol/Requests/Delivery.antt =====
-- compiler/rust/crates/squid-device-protocol/src/lib.rs: the host's request for an upload, from its
-- builder to the device's session.
use squid_script.Base.{
  ℕ, ◌^◌, ◌≤◌, ◌<◌, ◌≡◌, refl, true, some, List, [], length, leb, ltb, ok, arith,
}
use squid_script.Base.Words.{to_le, from_le-to_le}
use squid_script.Base.Utf8.{is_utf8}
use squid_script.Protocol.Wire.{app_install_begin, max_app_id_len, max_app_bytes}
use squid_script.Protocol.Fields.{Fields, end, field, string, u64, field_type}
use squid_script.Protocol.Fields.Layout.{
  fields_size, value_size, fields_bytes, value_bytes, SizesFit,
}
use squid_script.Protocol.Frame.{DeviceRequest, encode_frame, decode_request}
use squid_script.Protocol.Frame.Encode.{Encodable, frame_bytes, encode_frame-eq}
use squid_script.Protocol.Frame.Decode.{IsWire, decode_request-frame_bytes}
use squid_script.Protocol.Lookup.{string_field, u64_field}
use squid_script.Protocol.Lookup.Agree.{lookup_field, find_field-fields_bytes}
use squid_script.Protocol.Requests.{app_install_begin_request}
use squid_script.Protocol.Session.{
  ProtocolSessions, begin_install, begin_install_fields, begin_install_request, next_action,
}
use squid_script.Protocol.Session.Upload.{Expects, begin-Expects}

string_field-fields_bytes :
    (fs : Fields) (tag : ℕ) (value : List ℕ)
    → SizesFit fs
    → lookup_field tag 1 fs ≡ some value
    → is_utf8 value ≡ true
    → string_field (fields_bytes fs) tag ≡ ok (some value)
unfolding string_field
string_field-fields_bytes fs tag value fit found text =
    rw (find_field-fields_bytes fs tag 1 fit, found, text) refl

u64_field-fields_bytes :
    (fs : Fields) (tag value : ℕ)
    → SizesFit fs
    → lookup_field tag 5 fs ≡ some (to_le 8 value)
    → value < 256 ^ 8
    → u64_field (fields_bytes fs) tag ≡ ok (some value)
unfolding u64_field
u64_field-fields_bytes fs tag value fit found width =
    rw (find_field-fields_bytes fs tag 5 fit, found, from_le-to_le 8 value width) refl

-- The fields of the request.
begin_fields : List ℕ → ℕ → ℕ → Fields
begin_fields app_id total_len crc =
    field 1 (string app_id) (field 2 (u64 total_len) (field 3 (u64 crc) end))

begin_fields-SizesFit :
    (app_id : List ℕ) (total_len crc : ℕ)
    → length app_id < max_app_id_len
    → SizesFit (begin_fields app_id total_len crc)
unfolding begin_fields value_size
begin_fields-SizesFit app_id total_len crc short =
    (omega arith, tt, (omega arith, tt, (omega arith, tt, tt)))

begin_install_fields-begin_fields :
    (max : ℕ) (app_id : List ℕ) (total_len crc : ℕ)
    → is_utf8 app_id ≡ true
    → length app_id < max_app_id_len
    → total_len ≤ max_app_bytes
    → crc < 2 ^ 32
    → max_app_bytes ≤ max
    → begin_install_fields max (fields_bytes (begin_fields app_id total_len crc))
      ≡ ok (record { app_id = app_id; total_len = total_len; crc = crc })
unfolding begin_install_fields
begin_install_fields-begin_fields max app_id total_len crc text short small sum word =
    let fs = begin_fields app_id total_len crc in
    let fit = begin_fields-SizesFit app_id total_len crc short in
    let name =
      string_field-fields_bytes fs 1 app_id fit
        (unfold begin_fields lookup_field field_type value_bytes in refl) text in
    let len =
      u64_field-fields_bytes fs 2 total_len fit
        (unfold begin_fields lookup_field field_type value_bytes in refl) (omega arith) in
    let check =
      u64_field-fields_bytes fs 3 crc fit
        (unfold begin_fields lookup_field field_type value_bytes in refl) (omega arith) in
    let a : ltb crc (2 ^ 32) ≡ true = ground arith in
    let b : leb total_len max ≡ true = ground arith in rw (name, len, check, a, b) refl

begin_install_request-begin_fields :
    (max : ℕ) (s : ProtocolSessions) (sequence : ℕ) (app_id : List ℕ) (total_len crc : ℕ)
    → is_utf8 app_id ≡ true
    → 0 < length app_id
    → length app_id < max_app_id_len
    → 0 < total_len
    → total_len ≤ max_app_bytes
    → crc < 2 ^ 32
    → max_app_bytes ≤ max
    → let request : DeviceRequest = record {
      opcode = app_install_begin;
      sequence = sequence;
      payload = fields_bytes (begin_fields app_id total_len crc);
    } in
      ((next_action max s request).1 ≡ ok (begin_install app_id total_len))
      × Expects (next_action max s request).0.install [] total_len crc
unfolding next_action begin_install_request
begin_install_request-begin_fields max s sequence app_id total_len crc text some_byte short
      some_total small sum word =
    let read =
      begin_install_fields-begin_fields max app_id total_len crc text short small sum word in
    let (begun, e) =
      begin-Expects s.install app_id total_len crc max_app_bytes some_byte short some_total small in
    (rw (read, begun) refl, rw read e)

-- The host's request to install an app, with a UTF-8 name of 1 to 39 bytes, a length of 1 to 65536 bytes
-- and a CRC and a sequence number of 32 bits, is encoded; the device decodes it, answers with the action
-- to begin this install, and its install session, whatever its state was, then expects the announced
-- bytes from the start. The hash returns 32 bits, and a usize holds 65536.
pub app_install_begin_delivered :
    (hash : List ℕ → ℕ) (hash-lt : (bytes : List ℕ) → hash bytes < 2 ^ 32) (max : ℕ)
    (s : ProtocolSessions) (sequence : ℕ) (app_id : List ℕ) (total_len crc : ℕ)
    → is_utf8 app_id ≡ true
    → 0 < length app_id
    → length app_id < max_app_id_len
    → 0 < total_len
    → total_len ≤ max_app_bytes
    → crc < 2 ^ 32
    → sequence < 2 ^ 32
    → max_app_bytes ≤ max
    → (sent : List ℕ) × (request : DeviceRequest) × (encode_frame hash max
          (app_install_begin_request sequence app_id total_len crc)
        ≡ ok sent)
      × (decode_request hash max sent ≡ ok request)
      × ((next_action max s request).1 ≡ ok (begin_install app_id total_len))
      × Expects (next_action max s request).0.install [] total_len crc
unfolding app_install_begin_request begin_fields fields_size
app_install_begin_delivered hash hash-lt max s sequence app_id total_len crc text some_byte short
      some_total small sum seq word =
    let frame = app_install_begin_request sequence app_id total_len crc in
    let able : Encodable max frame = record {
      sizes = begin_fields-SizesFit app_id total_len crc short;
      total = omega arith;
    } in
    let wire : IsWire frame = record {
      typed = (text, (omega arith, (omega arith, tt)));
      sequence_fits = seq;
      len_fits = omega arith;
    } in
    let (begun, expects) =
      begin_install_request-begin_fields max s sequence app_id total_len crc text some_byte short
        some_total small sum word in
    (
      frame_bytes hash frame,
      record {
        opcode = app_install_begin;
        sequence = sequence;
        payload = fields_bytes frame.fields;
      },
      encode_frame-eq hash max frame able,
      decode_request-frame_bytes hash hash-lt max frame refl able wire,
      begun,
      expects,
    )
