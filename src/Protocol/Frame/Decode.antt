-- ===== src/Protocol/Frame/Decode.antt =====
-- compiler/rust/crates/squid-device-protocol/src/lib.rs: `decode_frame` and `DeviceRequest::decode`
-- on the bytes of a frame, and on any bytes.
use squid_script.Base.{
  ℕ, ◌+◌, ◌^◌, ◌≤◌, ◌<◌, ◌≡◌, true, false, List, length, ltb, ◌==◌, ==-refl, ok, ◌>>=◌, arith,
}
use native.Mathlib.Nat.{mod-eq_of_lt}
use squid_script.Base.Words.{to_le, from_le, from_le-to_le}
use squid_script.Protocol.Wire.{request, header_len}
use squid_script.Protocol.Codes.{
  kind_from-kind_code, status_from-status_code, opcode_from-opcode_code,
}
use squid_script.Protocol.Fields.Layout.{fields_size, fields_bytes, length-fields_bytes}
use squid_script.Protocol.Fields.RoundTrip.{FieldsTyped, decode_fields-fields_bytes}
use squid_script.Protocol.Frame.{encode_frame, Frame, usize_add, decode_frame, decode_request}
use squid_script.Protocol.Frame.Encode.{Encodable, frame_bytes, encode_frame-eq}

-- The frame's numbers have their widths, its strings are UTF-8, and its length fits the header.
pub record IsWire (frame : Frame) : Type 0 where
  pub typed : FieldsTyped frame.fields
  pub sequence_fits : frame.sequence < 2 ^ 32
  pub len_fits : fields_size frame.fields < 2 ^ 32

pub length-frame_bytes :
    (hash : List ℕ → ℕ) (frame : Frame)
    → length (frame_bytes hash frame) ≡ header_len + fields_size frame.fields
unfolding frame_bytes
length-frame_bytes hash frame = omega (arith, length-fields_bytes frame.fields)

pub usize_add-eq : (max a b : ℕ) → a + b ≤ max → usize_add max a b ≡ a + b
usize_add-eq max a b h = mod-eq_of_lt (omega arith)

word : (v : ℕ) → v < 2 ^ 32 → from_le (to_le 4 v) ≡ v
word v h = from_le-to_le 4 v h

module _ (hash : List ℕ → ℕ) (hash-lt : (bytes : List ℕ) → hash bytes < 2 ^ 32) (max : ℕ) where
  pub decode_frame-frame_bytes :
      (frame : Frame)
      → Encodable max frame
      → IsWire frame
      → decode_frame hash max (frame_bytes hash frame) ≡ ok frame
  unfolding decode_frame frame_bytes
  decode_frame-frame_bytes frame e w =
      let size = fields_size frame.fields in
      let payload = fields_bytes frame.fields in
      let len = word size w.len_fits in
      let crc = word (hash payload) (hash-lt payload) in
      let whole : (length (frame_bytes hash frame) == usize_add max header_len size) ≡ true =
        rw (usize_add-eq max header_len size e.total)
          (ground (arith, length-frame_bytes hash frame)) in
      let long : ltb (length (frame_bytes hash frame)) header_len ≡ false =
        ground (arith, length-frame_bytes hash frame) in
      rw (
        long,
        kind_from-kind_code,
        opcode_from-opcode_code,
        status_from-status_code,
        word frame.sequence w.sequence_fits,
        len,
        crc,
        whole,
        ==-refl,
        decode_fields-fields_bytes frame.fields e.sizes w.typed,
      )

  -- The device reads from the bytes of an encodable request frame, whose numbers have their widths, its
  -- opcode, its sequence number and the bytes of its fields, for any hash that returns 32 bits.
  pub decode_request-frame_bytes :
      (frame : Frame)
      → frame.kind ≡ request
      → Encodable max frame
      → IsWire frame
      → decode_request hash max (frame_bytes hash frame)
        ≡ ok (record {
          opcode = frame.opcode;
          sequence = frame.sequence;
          payload = fields_bytes frame.fields;
        })
  unfolding decode_request frame_bytes
  decode_request-frame_bytes frame is_req e w =
      let size = fields_size frame.fields in
      let payload = fields_bytes frame.fields in
      let len = word size w.len_fits in
      let crc = word (hash payload) (hash-lt payload) in
      let whole : (length (frame_bytes hash frame) == usize_add max header_len size) ≡ true =
        rw (usize_add-eq max header_len size e.total)
          (ground (arith, length-frame_bytes hash frame)) in
      let long : ltb (length (frame_bytes hash frame)) header_len ≡ false =
        ground (arith, length-frame_bytes hash frame) in
      rw (
        long,
        is_req,
        kind_from-kind_code,
        opcode_from-opcode_code,
        status_from-status_code,
        word frame.sequence w.sequence_fits,
        len,
        crc,
        whole,
        ==-refl,
      )

  -- What the host encodes the host decodes to the same frame, for an encodable frame whose numbers
  -- have their widths, and for any hash that returns 32 bits.
  pub decode_frame-encode_frame :
      (frame : Frame)
      → Encodable max frame
      → IsWire frame
      → (encode_frame hash max frame >>= decode_frame hash max) ≡ ok frame
  decode_frame-encode_frame frame e w =
      rw (encode_frame-eq hash max frame e) (decode_frame-frame_bytes frame e w)
