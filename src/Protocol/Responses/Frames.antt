-- ===== src/Protocol/Responses/Frames.antt =====
-- compiler/rust/crates/squid-device-protocol/src/lib.rs: the device's encoders of responses beside
-- `encode_frame_into` on the frame with the fields.
use squid_script.Base.{
  ℕ, ◌+◌, ◌≤◌, ◌≡◌, Bool, true, List, length, slice, leb, Result, ok, Bool-cases, inl, inr, arith,
}
use squid_script.Protocol.Wire.{Opcode, Status, ok_status, DecodeError, header_len, app_list}
use squid_script.Protocol.Fields.{Fields}
use squid_script.Protocol.Fields.Layout.{fields_size, value_size, fields_bytes}
use squid_script.Protocol.Frame.{response_frame, encode_frame_into}
use squid_script.Protocol.Frame.Encode.{
  Encodable, frame_bytes, checked_add-eq, slice_exact, encode_frame_into-eq,
}
use squid_script.Protocol.Responses.{
  u32_max, encode_response_payload_into, encode_line_response_into, encode_hello_response_into,
  AppEntry, encode_app_list_response_into,
}
use squid_script.Protocol.Responses.Writes.{
  line_fields, lines_len_from-eq, write_lines-eq, hello_fields, hello_len-eq, write_hello-eq,
}
use squid_script.Protocol.Responses.Entries.{app_list_fields, entries_len_from-eq, write_entries-eq}

module _ (hash : List ℕ → ℕ) (max : ℕ) (sequence : ℕ) where
  payload_into-eq :
      (opcode : Opcode) (status : Status) (fs : Fields) (out : List ℕ)
      (write : List ℕ → Result DecodeError (List ℕ))
      → Encodable max (response_frame opcode status sequence fs)
      → fields_size fs ≤ u32_max
      → ((payload : List ℕ)
          → length payload ≡ fields_size fs
          → write payload ≡ ok (fields_bytes fs))
      → encode_response_payload_into hash max opcode status sequence (fields_size fs) out write
        ≡ encode_frame_into hash max (response_frame opcode status sequence fs) out
  unfolding encode_response_payload_into frame_bytes
  payload_into-eq opcode status fs out write e small writes =
      let size = fields_size fs in
      let fits : leb size u32_max ≡ true = ground arith in
      let needed = checked_add-eq max header_len size e.total in
      let whole = encode_frame_into-eq hash max (response_frame opcode status sequence fs) out e in
      elim (Bool-cases (leb (header_len + size) (length out))) [
        | inl room ↦
            let payload =
              writes (slice header_len (header_len + size) out)
                (slice_exact size out (ground arith)) in
            rw (whole, fits, needed, room, payload)
        | inr short ↦ rw (whole, fits, needed, short)
      ]

  -- Lines that fit the wire are written as `encode_frame_into` writes the response with a string field
  -- of tag 1 for each of them, into any buffer; a buffer that is too small gets the same error.
  pub encode_line_response_into-eq :
      (opcode : Opcode) (lines : List (List ℕ)) (out : List ℕ)
      → Encodable max (response_frame opcode ok_status sequence (line_fields lines))
      → fields_size (line_fields lines) ≤ u32_max
      → encode_line_response_into hash max opcode sequence lines out
        ≡ encode_frame_into hash max
            (response_frame opcode ok_status sequence (line_fields lines))
            out
  unfolding encode_line_response_into
  encode_line_response_into-eq opcode lines out e small =
      let total = e.total in
      rw
        (lines_len_from-eq max (length out) 0 (fields_size (line_fields lines)) lines e.sizes
          (omega arith) (omega arith))
        (payload_into-eq opcode ok_status (line_fields lines) out _ e small
          λ payload n. write_lines-eq lines payload e.sizes n)

  -- The same for the entries of an app list, each a record of its name and length.
  pub encode_app_list_response_into-eq :
      (entries : List AppEntry) (out : List ℕ)
      → Encodable max (response_frame app_list ok_status sequence (app_list_fields entries))
      → fields_size (app_list_fields entries) ≤ u32_max
      → encode_app_list_response_into hash max sequence entries out
        ≡ encode_frame_into hash max
            (response_frame app_list ok_status sequence (app_list_fields entries))
            out
  unfolding encode_app_list_response_into
  encode_app_list_response_into-eq entries out e small =
      let total = e.total in
      rw
        (entries_len_from-eq max (length out) 0 (fields_size (app_list_fields entries)) entries
          e.sizes (omega arith) (omega arith))
        (payload_into-eq app_list ok_status (app_list_fields entries) out _ e small
          λ payload n. write_entries-eq max entries payload e.sizes (omega arith) n)

  -- The same for a hello, of four fields.
  pub encode_hello_response_into-eq :
      (opcode : Opcode) (target firmware : List ℕ) (diagnostic : Bool) (budget : ℕ) (out : List ℕ)
      → Encodable max (
          response_frame opcode ok_status sequence (hello_fields target firmware diagnostic budget))
      → fields_size (hello_fields target firmware diagnostic budget) ≤ u32_max
      → encode_hello_response_into hash max opcode sequence target firmware diagnostic budget out
        ≡ encode_frame_into hash max
            (response_frame opcode ok_status sequence
              (hello_fields target firmware diagnostic budget))
            out
  unfolding encode_hello_response_into hello_fields value_size
  encode_hello_response_into-eq opcode target firmware diagnostic budget out e small =
      let total = e.total in
      let (a, _, (b, _, _)) = e.sizes in
      rw (hello_len-eq max (length out) target firmware diagnostic budget a b (omega arith)) (
        payload_into-eq opcode ok_status (hello_fields target firmware diagnostic budget) out _ e
          small λ payload n. write_hello-eq target firmware diagnostic budget payload a b n)
