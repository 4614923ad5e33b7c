-- ===== src/Protocol/Replies/Delivery.antt =====
-- compiler/rust/crates/squid-device-protocol/src/lib.rs: responses from the device's encoders to the
-- host's readers.
use squid_script.Base.{
  ℕ, ◌+◌, ◌^◌, ◌≤◌, ◌<◌, ◌≡◌, refl, ap, ◌∙◌, Bool, true, some, List, [], ◌∷◌, ◌++◌, All, length,
  drop, leb, ==-refl, ok, arith,
}
use squid_script.Base.Utf8.{is_utf8}
use squid_script.Protocol.Wire.{
  Opcode, opcode_code, kind_code, status_code, ok_status, header_len, app_list, hello,
}
use squid_script.Protocol.Fields.{Fields}
use squid_script.Protocol.Fields.Layout.{fields_size}
use squid_script.Protocol.Fields.RoundTrip.{FieldsTyped}
use squid_script.Protocol.Frame.{Frame, response_frame, decode_frame}
use squid_script.Protocol.Frame.Encode.{Encodable, frame_bytes, encode_frame_into-eq}
use squid_script.Protocol.Frame.Decode.{length-frame_bytes, decode_frame-frame_bytes}
use squid_script.Protocol.Responses.{
  u32_max, encode_line_response_into, AppEntry, encode_app_list_response_into,
  encode_hello_response_into,
}
use squid_script.Protocol.Responses.Writes.{line_fields, hello_fields}
use squid_script.Protocol.Responses.Entries.{entry_fields, app_list_fields}
use squid_script.Protocol.Responses.Frames.{
  encode_line_response_into-eq, encode_app_list_response_into-eq, encode_hello_response_into-eq,
}
use squid_script.Protocol.Replies.{
  is_response, strings_at, repeated_string_fields, entry_step, app_entry, app_entries_from,
  app_list_entries, hello_identity, hello_step, from_serial_frame_budget,
}

strings_at-line_fields : (lines : List (List ℕ)) → strings_at 1 (line_fields lines) ≡ lines
unfolding strings_at line_fields
strings_at-line_fields [] = refl
strings_at-line_fields (line ∷ lines) = ap (λ more. line ∷ more) (strings_at-line_fields lines)

line_fields-FieldsTyped :
    (lines : List (List ℕ))
    → All (λ line. is_utf8 line ≡ true) lines
    → FieldsTyped (line_fields lines)
unfolding line_fields
line_fields-FieldsTyped [] h = tt
line_fields-FieldsTyped (line ∷ lines) (hl, h) = (hl, line_fields-FieldsTyped lines h)

is_response_refl :
    (opcode : Opcode) (sequence : ℕ) (fields : Fields)
    → is_response (response_frame opcode ok_status sequence fields) opcode ok_status ≡ true
unfolding is_response kind_code status_code
is_response_refl opcode sequence fields = rw (==-refl (opcode_code opcode)) refl

app_entries_from-app_list_fields :
    (entries : List AppEntry) → app_entries_from (app_list_fields entries) ≡ some entries
unfolding app_entries_from app_list_fields entry_fields app_entry entry_step
app_entries_from-app_list_fields [] = refl
app_entries_from-app_list_fields (entry ∷ entries) =
    rw (app_entries_from-app_list_fields entries) refl

-- An app's name is UTF-8 and its length a u64.
abbrev pub IsAppEntry : AppEntry → Type 0
IsAppEntry entry = (is_utf8 entry.app_id ≡ true) × (entry.sqbc_len < 256 ^ 8)

app_list_fields-FieldsTyped :
    (entries : List AppEntry) → All IsAppEntry entries → FieldsTyped (app_list_fields entries)
unfolding app_list_fields entry_fields
app_list_fields-FieldsTyped [] h = tt
app_list_fields-FieldsTyped (entry ∷ entries) ((text, len), h) =
    ((text, (len, tt)), app_list_fields-FieldsTyped entries h)

module _ (hash : List ℕ → ℕ) (hash-lt : (bytes : List ℕ) → hash bytes < 2 ^ 32) (max sequence : ℕ)
    (sequence_fits : sequence < 2 ^ 32) where
  -- A buffer with room takes the encoded frame of the fields, which decodes to the frame.
  delivered :
      (opcode : Opcode) (fs : Fields)
      → Encodable max (response_frame opcode ok_status sequence fs)
      → fields_size fs ≤ u32_max
      → FieldsTyped fs
      → decode_frame hash max (frame_bytes hash (response_frame opcode ok_status sequence fs))
        ≡ ok (response_frame opcode ok_status sequence fs)
  delivered opcode fs e small typed =
      decode_frame-frame_bytes hash hash-lt max (response_frame opcode ok_status sequence fs) e
        (record { typed = typed; sequence_fits = sequence_fits; len_fits = omega arith })

  -- Lines of UTF-8 that fit the wire and the buffer are written, and the frame that the device writes
  -- is decoded by the host to a response in which it finds these lines, in order; for a sequence number
  -- and a hash of 32 bits.
  pub encode_line_response_into-read :
      (opcode : Opcode) (lines : List (List ℕ)) (out : List ℕ)
      → Encodable max (response_frame opcode ok_status sequence (line_fields lines))
      → fields_size (line_fields lines) ≤ u32_max
      → All (λ line. is_utf8 line ≡ true) lines
      → header_len + fields_size (line_fields lines) ≤ length out
      → (sent : List ℕ) × (rest : List ℕ) × (frame : Frame) × (encode_line_response_into hash max
            opcode sequence lines out
          ≡ ok (length sent, sent ++ rest))
        × (decode_frame hash max sent ≡ ok frame)
        × (repeated_string_fields frame opcode 1 ≡ some lines)
  unfolding repeated_string_fields
  encode_line_response_into-read opcode lines out e small text room =
      let frame = response_frame opcode ok_status sequence (line_fields lines) in
      let needed = header_len + fields_size (line_fields lines) in
      let fits : leb needed (length out) ≡ true = ground arith in
      let written =
        encode_line_response_into-eq hash max sequence opcode lines out e small
        ∙ encode_frame_into-eq hash max frame out e in
      (
        frame_bytes hash frame,
        drop needed out,
        frame,
        rw (length-frame_bytes hash frame) (written ∙ rw fits refl),
        delivered opcode (line_fields lines) e small (line_fields-FieldsTyped lines text),
        rw (is_response_refl opcode sequence (line_fields lines), strings_at-line_fields lines)
            refl,
      )

  -- App entries of UTF-8 names and u64 lengths that fit the wire and the buffer are written, and the
  -- frame that the device writes is decoded by the host to a response in which it finds these entries,
  -- for a sequence number and a hash of 32 bits.
  pub encode_app_list_response_into-read :
      (entries : List AppEntry) (out : List ℕ)
      → Encodable max (response_frame app_list ok_status sequence (app_list_fields entries))
      → fields_size (app_list_fields entries) ≤ u32_max
      → All IsAppEntry entries
      → header_len + fields_size (app_list_fields entries) ≤ length out
      → (sent : List ℕ) × (rest : List ℕ) × (frame : Frame) × (encode_app_list_response_into hash
            max sequence entries out
          ≡ ok (length sent, sent ++ rest))
        × (decode_frame hash max sent ≡ ok frame)
        × (app_list_entries frame ≡ some entries)
  unfolding app_list_entries
  encode_app_list_response_into-read entries out e small text room =
      let frame = response_frame app_list ok_status sequence (app_list_fields entries) in
      let needed = header_len + fields_size (app_list_fields entries) in
      let fits : leb needed (length out) ≡ true = ground arith in
      let written =
        encode_app_list_response_into-eq hash max sequence entries out e small
        ∙ encode_frame_into-eq hash max frame out e in
      (
        frame_bytes hash frame,
        drop needed out,
        frame,
        rw (length-frame_bytes hash frame) (written ∙ rw fits refl),
        delivered app_list (app_list_fields entries) e small
            (app_list_fields-FieldsTyped entries text),
        rw
            (
              is_response_refl app_list sequence (app_list_fields entries),
              app_entries_from-app_list_fields entries,
            )
            refl,
      )

  -- A hello whose texts are UTF-8, whose frame budget is a usize and a u64, and which fits the wire and
  -- the buffer is written, and the host reads from the frame the same texts and flag, and the transfer
  -- capabilities of the budget; for a sequence number and a hash of 32 bits.
  pub encode_hello_response_into-read :
      (target firmware : List ℕ) (diagnostic : Bool) (budget : ℕ) (out : List ℕ)
      → Encodable max
          (response_frame hello ok_status sequence (hello_fields target firmware diagnostic budget))
      → fields_size (hello_fields target firmware diagnostic budget) ≤ u32_max
      → is_utf8 target ≡ true
      → is_utf8 firmware ≡ true
      → budget < 256 ^ 8
      → budget ≤ max
      → header_len + fields_size (hello_fields target firmware diagnostic budget) ≤ length out
      → (sent : List ℕ) × (rest : List ℕ) × (frame : Frame) × (encode_hello_response_into hash max
            hello sequence target firmware diagnostic budget out
          ≡ ok (length sent, sent ++ rest))
        × (decode_frame hash max sent ≡ ok frame)
        × (hello_identity max frame
            ≡ some (record {
              target = target;
              firmware = firmware;
              diagnostic = diagnostic;
              transfer_capabilities = from_serial_frame_budget budget;
            }))
  unfolding hello_identity hello_step hello_fields
  encode_hello_response_into-read target firmware diagnostic budget out e small text text' width
        word room =
      let fields = hello_fields target firmware diagnostic budget in
      let frame = response_frame hello ok_status sequence fields in
      let needed = header_len + fields_size fields in
      let fits : leb needed (length out) ≡ true = ground arith in
      let usize : leb budget max ≡ true = ground arith in
      let written =
        encode_hello_response_into-eq hash max sequence hello target firmware diagnostic budget out
          e small
        ∙ encode_frame_into-eq hash max frame out e in
      (
        frame_bytes hash frame,
        drop needed out,
        frame,
        rw (length-frame_bytes hash frame) (written ∙ rw fits refl),
        delivered hello fields e small (text, (text', (tt, (width, tt)))),
        rw (is_response_refl hello sequence fields, usize) refl,
      )
