-- ===== src/Protocol/Tests.antt =====
-- compiler/rust/crates/squid-device-protocol/src/lib.rs: the theorems on frames and fields at concrete
-- inputs.
use squid_script.Base.{
  ℕ, ◌+◌, ◌%◌, ◌^◌, ◌≤◌, ◌<◌, ◌≡◌, ◌↔◌, ◌>>=◌, refl, true, some, List, [], ◌∷◌, ◌++◌, All, length,
  drop, leb, if◌then◌else◌, ok, err, panic, arith,
}
use squid_script.Base.Utf8.{is_utf8}
use squid_script.Protocol.Wire.{
  app_install_begin, output_get, app_list, hello, ok_status, opcode_code, opcode_from, header_len,
  output_too_small,
}
use squid_script.Protocol.Fields.{
  string, u64, bool, nested, Fields, end, field, encoded_fields_len, decode_fields,
}
use squid_script.Protocol.Fields.Layout.{fields_size, fields_bytes, SizesFit}
use squid_script.Protocol.Fields.Encode.{encoded_fields_len_iff}
use squid_script.Protocol.Fields.RoundTrip.{FieldsTyped, decode_fields-fields_bytes}
use squid_script.Protocol.Codes.{opcode_from-opcode_code, opcode_code-opcode_from}
use squid_script.Protocol.Frame.{
  Frame, request_frame, response_frame, encode_frame, encode_frame_into, decode_frame,
  decode_request, decode_frame_from_stream,
}
use squid_script.Protocol.Frame.Encode.{
  Encodable, frame_bytes, encode_frame_into-eq, encode_frame-panic_iff,
}
use squid_script.Protocol.Frame.Decode.{
  IsWire, decode_frame-encode_frame, decode_request-frame_bytes,
}
use squid_script.Protocol.Frame.Stream.{decode_frame_from_stream-append}
use squid_script.Protocol.Lookup.{find_field}
use squid_script.Protocol.Lookup.Agree.{lookup_field, find_field-fields_bytes}
use squid_script.Protocol.Requests.{
  transfer_chunk_payload_for_frame_budget, app_install_chunk_request_with_ack,
}
use squid_script.Protocol.Requests.Budget.{app_install_chunk_budget}
use squid_script.Protocol.Responses.{
  AppEntry, encode_line_response_into, encode_app_list_response_into, encode_hello_response_into,
}
use squid_script.Protocol.Responses.Writes.{line_fields, hello_fields}
use squid_script.Protocol.Responses.Entries.{entry_fields, app_list_fields}
use squid_script.Protocol.Replies.{
  repeated_string_fields, app_list_entries, hello_identity, from_serial_frame_budget,
}
use squid_script.Protocol.Replies.Delivery.{
  encode_line_response_into-read, encode_app_list_response_into-read,
  encode_hello_response_into-read,
}

-- A 64-bit `usize::MAX`, and a hash of 32 bits.
abbrev usize_max : ℕ
usize_max = 18446744073709551615

abbrev sum : List ℕ → ℕ
sum [] = 0
sum (b ∷ bs) = b + sum bs

abbrev sum_hash : List ℕ → ℕ
sum_hash bs = sum bs % 2 ^ 32

sum_hash-lt : (bs : List ℕ) → sum_hash bs < 2 ^ 32
sum_hash-lt bs = omega arith

-- "demo"
abbrev demo : List ℕ
demo = 0x64 ∷ 0x65 ∷ 0x6d ∷ 0x6f ∷ []

abbrev sample_fields : Fields
sample_fields =
    field 1 (string demo)
      (field 2 (u64 3) (field 3 (u64 891568578) (field 9 (nested (field 1 (bool true) end)) end)))

abbrev sample : Frame
sample = request_frame app_install_begin 7 sample_fields

sample_sizes : SizesFit sample_fields
unfolding fields_size
sample_sizes = (
  omega arith,
  tt,
  (omega arith, tt, (omega arith, tt, (omega arith, (omega arith, tt, tt), tt))),
)

sample-Encodable : Encodable usize_max sample
unfolding fields_size
sample-Encodable = record { sizes = sample_sizes; total = omega arith }

sample_typed : FieldsTyped sample_fields
unfolding is_utf8
sample_typed = (refl, (omega arith, (omega arith, ((tt, tt), tt))))

sample-IsWire : IsWire sample
unfolding fields_size
sample-IsWire = record { typed = sample_typed; sequence_fits = omega arith; len_fits = omega arith }

decode_frame-encode_frame_example :
    (encode_frame sum_hash usize_max sample >>= decode_frame sum_hash usize_max) ≡ ok sample
decode_frame-encode_frame_example =
    decode_frame-encode_frame sum_hash sum_hash-lt usize_max sample sample-Encodable sample-IsWire

decode_request-frame_bytes_example :
    decode_request sum_hash usize_max (frame_bytes sum_hash sample)
    ≡ ok (record { opcode = app_install_begin; sequence = 7; payload = fields_bytes sample_fields })
decode_request-frame_bytes_example =
    decode_request-frame_bytes sum_hash sum_hash-lt usize_max sample refl sample-Encodable
      sample-IsWire

encode_frame-panic_iff_example :
    (encode_frame sum_hash usize_max sample ≡ panic) ↔ ¬ Encodable usize_max sample
encode_frame-panic_iff_example = encode_frame-panic_iff sum_hash usize_max sample

encode_frame_into-eq_example : encode_frame_into sum_hash usize_max sample (1 ∷ 2 ∷ []) ≡ (
    if leb (header_len + fields_size sample_fields) 2
    then ok (
      header_len + fields_size sample_fields,
      frame_bytes sum_hash sample ++ drop (header_len + fields_size sample_fields) (1 ∷ 2 ∷ []),
    )
    else err (output_too_small (header_len + fields_size sample_fields) 2))
encode_frame_into-eq_example =
    encode_frame_into-eq sum_hash usize_max sample (1 ∷ 2 ∷ []) sample-Encodable

stream_room : 2 + (header_len + fields_size sample_fields) ≤ usize_max
unfolding fields_size
stream_room = omega arith

decode_frame_from_stream-append_example :
    decode_frame_from_stream sum_hash usize_max
      ((0x6f ∷ 0x6b ∷ []) ++ (frame_bytes sum_hash sample ++ (0x53 ∷ 1 ∷ [])))
    ≡ ok sample
decode_frame_from_stream-append_example =
    decode_frame_from_stream-append sum_hash sum_hash-lt usize_max (0x6f ∷ 0x6b ∷ [])
      (0x53 ∷ 1 ∷ []) sample ((λ e. absurd (ground arith)), ((λ e. absurd (ground arith)), tt))
      stream_room sample-Encodable sample-IsWire

find_field-fields_bytes_example :
    find_field 2 5 (fields_bytes sample_fields) ≡ ok (lookup_field 2 5 sample_fields)
find_field-fields_bytes_example = find_field-fields_bytes sample_fields 2 5 sample_sizes

decode_fields-fields_bytes_example : decode_fields (fields_bytes sample_fields) ≡ ok sample_fields
decode_fields-fields_bytes_example =
    decode_fields-fields_bytes sample_fields sample_sizes sample_typed

encoded_fields_len_iff_example :
    (encoded_fields_len 65535 sample_fields ≡ ok 41)
    ↔ (SizesFit sample_fields × (41 ≡ fields_size sample_fields) × (41 ≤ 65535))
encoded_fields_len_iff_example = encoded_fields_len_iff 65535 41 sample_fields

opcode_from-opcode_code_example : opcode_from (opcode_code output_get) ≡ ok output_get
opcode_from-opcode_code_example = opcode_from-opcode_code output_get

app_list_known : opcode_from 33 ≡ ok app_list
unfolding opcode_from
app_list_known = refl

opcode_code-opcode_from_example : opcode_code app_list ≡ 33
opcode_code-opcode_from_example = opcode_code-opcode_from 33 app_list app_list_known

app_install_chunk_budget_example :
    (sent : List ℕ) × (encode_frame sum_hash usize_max
        (app_install_chunk_request_with_ack 7 0 demo true)
      ≡ ok sent)
    × (length sent ≡ 4 + 41)
    × (length sent + 4 ≤ 49)
unfolding transfer_chunk_payload_for_frame_budget
app_install_chunk_budget_example =
    app_install_chunk_budget sum_hash usize_max 49 7 0 demo true (omega arith) (omega arith)
      (omega arith) (omega arith)

abbrev two_lines : List (List ℕ)
two_lines = demo ∷ (0x31 ∷ []) ∷ []

two_lines-Encodable :
    Encodable usize_max (response_frame output_get ok_status 7 (line_fields two_lines))
unfolding line_fields fields_size
two_lines-Encodable = record {
  sizes = (omega arith, tt, (omega arith, tt, tt));
  total = omega arith;
}

lines_small : fields_size (line_fields two_lines) ≤ 4294967295
unfolding line_fields fields_size
lines_small = omega arith

lines_text : All (λ line. is_utf8 line ≡ true) two_lines
unfolding is_utf8
lines_text = (refl, (refl, tt))

lines_room : header_len + fields_size (line_fields two_lines) ≤ length (frame_bytes sum_hash sample)
unfolding line_fields fields_size frame_bytes fields_bytes
lines_room = omega arith

encode_line_response_into-read_example :
    (sent : List ℕ) × (rest : List ℕ) × (frame : Frame) × (encode_line_response_into sum_hash
        usize_max output_get 7 two_lines
        (frame_bytes sum_hash sample)
      ≡ ok (length sent, sent ++ rest))
    × (decode_frame sum_hash usize_max sent ≡ ok frame)
    × (repeated_string_fields frame output_get 1 ≡ some two_lines)
encode_line_response_into-read_example =
    encode_line_response_into-read sum_hash sum_hash-lt usize_max 7 (omega arith) output_get
      two_lines (frame_bytes sum_hash sample) two_lines-Encodable lines_small lines_text lines_room

abbrev one_app : List AppEntry
one_app = record { app_id = demo; sqbc_len = 300 } ∷ []

apps_able : Encodable usize_max (response_frame app_list ok_status 7 (app_list_fields one_app))
unfolding app_list_fields entry_fields fields_size
apps_able = record {
  sizes = (omega arith, (omega arith, tt, (omega arith, tt, tt)), tt);
  total = omega arith;
}

apps_small : fields_size (app_list_fields one_app) ≤ 4294967295
unfolding app_list_fields entry_fields fields_size
apps_small = omega arith

apps_text : All (λ e. (is_utf8 e.app_id ≡ true) × (e.sqbc_len < 256 ^ 8)) one_app
unfolding is_utf8
apps_text = ((refl, omega arith), tt)

apps_room :
    header_len + fields_size (app_list_fields one_app) ≤ length (frame_bytes sum_hash sample)
unfolding app_list_fields entry_fields fields_size frame_bytes fields_bytes
apps_room = omega arith

encode_app_list_response_into-read_example :
    (sent : List ℕ) × (rest : List ℕ) × (frame : Frame) × (encode_app_list_response_into sum_hash
        usize_max 7 one_app
        (frame_bytes sum_hash sample)
      ≡ ok (length sent, sent ++ rest))
    × (decode_frame sum_hash usize_max sent ≡ ok frame)
    × (app_list_entries frame ≡ some one_app)
encode_app_list_response_into-read_example =
    encode_app_list_response_into-read sum_hash sum_hash-lt usize_max 7 (omega arith) one_app
      (frame_bytes sum_hash sample) apps_able apps_small apps_text apps_room

hello_Encodable :
    Encodable usize_max (response_frame hello ok_status 7 (hello_fields demo (0x31 ∷ []) true 4096))
unfolding hello_fields fields_size
hello_Encodable = record {
  sizes = (omega arith, tt, (omega arith, tt, (omega arith, tt, (omega arith, tt, tt))));
  total = omega arith;
}

hello_small : fields_size (hello_fields demo (0x31 ∷ []) true 4096) ≤ 4294967295
unfolding hello_fields fields_size
hello_small = omega arith

one_text : is_utf8 (0x31 ∷ []) ≡ true
unfolding is_utf8
one_text = refl

demo_text : is_utf8 demo ≡ true
unfolding is_utf8
demo_text = refl

hello_room :
    header_len + fields_size (hello_fields demo (0x31 ∷ []) true 4096)
    ≤ length (frame_bytes sum_hash sample)
unfolding hello_fields fields_size frame_bytes fields_bytes
hello_room = omega arith

encode_hello_response_into-read_example :
    (sent : List ℕ) × (rest : List ℕ) × (frame : Frame) × (encode_hello_response_into sum_hash
        usize_max hello 7 demo
        (0x31 ∷ [])
        true
        4096
        (frame_bytes sum_hash sample)
      ≡ ok (length sent, sent ++ rest))
    × (decode_frame sum_hash usize_max sent ≡ ok frame)
    × (hello_identity usize_max frame
        ≡ some (record {
          target = demo;
          firmware = 0x31 ∷ [];
          diagnostic = true;
          transfer_capabilities = from_serial_frame_budget 4096;
        }))
encode_hello_response_into-read_example =
    encode_hello_response_into-read sum_hash sum_hash-lt usize_max 7 (omega arith) demo (0x31 ∷ [])
      true 4096 (frame_bytes sum_hash sample) hello_Encodable hello_small demo_text one_text
      (omega arith) (omega arith) hello_room
