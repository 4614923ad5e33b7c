-- ===== src/Protocol/Replies.antt =====
-- compiler/rust/crates/squid-device-protocol/src/lib.rs: what the host reads from the fields of a
-- response. A loop that overwrites variables is `fold_fields` over a tuple of them.
pub mod Delivery
use squid_script.Base.{
  ℕ, ◌-◌, ◌^◌, Bool, false, ◌&&◌, Option, none, some, List, [], ◌∷◌, leb, ◌==◌, if◌then◌else◌,
}
use squid_script.Protocol.Wire.{
  response, Status, ok_status, error_status, Opcode, opcode_code, status_code, kind_code, hello,
  app_list, output_get, trace_get, lifecycle_get, runtime_cap_get, drawlog_get, debug_log_get,
  errors_get, state_get, content_check, content_delete,
}
use squid_script.Protocol.Fields.{
  FieldValue, bytes, string, bool, i64, u64, nested, Fields, end, field,
}
use squid_script.Protocol.Frame.{Frame}
use squid_script.Protocol.Requests.{transfer_chunk_payload_for_frame_budget}
use squid_script.Protocol.Responses.{AppEntry}

-- `for field in fields`, of the state `s`.
abbrev pub fold_fields {ℓ} : {S : Type ℓ} → (S → ℕ → FieldValue → S) → S → Fields → S
fold_fields step s end = s
fold_fields step s (field tag value rest) = fold_fields step (step s tag value) rest

-- The test that each reader starts with. The derived `==` compares the codes.
unfoldable pub is_response : Frame → Opcode → Status → Bool
is_response frame opcode status =
    kind_code frame.kind == kind_code response
    && opcode_code frame.opcode == opcode_code opcode
    && status_code frame.status == status_code status

-- The `?` of an Option, and `Option::map`.
abbrev pub and_some {ℓ κ} : {A : Type ℓ} {B : Type κ} → Option A → (A → Option B) → Option B
and_some none f = none
and_some (some a) f = f a

abbrev pub or_else {ℓ} : {A : Type ℓ} → Option A → A → A
or_else none a = a
or_else (some a) b = a

pub record TransferCapabilities : Type 0 where
  pub max_frame_bytes : ℕ
  pub max_payload_bytes : ℕ
  pub ack_window_bytes : ℕ

unfoldable pub from_serial_frame_budget : ℕ → TransferCapabilities
from_serial_frame_budget max_frame_bytes = record {
  max_frame_bytes = max_frame_bytes;
  max_payload_bytes = transfer_chunk_payload_for_frame_budget max_frame_bytes;
  ack_window_bytes = transfer_chunk_payload_for_frame_budget max_frame_bytes;
}

abbrev pub default_serial_max_frame_bytes : ℕ
default_serial_max_frame_bytes = 8192

pub record HelloIdentity : Type 0 where
  pub target : List ℕ
  pub firmware : List ℕ
  pub diagnostic : Bool
  pub transfer_capabilities : TransferCapabilities

-- What the loop of `hello_identity` has found.
pub record HelloFields : Type 0 where
  pub target : Option (List ℕ)
  pub firmware : Option (List ℕ)
  pub diagnostic : Option Bool
  pub serial_max_frame_bytes : Option ℕ

-- `usize::try_from(value).ok()`
abbrev pub usize_from : ℕ → ℕ → Option ℕ
usize_from max value = if leb value max then some value else none

unfoldable pub hello_step : ℕ → HelloFields → ℕ → FieldValue → HelloFields
hello_step max s tag (string value) =
    if tag == 1
    then record s { target = some value }
    else if tag == 2
    then record s { firmware = some value }
    else s
hello_step max s tag (bool value) = if tag == 3 then record s { diagnostic = some value } else s
hello_step max s tag (u64 value) =
    if tag == 4 then record s { serial_max_frame_bytes = usize_from max value } else s
hello_step max s tag _ = s

abbrev pub nothing_found : HelloFields
nothing_found = record {
  target = none;
  firmware = none;
  diagnostic = none;
  serial_max_frame_bytes = none;
}

unfoldable pub hello_identity : ℕ → Frame → Option HelloIdentity
hello_identity max frame =
    let s = fold_fields (hello_step max) nothing_found frame.fields in
    let identity = and_some s.target λ target. and_some s.firmware λ firmware. some (record {
      target = target;
      firmware = firmware;
      diagnostic = or_else s.diagnostic false;
      transfer_capabilities =
          from_serial_frame_budget
            (or_else s.serial_max_frame_bytes default_serial_max_frame_bytes);
    }) in
    if is_response frame hello ok_status then identity else none

-- The inner loop of `app_list_entries`.
unfoldable pub entry_step : Option (List ℕ) × Option ℕ → ℕ → FieldValue → Option (List ℕ) × Option ℕ
entry_step (app_id, sqbc_len) tag (string value) =
    if tag == 1 then (some value, sqbc_len) else (app_id, sqbc_len)
entry_step (app_id, sqbc_len) tag (u64 value) =
    if tag == 2 then (app_id, some value) else (app_id, sqbc_len)
entry_step s tag _ = s

unfoldable pub app_entry : Fields → Option AppEntry
unfolding entry_step
app_entry fields =
    let (app_id, sqbc_len) = fold_fields entry_step (none, none) fields in
    and_some app_id
      λ app_id. and_some sqbc_len λ sqbc_len. some (record { app_id = app_id; sqbc_len = sqbc_len })

-- The outer loop: a record of tag 1 that lacks a field ends it with `None`.
unfoldable pub app_entries_from : Fields → Option (List AppEntry)
app_entries_from end = some []
app_entries_from (field tag (nested fields) rest) =
    let others = app_entries_from rest in
    let all =
      and_some (app_entry fields) λ entry. and_some others λ entries. some (entry ∷ entries) in
    if tag == 1 then all else others
app_entries_from (field tag _ rest) = app_entries_from rest

unfoldable pub app_list_entries : Frame → Option (List AppEntry)
app_list_entries frame =
    let entries = app_entries_from frame.fields in
    if is_response frame app_list ok_status then entries else none

unfoldable pub strings_at : ℕ → Fields → List (List ℕ)
strings_at tag end = []
strings_at tag (field t (string value) rest) =
    let others = strings_at tag rest in if t == tag then value ∷ others else others
strings_at tag (field t _ rest) = strings_at tag rest

unfoldable pub repeated_string_fields : Frame → Opcode → ℕ → Option (List (List ℕ))
repeated_string_fields frame opcode tag =
    if is_response frame opcode ok_status then some (strings_at tag frame.fields) else none

unfoldable pub output_lines : Frame → Option (List (List ℕ))
output_lines frame = repeated_string_fields frame output_get 1

unfoldable pub trace_lines : Frame → Option (List (List ℕ))
trace_lines frame = repeated_string_fields frame trace_get 1

unfoldable pub lifecycle_lines : Frame → Option (List (List ℕ))
lifecycle_lines frame = repeated_string_fields frame lifecycle_get 1

unfoldable pub runtime_cap_lines : Frame → Option (List (List ℕ))
runtime_cap_lines frame = repeated_string_fields frame runtime_cap_get 1

unfoldable pub drawlog_lines : Frame → Option (List (List ℕ))
drawlog_lines frame = repeated_string_fields frame drawlog_get 1

unfoldable pub debug_log_lines : Frame → Option (List (List ℕ))
debug_log_lines frame = repeated_string_fields frame debug_log_get 1

unfoldable pub error_lines : Frame → Option (List (List ℕ))
error_lines frame = repeated_string_fields frame errors_get 1

-- The first byte string of tag 1, or no bytes.
unfoldable pub first_bytes : Fields → List ℕ
first_bytes end = []
first_bytes (field tag (bytes value) rest) =
    let others = first_bytes rest in if tag == 1 then value else others
first_bytes (field tag _ rest) = first_bytes rest

unfoldable pub state_bytes : Frame → Option (List ℕ)
state_bytes frame =
    if is_response frame state_get ok_status then some (first_bytes frame.fields) else none

pub record ContentCheckResult : Type 0 where
  pub name : List ℕ
  pub size : ℕ
  pub crc32 : ℕ

pub record ContentFields : Type 0 where
  pub name : Option (List ℕ)
  pub size : Option ℕ
  pub crc32 : Option ℕ

unfoldable pub content_step : ContentFields → ℕ → FieldValue → ContentFields
content_step s tag (string value) = if tag == 1 then record s { name = some value } else s
content_step s tag (u64 value) =
    if tag == 2
    then record s { size = some value }
    else if tag == 3
    then record s { crc32 = some value }
    else s
content_step s tag _ = s

unfoldable pub content_check_result : Frame → Option ContentCheckResult
content_check_result frame =
    let s : ContentFields =
      fold_fields content_step (record { name = none; size = none; crc32 = none }) frame.fields in
    let result = and_some s.name λ name.
      and_some s.size
        λ size. and_some s.crc32 λ crc. some (record { name = name; size = size; crc32 = crc }) in
    if is_response frame content_check ok_status then result else none

unfoldable pub first_string : Fields → Option (List ℕ)
first_string end = none
first_string (field tag (string value) rest) =
    let others = first_string rest in if tag == 1 then some value else others
first_string (field tag _ rest) = first_string rest

unfoldable pub content_delete_result : Frame → Option (List ℕ)
content_delete_result frame =
    if is_response frame content_delete ok_status then first_string frame.fields else none

-- An i64 is its 64-bit pattern.
pub record ProtocolError : Type 0 where
  pub code : ℕ
  pub message : List ℕ

unfoldable pub error_step : Option ℕ × Option (List ℕ) → ℕ → FieldValue → Option ℕ × Option (List ℕ)
error_step (code, message) tag (i64 value) =
    if tag == 250 then (some value, message) else (code, message)
error_step (code, message) tag (string value) =
    if tag == 251 then (code, some value) else (code, message)
error_step s tag _ = s

-- `"protocol error"`
abbrev pub protocol_error_text : List ℕ
protocol_error_text =
    0x70 ∷ 0x72 ∷ 0x6f ∷ 0x74 ∷ 0x6f ∷ 0x63 ∷ 0x6f ∷ 0x6c ∷ 0x20 ∷ 0x65 ∷ 0x72 ∷ 0x72 ∷ 0x6f ∷ 0x72
    ∷ []

unfoldable pub protocol_error : Frame → Option ProtocolError
unfolding error_step
protocol_error frame =
    let (code, message) = fold_fields error_step (none, none) frame.fields in
    let e : ProtocolError = record {
      code = or_else code (2 ^ 64 - 1);
      message = or_else message protocol_error_text;
    } in
    if kind_code frame.kind == kind_code response
      && status_code frame.status == status_code error_status
    then some e
    else none
