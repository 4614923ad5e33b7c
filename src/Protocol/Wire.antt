-- ===== src/Protocol/Wire.antt =====
-- compiler/rust/crates/squid-device-protocol/src/lib.rs: the codes in a frame's header, and the
-- errors of the decoder. An enum's `as u8` is `.._code`, its `TryFrom<u8>` is `.._from`.
use squid_script.Base.{ℕ, ◌==◌, if◌then◌else◌, Result, ok, err, List, [], ◌∷◌}

pub data FrameKind : Type 0 where
  request response event : FrameKind

pub data Status : Type 0 where
  ok_status error_status pending : Status

pub data Opcode : Type 0 where
  hello : Opcode
  app_install_begin : Opcode
  app_install_chunk : Opcode
  app_install_commit : Opcode
  resource_install_begin : Opcode
  resource_install_chunk : Opcode
  resource_install_commit : Opcode
  temp_run_begin : Opcode
  temp_run_chunk : Opcode
  temp_run_commit : Opcode
  app_launch : Opcode
  app_list : Opcode
  key : Opcode
  event_dispatch : Opcode
  output_get : Opcode
  state_get : Opcode
  drawlog_get : Opcode
  trace_get : Opcode
  errors_get : Opcode
  resources_get : Opcode
  lifecycle_get : Opcode
  state_import : Opcode
  wifi_profile_set : Opcode
  reset : Opcode
  storage_format : Opcode
  runtime_cap_get : Opcode
  runtime_cap_set : Opcode
  runtime_cap_clear : Opcode
  display_window_probe : Opcode
  content_install_begin : Opcode
  content_install_chunk : Opcode
  content_install_commit : Opcode
  content_check : Opcode
  debug_log_get : Opcode
  content_delete : Opcode

pub data DecodeError : Type 0 where
  truncated_header bad_magic payload_crc truncated_field invalid_utf8 : DecodeError
  unknown_frame_kind unknown_opcode unknown_status unknown_field_type : ℕ → DecodeError
  invalid_bool_length invalid_integer_length : ℕ → DecodeError
  length_mismatch : (expected actual : ℕ) → DecodeError
  output_too_small : (needed capacity : ℕ) → DecodeError

-- `b"SQDP"`
abbrev pub magic : List ℕ
magic = 0x53 ∷ 0x51 ∷ 0x44 ∷ 0x50 ∷ []

abbrev pub header_len : ℕ
header_len = 20

abbrev pub max_app_id_len : ℕ
max_app_id_len = 40

abbrev pub max_path_len : ℕ
max_path_len = 128

abbrev pub max_app_bytes : ℕ
max_app_bytes = 65536

abbrev pub max_resource_bytes : ℕ
max_resource_bytes = 1048576

unfoldable pub kind_code : FrameKind → ℕ
kind_code request = 1
kind_code response = 2
kind_code event = 3

unfoldable pub kind_from : ℕ → Result DecodeError FrameKind
kind_from value =
    if value == 1
    then ok request
    else if value == 2
    then ok response
    else if value == 3
    then ok event
    else err (unknown_frame_kind value)

unfoldable pub status_code : Status → ℕ
status_code ok_status = 0
status_code error_status = 1
status_code pending = 2

unfoldable pub status_from : ℕ → Result DecodeError Status
status_from value =
    if value == 0
    then ok ok_status
    else if value == 1
    then ok error_status
    else if value == 2
    then ok pending
    else err (unknown_status value)

unfoldable pub opcode_code : Opcode → ℕ
opcode_code hello = 1
opcode_code app_install_begin = 16
opcode_code app_install_chunk = 17
opcode_code app_install_commit = 18
opcode_code resource_install_begin = 19
opcode_code resource_install_chunk = 20
opcode_code resource_install_commit = 21
opcode_code temp_run_begin = 24
opcode_code temp_run_chunk = 25
opcode_code temp_run_commit = 26
opcode_code app_launch = 32
opcode_code app_list = 33
opcode_code key = 48
opcode_code event_dispatch = 49
opcode_code output_get = 64
opcode_code state_get = 65
opcode_code drawlog_get = 66
opcode_code trace_get = 67
opcode_code errors_get = 68
opcode_code resources_get = 69
opcode_code lifecycle_get = 70
opcode_code state_import = 72
opcode_code wifi_profile_set = 76
opcode_code reset = 80
opcode_code storage_format = 81
opcode_code runtime_cap_get = 82
opcode_code runtime_cap_set = 83
opcode_code runtime_cap_clear = 84
opcode_code display_window_probe = 85
opcode_code content_install_begin = 88
opcode_code content_install_chunk = 89
opcode_code content_install_commit = 90
opcode_code content_check = 91
opcode_code debug_log_get = 92
opcode_code content_delete = 93

unfoldable pub opcode_from : ℕ → Result DecodeError Opcode
opcode_from value =
    if value == 1
    then ok hello
    else if value == 16
    then ok app_install_begin
    else if value == 17
    then ok app_install_chunk
    else if value == 18
    then ok app_install_commit
    else if value == 19
    then ok resource_install_begin
    else if value == 20
    then ok resource_install_chunk
    else if value == 21
    then ok resource_install_commit
    else if value == 24
    then ok temp_run_begin
    else if value == 25
    then ok temp_run_chunk
    else if value == 26
    then ok temp_run_commit
    else if value == 32
    then ok app_launch
    else if value == 33
    then ok app_list
    else if value == 48
    then ok key
    else if value == 49
    then ok event_dispatch
    else if value == 64
    then ok output_get
    else if value == 65
    then ok state_get
    else if value == 66
    then ok drawlog_get
    else if value == 67
    then ok trace_get
    else if value == 68
    then ok errors_get
    else if value == 69
    then ok resources_get
    else if value == 70
    then ok lifecycle_get
    else if value == 72
    then ok state_import
    else if value == 76
    then ok wifi_profile_set
    else if value == 80
    then ok reset
    else if value == 81
    then ok storage_format
    else if value == 82
    then ok runtime_cap_get
    else if value == 83
    then ok runtime_cap_set
    else if value == 84
    then ok runtime_cap_clear
    else if value == 85
    then ok display_window_probe
    else if value == 88
    then ok content_install_begin
    else if value == 89
    then ok content_install_chunk
    else if value == 90
    then ok content_install_commit
    else if value == 91
    then ok content_check
    else if value == 92
    then ok debug_log_get
    else if value == 93
    then ok content_delete
    else err (unknown_opcode value)
