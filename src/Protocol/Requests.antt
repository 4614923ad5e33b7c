-- ===== src/Protocol/Requests.antt =====
-- compiler/rust/crates/squid-device-protocol/src/lib.rs: the requests that the host sends.
-- A `u64` or `u16` argument is a number, and a string the list of its bytes.
pub mod Budget
pub mod Delivery
use squid_script.Base.{ℕ, ◌-◌, Bool, true, Option, none, some, List}
use squid_script.Protocol.Wire.{
  hello, app_list, output_get, trace_get, state_get, drawlog_get, debug_log_get, errors_get,
  resources_get, lifecycle_get, reset, storage_format, runtime_cap_get, runtime_cap_set,
  runtime_cap_clear, display_window_probe, key, event_dispatch, state_import, wifi_profile_set,
  app_install_begin, app_install_chunk, app_install_commit, resource_install_begin,
  resource_install_chunk, resource_install_commit, content_install_begin, content_install_chunk,
  content_install_commit, content_check, content_delete, app_launch, temp_run_begin, temp_run_chunk,
  temp_run_commit,
}
use squid_script.Protocol.Fields.{Fields, end, field, bytes, string, bool, u32, u64}
use squid_script.Protocol.Frame.{Frame, request_frame}

unfoldable pub transfer_chunk_payload_for_frame_budget : ℕ → ℕ
transfer_chunk_payload_for_frame_budget frame_budget = frame_budget - 45

unfoldable pub transfer_chunk_fields : ℕ → List ℕ → Bool → Fields
transfer_chunk_fields offset content ack_requested =
    field 1 (u64 offset) (field 2 (bytes content) (field 3 (bool ack_requested) end))

unfoldable pub hello_request : ℕ → Frame
hello_request sequence = request_frame hello sequence end

unfoldable pub app_list_request : ℕ → Frame
app_list_request sequence = request_frame app_list sequence end

unfoldable pub output_get_request : ℕ → Frame
output_get_request sequence = request_frame output_get sequence end

unfoldable pub trace_get_request : ℕ → Frame
trace_get_request sequence = request_frame trace_get sequence end

unfoldable pub state_get_request : ℕ → Frame
state_get_request sequence = request_frame state_get sequence end

unfoldable pub drawlog_get_request : ℕ → Frame
drawlog_get_request sequence = request_frame drawlog_get sequence end

unfoldable pub debug_log_get_request : ℕ → Frame
debug_log_get_request sequence = request_frame debug_log_get sequence end

unfoldable pub errors_get_request : ℕ → Frame
errors_get_request sequence = request_frame errors_get sequence end

unfoldable pub resources_get_request : ℕ → Frame
resources_get_request sequence = request_frame resources_get sequence end

unfoldable pub resources_get_request_with_heap_reset : ℕ → Frame
resources_get_request_with_heap_reset sequence =
    request_frame resources_get sequence (field 1 (bool true) end)

unfoldable pub lifecycle_get_request : ℕ → Frame
lifecycle_get_request sequence = request_frame lifecycle_get sequence end

unfoldable pub reset_request : ℕ → Frame
reset_request sequence = request_frame reset sequence end

unfoldable pub storage_format_request : ℕ → Frame
storage_format_request sequence = request_frame storage_format sequence end

-- `key.map(|key| vec![Field::string(1, key)]).unwrap_or_default()`
abbrev optional_key : Option (List ℕ) → Fields
optional_key none = end
optional_key (some name) = field 1 (string name) end

unfoldable pub runtime_cap_get_request : ℕ → Option (List ℕ) → Frame
runtime_cap_get_request sequence name = request_frame runtime_cap_get sequence (optional_key name)

unfoldable pub runtime_cap_clear_request : ℕ → Option (List ℕ) → Frame
runtime_cap_clear_request sequence name =
    request_frame runtime_cap_clear sequence (optional_key name)

unfoldable pub runtime_cap_set_request : ℕ → List ℕ → ℕ → Frame
runtime_cap_set_request sequence name value =
    request_frame runtime_cap_set sequence (field 1 (string name) (field 2 (u32 value) end))

unfoldable pub display_window_probe_request : ℕ → List ℕ → Frame
display_window_probe_request sequence pattern_name =
    request_frame display_window_probe sequence (field 1 (string pattern_name) end)

unfoldable pub key_request : ℕ → List ℕ → Frame
key_request sequence name = request_frame key sequence (field 1 (string name) end)

unfoldable pub event_dispatch_request : ℕ → List ℕ → List ℕ → Frame
event_dispatch_request sequence app_id event_name =
    request_frame event_dispatch sequence
      (field 1 (string app_id) (field 2 (string event_name) end))

unfoldable pub state_import_request : ℕ → List ℕ → Frame
state_import_request sequence content =
    request_frame state_import sequence (field 1 (bytes content) end)

unfoldable pub wifi_profile_set_request : ℕ → List ℕ → List ℕ → List ℕ → Frame
wifi_profile_set_request sequence profile ssid password =
    request_frame wifi_profile_set sequence
      (field 1 (string profile) (field 2 (string ssid) (field 3 (string password) end)))

unfoldable pub app_install_begin_request : ℕ → List ℕ → ℕ → ℕ → Frame
app_install_begin_request sequence app_id total_len crc =
    request_frame app_install_begin sequence
      (field 1 (string app_id) (field 2 (u64 total_len) (field 3 (u64 crc) end)))

unfoldable pub app_install_chunk_request_with_ack : ℕ → ℕ → List ℕ → Bool → Frame
unfolding transfer_chunk_fields
app_install_chunk_request_with_ack sequence offset content ack_requested =
    request_frame app_install_chunk sequence (transfer_chunk_fields offset content ack_requested)

unfoldable pub app_install_chunk_request : ℕ → ℕ → List ℕ → Frame
unfolding app_install_chunk_request_with_ack
app_install_chunk_request sequence offset content =
    app_install_chunk_request_with_ack sequence offset content true

unfoldable pub app_install_commit_request : ℕ → Frame
app_install_commit_request sequence = request_frame app_install_commit sequence end

unfoldable pub resource_install_begin_request : ℕ → List ℕ → List ℕ → ℕ → ℕ → Frame
resource_install_begin_request sequence app_id path total_len crc =
    request_frame resource_install_begin sequence (
      field 1 (string app_id)
        (field 2 (string path) (field 3 (u64 total_len) (field 4 (u64 crc) end))))

unfoldable pub resource_install_chunk_request_with_ack : ℕ → ℕ → List ℕ → Bool → Frame
unfolding transfer_chunk_fields
resource_install_chunk_request_with_ack sequence offset content ack_requested =
    request_frame resource_install_chunk sequence
      (transfer_chunk_fields offset content ack_requested)

unfoldable pub resource_install_chunk_request : ℕ → ℕ → List ℕ → Frame
unfolding resource_install_chunk_request_with_ack
resource_install_chunk_request sequence offset content =
    resource_install_chunk_request_with_ack sequence offset content true

unfoldable pub resource_install_commit_request : ℕ → Frame
resource_install_commit_request sequence = request_frame resource_install_commit sequence end

unfoldable pub content_install_begin_request : ℕ → List ℕ → ℕ → ℕ → Frame
content_install_begin_request sequence name total_len crc =
    request_frame content_install_begin sequence
      (field 1 (string name) (field 2 (u64 total_len) (field 3 (u64 crc) end)))

unfoldable pub content_install_chunk_request_with_ack : ℕ → ℕ → List ℕ → Bool → Frame
unfolding transfer_chunk_fields
content_install_chunk_request_with_ack sequence offset content ack_requested =
    request_frame content_install_chunk sequence
      (transfer_chunk_fields offset content ack_requested)

unfoldable pub content_install_chunk_request : ℕ → ℕ → List ℕ → Frame
unfolding content_install_chunk_request_with_ack
content_install_chunk_request sequence offset content =
    content_install_chunk_request_with_ack sequence offset content true

unfoldable pub content_install_commit_request : ℕ → Frame
content_install_commit_request sequence = request_frame content_install_commit sequence end

unfoldable pub content_check_request : ℕ → List ℕ → Frame
content_check_request sequence name =
    request_frame content_check sequence (field 1 (string name) end)

unfoldable pub content_delete_request : ℕ → List ℕ → Frame
content_delete_request sequence name =
    request_frame content_delete sequence (field 1 (string name) end)

unfoldable pub app_launch_request : ℕ → List ℕ → Frame
app_launch_request sequence app_id = request_frame app_launch sequence (field 1 (string app_id) end)

unfoldable pub temp_run_begin_request : ℕ → List ℕ → ℕ → ℕ → Frame
temp_run_begin_request sequence app_id total_len crc =
    request_frame temp_run_begin sequence
      (field 1 (string app_id) (field 2 (u64 total_len) (field 3 (u64 crc) end)))

unfoldable pub temp_run_chunk_request_with_ack : ℕ → ℕ → List ℕ → Bool → Frame
unfolding transfer_chunk_fields
temp_run_chunk_request_with_ack sequence offset content ack_requested =
    request_frame temp_run_chunk sequence (transfer_chunk_fields offset content ack_requested)

unfoldable pub temp_run_chunk_request : ℕ → ℕ → List ℕ → Frame
unfolding temp_run_chunk_request_with_ack
temp_run_chunk_request sequence offset content =
    temp_run_chunk_request_with_ack sequence offset content true

unfoldable pub temp_run_commit_request : ℕ → Frame
temp_run_commit_request sequence = request_frame temp_run_commit sequence end
