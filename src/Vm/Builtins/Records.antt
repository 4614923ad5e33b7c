-- ===== src/Vm/Builtins/Records.antt =====
-- compiler/rust/crates/squidvm-core/src/vm.rs: the records that builtins build of a host's answers.
pub mod Safe
use squid_script.Base.{ℕ, false, Option, none, some, List, [], ◌∷◌, Result, front, replicate}
use squid_script.Vm.Values.{VmError, Value, null, bool_value, i32_value, handle_value, Handle}
use squid_script.Vm.Heap.{RuntimeRecordField}
use squid_script.Vm.Services.{
  DeviceConfigResult, FilePickFileResult, FileReadTextResult, FileReadLinesResult, FileCopyResult,
  BinBookOpenResult, BinBookInfoResult, BinBookReadPageResult, BinBookChapterEntry,
  BinBookChapterListResult, BinBookChapterResult, ContentBinBookEntry, ContentBinBookListResult,
  AppRegistryEntry, AppInstallResult, AppArmedStackEntry, DisplayInfo, WifiOperation,
  WifiOperationResult, WifiStatus, WifiApIp, WifiAccessPoint, WifiScanNetwork,
}
use squid_script.Vm.Exec.{M, ◌>>=◌, ◌>>◌, reads}
use squid_script.Vm.Builtins.Operands.{as_text, runtime_string_value, alloc, list_of}
use squid_script.Vm.Builtins.Names.{
  active_name, kind_name, state_name, done_name, cancelled_name, ok_name, error_name, ready_name,
  count_name, warning_name, path_name, text_name, ref_name, bytes_written_name, book_name,
  title_name, page_count_name, chapter_count_name, drawable_name, index_name, page_index_name,
  level_name, type_name, name_name, size_name, available_name, status_name, binding_name,
  driver_name, transport_name, width_name, height_name, physical_width_name, physical_height_name,
  rotation_name, color_model_name, logical_gray_levels_name, native_bpp_name,
  native_pixel_format_name, default_font_height_name, supports_partial_refresh_name,
  supports_fast_refresh_name, id_name, build_name, description_name, app_id_name, event_name,
  mode_name, ip_address_name, ssid_name, clients_name, backend_name, driver_started_name,
  configured_name, driver_mode_name, channel_name, ap_start_events_name, ap_stop_events_name,
  probe_events_name, sta_connected_events_name, sta_disconnected_events_name,
  last_backend_code_name, profile_name, connected_name, scan_matches_name, rssi_name, auth_name,
  bssid_name, disconnect_reason_name, disconnect_reason_code_name, ip_name, gw_name, netmask_name,
  lines_name, items_name, has_more_name, ssid_length_name, hidden_name,
}

-- `map_or(Value::Null, Value::Handle)`
abbrev pub handle_or_null : Option Handle → Value
handle_or_null none = null
handle_or_null (some handle) = handle_value handle

-- `chapter.map(|entry| entry.title)`
abbrev pub chapter_title : Option BinBookChapterEntry → Option (List ℕ)
chapter_title none = none
chapter_title (some entry) = some entry.title

abbrev pub chapter_or_zero : Option BinBookChapterEntry → BinBookChapterEntry
chapter_or_zero none = record { index = 0; title = []; page_index = 0; level = 0; entry_type = 0 }
chapter_or_zero (some entry) = entry

-- `WifiAccessPoint::empty` where there is none.
abbrev pub network_or_empty : Option WifiAccessPoint → WifiAccessPoint
network_or_empty none = record {
  ssid = replicate 32 0;
  ssid_len = 0;
  ssid_length = 0;
  channel = 0;
  rssi = 0;
  auth = none;
  hidden = false;
}
network_or_empty (some network) = network

-- `WifiAccessPoint::ssid`
unfoldable pub access_point_ssid : WifiAccessPoint → Result VmError (List ℕ)
unfolding as_text
access_point_ssid network =
    squid_script.Base.◌>>=◌ (front network.ssid_len network.ssid) λ bytes. as_text bytes

abbrev pub entry_of : List ℕ → Value → RuntimeRecordField
entry_of name value = record { name = name; value = value }

module _ {H : Type 0} (max : ℕ) where
  unfoldable pub wifi_operation_record : WifiOperation → M H Value
  unfolding runtime_string_value alloc
  wifi_operation_record answer = do
    kind ← runtime_string_value max answer.kind
    state ← runtime_string_value max (some answer.state)
    error ← runtime_string_value max answer.error
    alloc (
        entry_of active_name (bool_value answer.active)
        ∷ entry_of kind_name kind
        ∷ entry_of state_name state
        ∷ entry_of done_name (bool_value answer.done)
        ∷ entry_of cancelled_name (bool_value answer.cancelled)
        ∷ entry_of ok_name (bool_value answer.is_ok)
        ∷ entry_of error_name error
        ∷ [])

  unfoldable pub wifi_operation_result_record : WifiOperationResult → M H Value
  unfolding runtime_string_value alloc
  wifi_operation_result_record answer = do
    kind ← runtime_string_value max answer.kind
    state ← runtime_string_value max (some answer.state)
    error ← runtime_string_value max answer.error
    alloc (
        entry_of ready_name (bool_value answer.ready)
        ∷ entry_of kind_name kind
        ∷ entry_of state_name state
        ∷ entry_of ok_name (bool_value answer.is_ok)
        ∷ entry_of error_name error
        ∷ entry_of cancelled_name (bool_value answer.cancelled)
        ∷ entry_of count_name (i32_value answer.count)
        ∷ [])

  unfoldable pub device_config_result_record : DeviceConfigResult → M H Value
  unfolding runtime_string_value alloc
  device_config_result_record answer = do
    error ← runtime_string_value max answer.error
    warning ← runtime_string_value max answer.warning
    alloc (
        entry_of ok_name (bool_value answer.is_ok)
        ∷ entry_of error_name error
        ∷ entry_of warning_name warning
        ∷ [])

  unfoldable pub file_pick_file_result_record : FilePickFileResult → M H Value
  unfolding runtime_string_value alloc
  file_pick_file_result_record answer = do
    error ← runtime_string_value max answer.error
    path ← runtime_string_value max answer.path
    alloc (
        entry_of ok_name (bool_value answer.is_ok)
        ∷ entry_of error_name error
        ∷ entry_of path_name path
        ∷ [])

  unfoldable pub file_read_text_result_record : FileReadTextResult → M H Value
  unfolding runtime_string_value alloc
  file_read_text_result_record answer = do
    error ← runtime_string_value max answer.error
    text ← runtime_string_value max answer.text
    alloc (
        entry_of ok_name (bool_value answer.is_ok)
        ∷ entry_of error_name error
        ∷ entry_of text_name text
        ∷ [])

  unfoldable pub file_copy_result_record : FileCopyResult → M H Value
  unfolding runtime_string_value alloc
  file_copy_result_record answer = do
    error ← runtime_string_value max answer.error
    reference ← runtime_string_value max answer.reference
    alloc (
        entry_of ok_name (bool_value answer.is_ok)
        ∷ entry_of error_name error
        ∷ entry_of ref_name reference
        ∷ entry_of bytes_written_name (i32_value answer.bytes_written)
        ∷ [])

  unfoldable pub binbook_open_record : BinBookOpenResult → M H Value
  unfolding runtime_string_value alloc
  binbook_open_record answer = do
    error ← runtime_string_value max answer.error
    let book = handle_or_null answer.book
    alloc (
        entry_of ok_name (bool_value answer.is_ok)
        ∷ entry_of error_name error
        ∷ entry_of book_name book
        ∷ [])

  unfoldable pub binbook_info_record : BinBookInfoResult → M H Value
  unfolding runtime_string_value alloc
  binbook_info_record answer = do
    error ← runtime_string_value max answer.error
    title ← runtime_string_value max answer.title
    alloc (
        entry_of ok_name (bool_value answer.is_ok)
        ∷ entry_of error_name error
        ∷ entry_of title_name title
        ∷ entry_of page_count_name (i32_value answer.page_count)
        ∷ entry_of chapter_count_name (i32_value answer.chapter_count)
        ∷ [])

  unfoldable pub binbook_read_page_record : BinBookReadPageResult → M H Value
  unfolding runtime_string_value alloc
  binbook_read_page_record answer = do
    error ← runtime_string_value max answer.error
    let drawable = handle_or_null answer.drawing
    alloc (
        entry_of ok_name (bool_value answer.is_ok)
        ∷ entry_of error_name error
        ∷ entry_of drawable_name drawable
        ∷ [])

  unfoldable pub binbook_chapter_entry_record : BinBookChapterEntry → M H Value
  unfolding runtime_string_value alloc
  binbook_chapter_entry_record answer = do
    title ← runtime_string_value max (some answer.title)
    alloc (
        entry_of index_name (i32_value answer.index)
        ∷ entry_of title_name title
        ∷ entry_of page_index_name (i32_value answer.page_index)
        ∷ entry_of level_name (i32_value answer.level)
        ∷ entry_of type_name (i32_value answer.entry_type)
        ∷ [])

  unfoldable pub content_binbook_entry_record : ContentBinBookEntry → M H Value
  unfolding runtime_string_value alloc
  content_binbook_entry_record answer = do
    name ← runtime_string_value max (some answer.name)
    reference ← runtime_string_value max (some answer.reference)
    alloc (
        entry_of name_name name
        ∷ entry_of ref_name reference
        ∷ entry_of size_name (i32_value answer.size)
        ∷ [])

  unfoldable pub display_info_record : DisplayInfo → M H Value
  unfolding runtime_string_value alloc
  display_info_record answer = do
    error ← runtime_string_value max answer.error
    warning ← runtime_string_value max answer.warning
    status ← runtime_string_value max (some answer.status)
    binding ← runtime_string_value max (some answer.binding)
    driver ← runtime_string_value max (some answer.driver)
    transport ← runtime_string_value max (some answer.transport)
    color_model ← runtime_string_value max (some answer.color_model)
    native_pixel_format ← runtime_string_value max (some answer.native_pixel_format)
    alloc (
        entry_of ok_name (bool_value answer.is_ok)
        ∷ entry_of error_name error
        ∷ entry_of warning_name warning
        ∷ entry_of available_name (bool_value answer.available)
        ∷ entry_of status_name status
        ∷ entry_of binding_name binding
        ∷ entry_of driver_name driver
        ∷ entry_of transport_name transport
        ∷ entry_of width_name (i32_value answer.width)
        ∷ entry_of height_name (i32_value answer.height)
        ∷ entry_of physical_width_name (i32_value answer.physical_width)
        ∷ entry_of physical_height_name (i32_value answer.physical_height)
        ∷ entry_of rotation_name (i32_value answer.rotation)
        ∷ entry_of color_model_name color_model
        ∷ entry_of logical_gray_levels_name (i32_value answer.logical_gray_levels)
        ∷ entry_of native_bpp_name (i32_value answer.native_bpp)
        ∷ entry_of native_pixel_format_name native_pixel_format
        ∷ entry_of default_font_height_name (i32_value answer.default_font_height)
        ∷ entry_of supports_partial_refresh_name (bool_value answer.supports_partial_refresh)
        ∷ entry_of supports_fast_refresh_name (bool_value answer.supports_fast_refresh)
        ∷ [])

  unfoldable pub app_registry_record : AppRegistryEntry → M H Value
  unfolding runtime_string_value alloc
  app_registry_record answer = do
    id ← runtime_string_value max (some answer.id)
    name ← runtime_string_value max (some answer.name)
    build ← runtime_string_value max (some answer.build)
    description ← runtime_string_value max (some answer.description)
    alloc (
        entry_of id_name id
        ∷ entry_of name_name name
        ∷ entry_of build_name build
        ∷ entry_of description_name description
        ∷ [])

  unfoldable pub app_install_record : AppInstallResult → M H Value
  unfolding runtime_string_value alloc
  app_install_record answer = do
    id ← runtime_string_value max (some answer.id)
    alloc (entry_of id_name id ∷ [])

  unfoldable pub app_armed_stack_record : AppArmedStackEntry → M H Value
  unfolding runtime_string_value alloc
  app_armed_stack_record answer = do
    app_id ← runtime_string_value max (some answer.app_id)
    event ← runtime_string_value max (some answer.event)
    alloc (entry_of app_id_name app_id ∷ entry_of event_name event ∷ [])

  unfoldable pub wifi_status_record : WifiStatus → M H Value
  unfolding runtime_string_value alloc
  wifi_status_record answer = do
    mode ← runtime_string_value max answer.mode
    ip_address ← runtime_string_value max answer.ip_address
    ssid ← runtime_string_value max answer.ssid
    error ← runtime_string_value max answer.error
    state ← runtime_string_value max (some answer.state)
    backend ← runtime_string_value max (some answer.backend)
    driver_mode ← runtime_string_value max answer.driver_mode
    last_backend_code ← runtime_string_value max answer.last_backend_code
    profile ← runtime_string_value max answer.profile
    auth ← runtime_string_value max answer.auth
    bssid ← runtime_string_value max answer.bssid
    disconnect_reason ← runtime_string_value max answer.disconnect_reason
    alloc (
        entry_of active_name (bool_value answer.active)
        ∷ entry_of mode_name mode
        ∷ entry_of ip_address_name ip_address
        ∷ entry_of ssid_name ssid
        ∷ entry_of clients_name (i32_value answer.clients)
        ∷ entry_of error_name error
        ∷ entry_of state_name state
        ∷ entry_of backend_name backend
        ∷ entry_of driver_started_name (bool_value answer.driver_started)
        ∷ entry_of configured_name (bool_value answer.configured)
        ∷ entry_of driver_mode_name driver_mode
        ∷ entry_of channel_name (i32_value answer.channel)
        ∷ entry_of ap_start_events_name (i32_value answer.ap_start_events)
        ∷ entry_of ap_stop_events_name (i32_value answer.ap_stop_events)
        ∷ entry_of probe_events_name (i32_value answer.probe_events)
        ∷ entry_of sta_connected_events_name (i32_value answer.sta_connected_events)
        ∷ entry_of sta_disconnected_events_name (i32_value answer.sta_disconnected_events)
        ∷ entry_of last_backend_code_name last_backend_code
        ∷ entry_of profile_name profile
        ∷ entry_of connected_name (bool_value answer.connected)
        ∷ entry_of scan_matches_name (i32_value answer.scan_matches)
        ∷ entry_of rssi_name (i32_value answer.rssi)
        ∷ entry_of auth_name auth
        ∷ entry_of bssid_name bssid
        ∷ entry_of disconnect_reason_name disconnect_reason
        ∷ entry_of disconnect_reason_code_name (i32_value answer.disconnect_reason_code)
        ∷ [])

  unfoldable pub wifi_ap_ip_record : WifiApIp → M H Value
  unfolding runtime_string_value alloc
  wifi_ap_ip_record answer = do
    ip ← runtime_string_value max answer.ip
    gw ← runtime_string_value max answer.gw
    netmask ← runtime_string_value max answer.netmask
    error ← runtime_string_value max answer.error
    alloc (
        entry_of ip_name ip
        ∷ entry_of gw_name gw
        ∷ entry_of netmask_name netmask
        ∷ entry_of error_name error
        ∷ [])

  unfoldable pub file_read_lines_result_record : FileReadLinesResult → M H Value
  unfolding runtime_string_value alloc list_of
  file_read_lines_result_record answer = do
    error ← runtime_string_value max answer.error
    lines ← list_of (λ line. runtime_string_value max (some line)) answer.lines
    alloc (
        entry_of ok_name (bool_value answer.is_ok)
        ∷ entry_of error_name error
        ∷ entry_of lines_name lines
        ∷ [])

  unfoldable pub binbook_chapter_list_record : BinBookChapterListResult → M H Value
  unfolding runtime_string_value alloc list_of binbook_chapter_entry_record
  binbook_chapter_list_record answer = do
    error ← runtime_string_value max answer.error
    list ← list_of binbook_chapter_entry_record answer.items
    alloc (
        entry_of ok_name (bool_value answer.is_ok)
        ∷ entry_of error_name error
        ∷ entry_of items_name list
        ∷ entry_of count_name (i32_value answer.count)
        ∷ entry_of has_more_name (bool_value answer.has_more)
        ∷ [])

  unfoldable pub content_binbook_list_record : ContentBinBookListResult → M H Value
  unfolding runtime_string_value alloc list_of content_binbook_entry_record
  content_binbook_list_record answer = do
    error ← runtime_string_value max answer.error
    warning ← runtime_string_value max answer.warning
    list ← list_of content_binbook_entry_record answer.items
    alloc (
        entry_of ok_name (bool_value answer.is_ok)
        ∷ entry_of error_name error
        ∷ entry_of warning_name warning
        ∷ entry_of items_name list
        ∷ entry_of count_name (i32_value answer.count)
        ∷ entry_of has_more_name (bool_value answer.has_more)
        ∷ [])

  unfoldable pub binbook_chapter_result_record : BinBookChapterResult → M H Value
  unfolding runtime_string_value alloc
  binbook_chapter_result_record answer = do
    error ← runtime_string_value max answer.error
    title ← runtime_string_value max (chapter_title answer.chapter)
    let entry = chapter_or_zero answer.chapter
    alloc (
        entry_of ok_name (bool_value answer.is_ok)
        ∷ entry_of error_name error
        ∷ entry_of index_name (i32_value entry.index)
        ∷ entry_of title_name title
        ∷ entry_of page_index_name (i32_value entry.page_index)
        ∷ entry_of level_name (i32_value entry.level)
        ∷ entry_of type_name (i32_value entry.entry_type)
        ∷ [])

  unfoldable pub wifi_scan_network_record : WifiScanNetwork → M H Value
  unfolding runtime_string_value alloc access_point_ssid
  wifi_scan_network_record answer = do
    error ← runtime_string_value max answer.error
    let entry = network_or_empty answer.network
    name ← reads (λ _. access_point_ssid entry)
    ssid ← runtime_string_value max (some name)
    auth ← runtime_string_value max entry.auth
    alloc (
        entry_of ok_name (bool_value answer.is_ok)
        ∷ entry_of error_name error
        ∷ entry_of ssid_name ssid
        ∷ entry_of ssid_length_name (i32_value entry.ssid_length)
        ∷ entry_of channel_name (i32_value entry.channel)
        ∷ entry_of rssi_name (i32_value entry.rssi)
        ∷ entry_of auth_name auth
        ∷ entry_of hidden_name (bool_value entry.hidden)
        ∷ [])
