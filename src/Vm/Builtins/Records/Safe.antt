-- ===== src/Vm/Builtins/Records/Safe.antt =====
-- compiler/rust/crates/squidvm-core/src/vm.rs: what the builders of records keep of the machine.
use squid_script.Base.{ℕ, Option, none, some, [], ◌∷◌, ◌≡◌, true, leb, length, take, front, refl}
use squid_script.Vm.Values.{bool_value, i32_value}
use squid_script.Vm.Services.{
  DeviceConfigResult, FilePickFileResult, FileReadTextResult, FileReadLinesResult, FileCopyResult,
  BinBookOpenResult, BinBookInfoResult, BinBookReadPageResult, BinBookChapterEntry,
  BinBookChapterListResult, BinBookChapterResult, ContentBinBookEntry, ContentBinBookListResult,
  AppRegistryEntry, AppInstallResult, AppArmedStackEntry, DisplayInfo, WifiOperation,
  WifiOperationResult, WifiStatus, WifiApIp, WifiAccessPoint, WifiScanNetwork,
}
use squid_script.Vm.Exec.{reads}
use squid_script.Vm.Exec.Triples.{Stays, Stays-bind, reads-Stays}
use squid_script.Vm.Builtins.Operands.{as_text, runtime_string_value}
use squid_script.Vm.Builtins.Operands.Safe.{
  runtime_string_value-Stays, alloc-Stays, list_of-Stays, as_text-Settles,
}
use squid_script.Vm.Exec.Safe.{NameFits}
use squid_script.Vm.Builtins.Names.{
  active_name, kind_name, state_name, done_name, cancelled_name, ok_name, error_name, ready_name,
  count_name, warning_name, path_name, text_name, ref_name, bytes_written_name, book_name,
  title_name, page_count_name, chapter_count_name, drawable_name, index_name, page_index_name,
  level_name, type_name, name_name, size_name, available_name, status_name, binding_name,
  driver_name, transport_name, width_name, height_name, physical_width_name, physical_height_name,
  rotation_name, color_model_name, logical_gray_levels_name, native_bpp_name,
  native_pixel_format_name, default_font_height_name, supports_partial_refresh_name,
  supports_fast_refresh_name, id_name, build_name, description_name, app_id_name, event_name,
  mode_name, ip_address_name, ssid_name, clients_name, backend_name, driver_started_name,
  configured_name, driver_mode_name, channel_name, ap_start_events_name, ap_stop_events_name,
  probe_events_name, sta_connected_events_name, sta_disconnected_events_name,
  last_backend_code_name, profile_name, connected_name, scan_matches_name, rssi_name, auth_name,
  bssid_name, disconnect_reason_name, disconnect_reason_code_name, ip_name, gw_name, netmask_name,
  lines_name, items_name, has_more_name, ssid_length_name, hidden_name,
}
use squid_script.Vm.Builtins.Records.{
  wifi_operation_record, wifi_operation_result_record, device_config_result_record,
  file_pick_file_result_record, file_read_text_result_record, file_copy_result_record,
  binbook_open_record, binbook_info_record, binbook_read_page_record, binbook_chapter_entry_record,
  content_binbook_entry_record, display_info_record, app_registry_record, app_install_record,
  app_armed_stack_record, wifi_status_record, wifi_ap_ip_record, file_read_lines_result_record,
  binbook_chapter_list_record, content_binbook_list_record, binbook_chapter_result_record,
  wifi_scan_network_record, handle_or_null, chapter_title, chapter_or_zero, network_or_empty,
  access_point_ssid, entry_of,
}

network_or_empty-NameFits :
    (network : Option WifiAccessPoint)
    → NameFits network
    → let own = network_or_empty network in leb own.ssid_len (length own.ssid) ≡ true
network_or_empty-NameFits none fits = refl
network_or_empty-NameFits (some own) fits = fits

module _ {H : Type 0} (max : ℕ) where
  access-Stays :
      (network : WifiAccessPoint)
      → leb network.ssid_len (length network.ssid) ≡ true
      → Stays {H = H} (reads (λ _. access_point_ssid network))
  unfolding access_point_ssid
  access-Stays network fits =
      reads-Stays
        (λ _. squid_script.Base.◌>>=◌ (front network.ssid_len network.ssid) λ bytes. as_text bytes)
        (λ _ _. rw fits (as_text-Settles (take network.ssid_len network.ssid)))

  pub wifi_operation_record-Stays :
      (answer : WifiOperation) → Stays {H = H} (wifi_operation_record max answer)
  unfolding wifi_operation_record
  wifi_operation_record-Stays answer =
      Stays-bind _ _ (runtime_string_value-Stays max answer.kind) λ kind.
        Stays-bind _ _ (runtime_string_value-Stays max (some answer.state)) λ state.
          Stays-bind _ _ (runtime_string_value-Stays max answer.error) λ error. alloc-Stays (
            entry_of active_name (bool_value answer.active)
            ∷ entry_of kind_name kind
            ∷ entry_of state_name state
            ∷ entry_of done_name (bool_value answer.done)
            ∷ entry_of cancelled_name (bool_value answer.cancelled)
            ∷ entry_of ok_name (bool_value answer.is_ok)
            ∷ entry_of error_name error
            ∷ [])

  pub wifi_operation_result_record-Stays :
      (answer : WifiOperationResult) → Stays {H = H} (wifi_operation_result_record max answer)
  unfolding wifi_operation_result_record
  wifi_operation_result_record-Stays answer =
      Stays-bind _ _ (runtime_string_value-Stays max answer.kind) λ kind.
        Stays-bind _ _ (runtime_string_value-Stays max (some answer.state)) λ state.
          Stays-bind _ _ (runtime_string_value-Stays max answer.error) λ error. alloc-Stays (
            entry_of ready_name (bool_value answer.ready)
            ∷ entry_of kind_name kind
            ∷ entry_of state_name state
            ∷ entry_of ok_name (bool_value answer.is_ok)
            ∷ entry_of error_name error
            ∷ entry_of cancelled_name (bool_value answer.cancelled)
            ∷ entry_of count_name (i32_value answer.count)
            ∷ [])

  pub device_config_result_record-Stays :
      (answer : DeviceConfigResult) → Stays {H = H} (device_config_result_record max answer)
  unfolding device_config_result_record
  device_config_result_record-Stays answer =
      Stays-bind _ _ (runtime_string_value-Stays max answer.error) λ error.
        Stays-bind _ _ (runtime_string_value-Stays max answer.warning) λ warning. alloc-Stays (
          entry_of ok_name (bool_value answer.is_ok)
          ∷ entry_of error_name error
          ∷ entry_of warning_name warning
          ∷ [])

  pub file_pick_file_result_record-Stays :
      (answer : FilePickFileResult) → Stays {H = H} (file_pick_file_result_record max answer)
  unfolding file_pick_file_result_record
  file_pick_file_result_record-Stays answer =
      Stays-bind _ _ (runtime_string_value-Stays max answer.error) λ error.
        Stays-bind _ _ (runtime_string_value-Stays max answer.path) λ path. alloc-Stays (
          entry_of ok_name (bool_value answer.is_ok)
          ∷ entry_of error_name error
          ∷ entry_of path_name path
          ∷ [])

  pub file_read_text_result_record-Stays :
      (answer : FileReadTextResult) → Stays {H = H} (file_read_text_result_record max answer)
  unfolding file_read_text_result_record
  file_read_text_result_record-Stays answer =
      Stays-bind _ _ (runtime_string_value-Stays max answer.error) λ error.
        Stays-bind _ _ (runtime_string_value-Stays max answer.text) λ text. alloc-Stays (
          entry_of ok_name (bool_value answer.is_ok)
          ∷ entry_of error_name error
          ∷ entry_of text_name text
          ∷ [])

  pub file_copy_result_record-Stays :
      (answer : FileCopyResult) → Stays {H = H} (file_copy_result_record max answer)
  unfolding file_copy_result_record
  file_copy_result_record-Stays answer =
      Stays-bind _ _ (runtime_string_value-Stays max answer.error) λ error.
        Stays-bind _ _ (runtime_string_value-Stays max answer.reference) λ reference. alloc-Stays (
          entry_of ok_name (bool_value answer.is_ok)
          ∷ entry_of error_name error
          ∷ entry_of ref_name reference
          ∷ entry_of bytes_written_name (i32_value answer.bytes_written)
          ∷ [])

  pub binbook_open_record-Stays :
      (answer : BinBookOpenResult) → Stays {H = H} (binbook_open_record max answer)
  unfolding binbook_open_record
  binbook_open_record-Stays answer =
      let book = handle_or_null answer.book in
      Stays-bind _ _ (runtime_string_value-Stays max answer.error) λ error. alloc-Stays (
        entry_of ok_name (bool_value answer.is_ok)
        ∷ entry_of error_name error
        ∷ entry_of book_name book
        ∷ [])

  pub binbook_info_record-Stays :
      (answer : BinBookInfoResult) → Stays {H = H} (binbook_info_record max answer)
  unfolding binbook_info_record
  binbook_info_record-Stays answer =
      Stays-bind _ _ (runtime_string_value-Stays max answer.error) λ error.
        Stays-bind _ _ (runtime_string_value-Stays max answer.title) λ title. alloc-Stays (
          entry_of ok_name (bool_value answer.is_ok)
          ∷ entry_of error_name error
          ∷ entry_of title_name title
          ∷ entry_of page_count_name (i32_value answer.page_count)
          ∷ entry_of chapter_count_name (i32_value answer.chapter_count)
          ∷ [])

  pub binbook_read_page_record-Stays :
      (answer : BinBookReadPageResult) → Stays {H = H} (binbook_read_page_record max answer)
  unfolding binbook_read_page_record
  binbook_read_page_record-Stays answer =
      let drawable = handle_or_null answer.drawing in
      Stays-bind _ _ (runtime_string_value-Stays max answer.error) λ error. alloc-Stays (
        entry_of ok_name (bool_value answer.is_ok)
        ∷ entry_of error_name error
        ∷ entry_of drawable_name drawable
        ∷ [])

  pub binbook_chapter_entry_record-Stays :
      (answer : BinBookChapterEntry) → Stays {H = H} (binbook_chapter_entry_record max answer)
  unfolding binbook_chapter_entry_record
  binbook_chapter_entry_record-Stays answer =
      Stays-bind _ _ (runtime_string_value-Stays max (some answer.title)) λ title. alloc-Stays (
        entry_of index_name (i32_value answer.index)
        ∷ entry_of title_name title
        ∷ entry_of page_index_name (i32_value answer.page_index)
        ∷ entry_of level_name (i32_value answer.level)
        ∷ entry_of type_name (i32_value answer.entry_type)
        ∷ [])

  pub content_binbook_entry_record-Stays :
      (answer : ContentBinBookEntry) → Stays {H = H} (content_binbook_entry_record max answer)
  unfolding content_binbook_entry_record
  content_binbook_entry_record-Stays answer =
      Stays-bind _ _ (runtime_string_value-Stays max (some answer.name)) λ name.
        Stays-bind _ _ (runtime_string_value-Stays max (some answer.reference)) λ reference.
          alloc-Stays (
            entry_of name_name name
            ∷ entry_of ref_name reference
            ∷ entry_of size_name (i32_value answer.size)
            ∷ [])

  pub display_info_record-Stays :
      (answer : DisplayInfo) → Stays {H = H} (display_info_record max answer)
  unfolding display_info_record
  display_info_record-Stays answer =
      Stays-bind _ _ (runtime_string_value-Stays max answer.error) λ error.
        Stays-bind _ _ (runtime_string_value-Stays max answer.warning) λ warning.
          Stays-bind _ _ (runtime_string_value-Stays max (some answer.status)) λ status.
            Stays-bind _ _ (runtime_string_value-Stays max (some answer.binding)) λ binding.
              Stays-bind _ _ (runtime_string_value-Stays max (some answer.driver)) λ driver.
                Stays-bind _ _ (runtime_string_value-Stays max (some answer.transport)) λ transport.
                  Stays-bind _ _ (runtime_string_value-Stays max (some answer.color_model))
                    λ color_model.
                      Stays-bind _ _
                        (runtime_string_value-Stays max (some answer.native_pixel_format))
                        λ native_pixel_format. alloc-Stays (
                          entry_of ok_name (bool_value answer.is_ok)
                          ∷ entry_of error_name error
                          ∷ entry_of warning_name warning
                          ∷ entry_of available_name (bool_value answer.available)
                          ∷ entry_of status_name status
                          ∷ entry_of binding_name binding
                          ∷ entry_of driver_name driver
                          ∷ entry_of transport_name transport
                          ∷ entry_of width_name (i32_value answer.width)
                          ∷ entry_of height_name (i32_value answer.height)
                          ∷ entry_of physical_width_name (i32_value answer.physical_width)
                          ∷ entry_of physical_height_name (i32_value answer.physical_height)
                          ∷ entry_of rotation_name (i32_value answer.rotation)
                          ∷ entry_of color_model_name color_model
                          ∷ entry_of logical_gray_levels_name (i32_value answer.logical_gray_levels)
                          ∷ entry_of native_bpp_name (i32_value answer.native_bpp)
                          ∷ entry_of native_pixel_format_name native_pixel_format
                          ∷ entry_of default_font_height_name (i32_value answer.default_font_height)
                          ∷ entry_of supports_partial_refresh_name
                              (bool_value answer.supports_partial_refresh)
                          ∷ entry_of supports_fast_refresh_name
                              (bool_value answer.supports_fast_refresh)
                          ∷ [])

  pub app_registry_record-Stays :
      (answer : AppRegistryEntry) → Stays {H = H} (app_registry_record max answer)
  unfolding app_registry_record
  app_registry_record-Stays answer =
      Stays-bind _ _ (runtime_string_value-Stays max (some answer.id)) λ id.
        Stays-bind _ _ (runtime_string_value-Stays max (some answer.name)) λ name.
          Stays-bind _ _ (runtime_string_value-Stays max (some answer.build)) λ build.
            Stays-bind _ _ (runtime_string_value-Stays max (some answer.description)) λ description.
              alloc-Stays (
                entry_of id_name id
                ∷ entry_of name_name name
                ∷ entry_of build_name build
                ∷ entry_of description_name description
                ∷ [])

  pub app_install_record-Stays :
      (answer : AppInstallResult) → Stays {H = H} (app_install_record max answer)
  unfolding app_install_record
  app_install_record-Stays answer =
      Stays-bind _ _ (runtime_string_value-Stays max (some answer.id))
        λ id. alloc-Stays (entry_of id_name id ∷ [])

  pub app_armed_stack_record-Stays :
      (answer : AppArmedStackEntry) → Stays {H = H} (app_armed_stack_record max answer)
  unfolding app_armed_stack_record
  app_armed_stack_record-Stays answer =
      Stays-bind _ _ (runtime_string_value-Stays max (some answer.app_id)) λ app_id.
        Stays-bind _ _ (runtime_string_value-Stays max (some answer.event))
          λ event. alloc-Stays (entry_of app_id_name app_id ∷ entry_of event_name event ∷ [])

  pub wifi_status_record-Stays :
      (answer : WifiStatus) → Stays {H = H} (wifi_status_record max answer)
  unfolding wifi_status_record
  wifi_status_record-Stays answer =
      Stays-bind _ _ (runtime_string_value-Stays max answer.mode) λ mode.
        Stays-bind _ _ (runtime_string_value-Stays max answer.ip_address) λ ip_address.
          Stays-bind _ _ (runtime_string_value-Stays max answer.ssid) λ ssid.
            Stays-bind _ _ (runtime_string_value-Stays max answer.error) λ error.
              Stays-bind _ _ (runtime_string_value-Stays max (some answer.state)) λ state.
                Stays-bind _ _ (runtime_string_value-Stays max (some answer.backend)) λ backend.
                  Stays-bind _ _ (runtime_string_value-Stays max answer.driver_mode) λ driver_mode.
                    Stays-bind _ _ (runtime_string_value-Stays max answer.last_backend_code)
                      λ last_backend_code.
                        Stays-bind _ _ (runtime_string_value-Stays max answer.profile) λ profile.
                          Stays-bind _ _ (runtime_string_value-Stays max answer.auth) λ auth.
                            Stays-bind _ _ (runtime_string_value-Stays max answer.bssid) λ bssid.
                              Stays-bind _ _
                                (runtime_string_value-Stays max answer.disconnect_reason)
                                λ disconnect_reason. alloc-Stays (
                                  entry_of active_name (bool_value answer.active)
                                  ∷ entry_of mode_name mode
                                  ∷ entry_of ip_address_name ip_address
                                  ∷ entry_of ssid_name ssid
                                  ∷ entry_of clients_name (i32_value answer.clients)
                                  ∷ entry_of error_name error
                                  ∷ entry_of state_name state
                                  ∷ entry_of backend_name backend
                                  ∷ entry_of driver_started_name (bool_value answer.driver_started)
                                  ∷ entry_of configured_name (bool_value answer.configured)
                                  ∷ entry_of driver_mode_name driver_mode
                                  ∷ entry_of channel_name (i32_value answer.channel)
                                  ∷ entry_of ap_start_events_name (i32_value answer.ap_start_events)
                                  ∷ entry_of ap_stop_events_name (i32_value answer.ap_stop_events)
                                  ∷ entry_of probe_events_name (i32_value answer.probe_events)
                                  ∷ entry_of sta_connected_events_name
                                      (i32_value answer.sta_connected_events)
                                  ∷ entry_of sta_disconnected_events_name
                                      (i32_value answer.sta_disconnected_events)
                                  ∷ entry_of last_backend_code_name last_backend_code
                                  ∷ entry_of profile_name profile
                                  ∷ entry_of connected_name (bool_value answer.connected)
                                  ∷ entry_of scan_matches_name (i32_value answer.scan_matches)
                                  ∷ entry_of rssi_name (i32_value answer.rssi)
                                  ∷ entry_of auth_name auth
                                  ∷ entry_of bssid_name bssid
                                  ∷ entry_of disconnect_reason_name disconnect_reason
                                  ∷ entry_of disconnect_reason_code_name
                                      (i32_value answer.disconnect_reason_code)
                                  ∷ [])

  pub wifi_ap_ip_record-Stays : (answer : WifiApIp) → Stays {H = H} (wifi_ap_ip_record max answer)
  unfolding wifi_ap_ip_record
  wifi_ap_ip_record-Stays answer = Stays-bind _ _ (runtime_string_value-Stays max answer.ip) λ ip.
      Stays-bind _ _ (runtime_string_value-Stays max answer.gw) λ gw.
        Stays-bind _ _ (runtime_string_value-Stays max answer.netmask) λ netmask.
          Stays-bind _ _ (runtime_string_value-Stays max answer.error) λ error. alloc-Stays (
            entry_of ip_name ip
            ∷ entry_of gw_name gw
            ∷ entry_of netmask_name netmask
            ∷ entry_of error_name error
            ∷ [])

  pub file_read_lines_result_record-Stays :
      (answer : FileReadLinesResult) → Stays {H = H} (file_read_lines_result_record max answer)
  unfolding file_read_lines_result_record
  file_read_lines_result_record-Stays answer =
      Stays-bind _ _ (runtime_string_value-Stays max answer.error) λ error.
        Stays-bind _ _
          (list_of-Stays (λ line. runtime_string_value max (some line)) answer.lines
            (λ line. runtime_string_value-Stays max (some line)))
          λ lines. alloc-Stays (
            entry_of ok_name (bool_value answer.is_ok)
            ∷ entry_of error_name error
            ∷ entry_of lines_name lines
            ∷ [])

  pub binbook_chapter_list_record-Stays :
      (answer : BinBookChapterListResult) → Stays {H = H} (binbook_chapter_list_record max answer)
  unfolding binbook_chapter_list_record
  binbook_chapter_list_record-Stays answer =
      Stays-bind _ _ (runtime_string_value-Stays max answer.error) λ error.
        Stays-bind _ _
          (list_of-Stays (binbook_chapter_entry_record max) answer.items
            binbook_chapter_entry_record-Stays)
          λ list. alloc-Stays (
            entry_of ok_name (bool_value answer.is_ok)
            ∷ entry_of error_name error
            ∷ entry_of items_name list
            ∷ entry_of count_name (i32_value answer.count)
            ∷ entry_of has_more_name (bool_value answer.has_more)
            ∷ [])

  pub content_binbook_list_record-Stays :
      (answer : ContentBinBookListResult) → Stays {H = H} (content_binbook_list_record max answer)
  unfolding content_binbook_list_record
  content_binbook_list_record-Stays answer =
      Stays-bind _ _ (runtime_string_value-Stays max answer.error) λ error.
        Stays-bind _ _ (runtime_string_value-Stays max answer.warning) λ warning.
          Stays-bind _ _
            (list_of-Stays (content_binbook_entry_record max) answer.items
              content_binbook_entry_record-Stays)
            λ list. alloc-Stays (
              entry_of ok_name (bool_value answer.is_ok)
              ∷ entry_of error_name error
              ∷ entry_of warning_name warning
              ∷ entry_of items_name list
              ∷ entry_of count_name (i32_value answer.count)
              ∷ entry_of has_more_name (bool_value answer.has_more)
              ∷ [])

  pub binbook_chapter_result_record-Stays :
      (answer : BinBookChapterResult) → Stays {H = H} (binbook_chapter_result_record max answer)
  unfolding binbook_chapter_result_record
  binbook_chapter_result_record-Stays answer =
      let entry = chapter_or_zero answer.chapter in
      Stays-bind _ _ (runtime_string_value-Stays max answer.error) λ error.
        Stays-bind _ _ (runtime_string_value-Stays max (chapter_title answer.chapter)) λ title.
          alloc-Stays (
            entry_of ok_name (bool_value answer.is_ok)
            ∷ entry_of error_name error
            ∷ entry_of index_name (i32_value entry.index)
            ∷ entry_of title_name title
            ∷ entry_of page_index_name (i32_value entry.page_index)
            ∷ entry_of level_name (i32_value entry.level)
            ∷ entry_of type_name (i32_value entry.entry_type)
            ∷ [])

  pub wifi_scan_network_record-Stays :
      (answer : WifiScanNetwork)
      → NameFits answer.network
      → Stays {H = H} (wifi_scan_network_record max answer)
  unfolding wifi_scan_network_record
  wifi_scan_network_record-Stays answer fits =
      let entry = network_or_empty answer.network in
      Stays-bind _ _ (runtime_string_value-Stays max answer.error) λ error.
        Stays-bind _ _ (access-Stays entry (network_or_empty-NameFits answer.network fits)) λ name.
          Stays-bind _ _ (runtime_string_value-Stays max (some name)) λ ssid.
            Stays-bind _ _ (runtime_string_value-Stays max entry.auth) λ auth. alloc-Stays (
              entry_of ok_name (bool_value answer.is_ok)
              ∷ entry_of error_name error
              ∷ entry_of ssid_name ssid
              ∷ entry_of ssid_length_name (i32_value entry.ssid_length)
              ∷ entry_of channel_name (i32_value entry.channel)
              ∷ entry_of rssi_name (i32_value entry.rssi)
              ∷ entry_of auth_name auth
              ∷ entry_of hidden_name (bool_value entry.hidden)
              ∷ [])
