-- ===== src/Vm/Services.antt =====
-- compiler/rust/crates/squidvm-core/src/host.rs: what the builtins ask of a host, and its answers. A
-- method of `TraceSink` is a constructor, of `Service` where it can fail and of `Drawing` where it
-- cannot. The fields `ok` and `drawable` are `is_ok` and `drawing` here.
use squid_script.Base.{ℕ, Bool, Option, List}
use squid_script.Vm.Values.{Value, Handle}
use squid_script.Vm.Strings.{Interner}
use squid_script.Vm.ProgramIndex.{ProgramIndex}

pub record DeviceConfigResult : Type 0 where
  pub is_ok : Bool
  pub error : Option (List ℕ)
  pub warning : Option (List ℕ)

pub record FilePickFileResult : Type 0 where
  pub is_ok : Bool
  pub error : Option (List ℕ)
  pub path : Option (List ℕ)

pub record FileReadTextResult : Type 0 where
  pub is_ok : Bool
  pub error : Option (List ℕ)
  pub text : Option (List ℕ)

pub record FileReadLinesResult : Type 0 where
  pub is_ok : Bool
  pub error : Option (List ℕ)
  pub lines : List (List ℕ)

pub record FileCopyResult : Type 0 where
  pub is_ok : Bool
  pub error : Option (List ℕ)
  pub reference : Option (List ℕ)
  pub bytes_written : ℕ

pub record BinBookOpenResult : Type 0 where
  pub is_ok : Bool
  pub error : Option (List ℕ)
  pub book : Option Handle

pub record BinBookInfoResult : Type 0 where
  pub is_ok : Bool
  pub error : Option (List ℕ)
  pub title : Option (List ℕ)
  pub page_count : ℕ
  pub chapter_count : ℕ

pub record BinBookReadPageResult : Type 0 where
  pub is_ok : Bool
  pub error : Option (List ℕ)
  pub drawing : Option Handle

pub record BinBookChapterEntry : Type 0 where
  pub index : ℕ
  pub title : List ℕ
  pub page_index : ℕ
  pub level : ℕ
  pub entry_type : ℕ

pub record BinBookChapterListResult : Type 0 where
  pub is_ok : Bool
  pub error : Option (List ℕ)
  pub items : List BinBookChapterEntry
  pub count : ℕ
  pub has_more : Bool

pub record BinBookChapterResult : Type 0 where
  pub is_ok : Bool
  pub error : Option (List ℕ)
  pub chapter : Option BinBookChapterEntry

pub record ContentBinBookEntry : Type 0 where
  pub name : List ℕ
  pub reference : List ℕ
  pub size : ℕ

pub record ContentBinBookListResult : Type 0 where
  pub is_ok : Bool
  pub error : Option (List ℕ)
  pub warning : Option (List ℕ)
  pub items : List ContentBinBookEntry
  pub count : ℕ
  pub has_more : Bool

pub record AppRegistryEntry : Type 0 where
  pub id : List ℕ
  pub name : List ℕ
  pub build : List ℕ
  pub description : List ℕ

pub record AppInstallResult : Type 0 where
  pub id : List ℕ

pub record AppArmedStackEntry : Type 0 where
  pub app_id : List ℕ
  pub event : List ℕ

pub record DisplayTextOptions : Type 0 where
  pub x : ℕ
  pub y : ℕ
  pub w : ℕ
  pub h : ℕ
  pub font_height : ℕ
  pub text_color : Option ℕ
  pub background_color : Option ℕ
  pub align : Option (List ℕ)
  pub valign : Option (List ℕ)

pub record DisplayRectOptions : Type 0 where
  pub x : ℕ
  pub y : ℕ
  pub w : ℕ
  pub h : ℕ
  pub fill_color : Option ℕ
  pub stroke_color : Option ℕ

pub record DisplayLineOptions : Type 0 where
  pub x1 : ℕ
  pub y1 : ℕ
  pub x2 : ℕ
  pub y2 : ℕ
  pub color : Option ℕ

pub record DisplayResourceOptions : Type 0 where
  pub x : ℕ
  pub y : ℕ
  pub w : ℕ
  pub h : ℕ

pub record DisplayInfo : Type 0 where
  pub is_ok : Bool
  pub error : Option (List ℕ)
  pub warning : Option (List ℕ)
  pub available : Bool
  pub status : List ℕ
  pub binding : List ℕ
  pub driver : List ℕ
  pub transport : List ℕ
  pub width : ℕ
  pub height : ℕ
  pub physical_width : ℕ
  pub physical_height : ℕ
  pub rotation : ℕ
  pub color_model : List ℕ
  pub logical_gray_levels : ℕ
  pub native_bpp : ℕ
  pub native_pixel_format : List ℕ
  pub default_font_height : ℕ
  pub supports_partial_refresh : Bool
  pub supports_fast_refresh : Bool

pub record WifiOperation : Type 0 where
  pub active : Bool
  pub kind : Option (List ℕ)
  pub state : List ℕ
  pub done : Bool
  pub cancelled : Bool
  pub is_ok : Bool
  pub error : Option (List ℕ)

pub record WifiOperationResult : Type 0 where
  pub ready : Bool
  pub kind : Option (List ℕ)
  pub state : List ℕ
  pub is_ok : Bool
  pub error : Option (List ℕ)
  pub cancelled : Bool
  pub count : ℕ

pub record WifiStatus : Type 0 where
  pub active : Bool
  pub mode : Option (List ℕ)
  pub ip_address : Option (List ℕ)
  pub ssid : Option (List ℕ)
  pub clients : ℕ
  pub error : Option (List ℕ)
  pub state : List ℕ
  pub backend : List ℕ
  pub driver_started : Bool
  pub configured : Bool
  pub driver_mode : Option (List ℕ)
  pub channel : ℕ
  pub ap_start_events : ℕ
  pub ap_stop_events : ℕ
  pub probe_events : ℕ
  pub sta_connected_events : ℕ
  pub sta_disconnected_events : ℕ
  pub last_backend_code : Option (List ℕ)
  pub profile : Option (List ℕ)
  pub connected : Bool
  pub scan_matches : ℕ
  pub rssi : ℕ
  pub auth : Option (List ℕ)
  pub bssid : Option (List ℕ)
  pub disconnect_reason : Option (List ℕ)
  pub disconnect_reason_code : ℕ

pub record WifiApIp : Type 0 where
  pub ip : Option (List ℕ)
  pub gw : Option (List ℕ)
  pub netmask : Option (List ℕ)
  pub error : Option (List ℕ)

-- `ssid[..ssid_len]`; the VM does not read the `bssid`.
pub record WifiAccessPoint : Type 0 where
  pub ssid : List ℕ
  pub ssid_len : ℕ
  pub ssid_length : ℕ
  pub channel : ℕ
  pub rssi : ℕ
  pub auth : Option (List ℕ)
  pub hidden : Bool

pub record WifiScanNetwork : Type 0 where
  pub is_ok : Bool
  pub error : Option (List ℕ)
  pub network : Option WifiAccessPoint

-- `StringResolver`: the strings of the program and of the run.
pub record Resolver : Type 0 where
  pub index : ProgramIndex
  pub interner : Interner

pub data Drawing : Type 0 where
  debug_print : Resolver → List Value → Drawing
  draw_clear : ℕ → Drawing
  draw_text : Resolver → Value → DisplayTextOptions → Drawing
  draw_rect : DisplayRectOptions → Drawing
  draw_line : DisplayLineOptions → Drawing
  draw_refresh_mode : List ℕ → Drawing
  draw_image : List ℕ → DisplayResourceOptions → Drawing
  draw_resource : Resolver → Value → DisplayResourceOptions → Drawing

pub data Service : Type 0 where
  draw_select : List ℕ → Service
  display_info : Service
  hardware_gpio_write : List ℕ → Bool → Service
  hardware_gpio_toggle : List ℕ → Service
  hardware_gpio_read : List ℕ → Service
  service_indicator_write : Bool → Service
  service_indicator_toggle : Service
  service_indicator_breathe : Service
  service_indicator_blink : ℕ → ℕ → Service
  service_indicator_read : Service
  app_launch : List ℕ → Service
  app_arm : List ℕ → Service
  app_disarm : List ℕ → Service
  app_install : List ℕ → Option (List ℕ) → Service
  app_registry_list : Service
  app_registry_get : List ℕ → Service
  app_process_stack : Service
  app_armed_stack : Service
  service_timer_every : List ℕ → ℕ → Service
  service_timer_after : List ℕ → ℕ → Service
  service_ble_start : List ℕ → Service
  service_ble_stop : Service
  service_http_start : List ℕ → Service
  service_http_stop : Service
  service_wifi_start_ap : List ℕ → Service
  service_wifi_stop_ap : Service
  service_wifi_connect : List ℕ → Service
  service_wifi_disconnect : Service
  service_wifi_status : Service
  service_wifi_get_ap_ip : Service
  service_wifi_scan : Service
  service_wifi_operation : Service
  service_wifi_result : Service
  service_wifi_cancel : Service
  service_wifi_scan_network : ℕ → Service
  service_wifi_teardown : Service
  service_power_sleep : ℕ → Service
  system_memory_text : Service
  system_storage_text : List ℕ → Service
  system_start_reason_text : Service
  device_config_load : List ℕ → Service
  device_config_set : List ℕ → Value → Resolver → Service
  device_config_rebind : List ℕ → Service
  device_config_save : List ℕ → Service
  file_pick_file : List ℕ → Service
  file_read_text : List ℕ → Service
  file_read_lines : List ℕ → ℕ → Service
  file_copy : List ℕ → List ℕ → List ℕ → Service
  binbook_open : List ℕ → Service
  binbook_info : Handle → Service
  binbook_read_page : Handle → ℕ → Service
  binbook_chapters : Handle → ℕ → ℕ → Service
  binbook_chapter : Handle → ℕ → Service
  content_binbook_list : List ℕ → ℕ → ℕ → Service

-- What a call returns that has no error. A registry or a stack of apps is its list; a text is the
-- pieces that the host writes.
abbrev pub Answer : Service → Type 0
Answer (draw_select a) = Unit {0}
Answer display_info = DisplayInfo
Answer (hardware_gpio_write a b) = Unit {0}
Answer (hardware_gpio_toggle a) = Unit {0}
Answer (hardware_gpio_read a) = Bool
Answer (service_indicator_write a) = Unit {0}
Answer service_indicator_toggle = Unit {0}
Answer service_indicator_breathe = Unit {0}
Answer (service_indicator_blink a b) = Unit {0}
Answer service_indicator_read = Bool
Answer (app_launch a) = Unit {0}
Answer (app_arm a) = Unit {0}
Answer (app_disarm a) = Unit {0}
Answer (app_install a b) = AppInstallResult
Answer app_registry_list = List AppRegistryEntry
Answer (app_registry_get a) = AppRegistryEntry
Answer app_process_stack = List (List ℕ)
Answer app_armed_stack = List AppArmedStackEntry
Answer (service_timer_every a b) = Unit {0}
Answer (service_timer_after a b) = Unit {0}
Answer (service_ble_start a) = Unit {0}
Answer service_ble_stop = Unit {0}
Answer (service_http_start a) = Unit {0}
Answer service_http_stop = Unit {0}
Answer (service_wifi_start_ap a) = WifiOperation
Answer service_wifi_stop_ap = WifiOperation
Answer (service_wifi_connect a) = WifiOperation
Answer service_wifi_disconnect = WifiOperation
Answer service_wifi_status = WifiStatus
Answer service_wifi_get_ap_ip = WifiApIp
Answer service_wifi_scan = WifiOperation
Answer service_wifi_operation = WifiOperation
Answer service_wifi_result = WifiOperationResult
Answer service_wifi_cancel = WifiOperation
Answer (service_wifi_scan_network a) = WifiScanNetwork
Answer service_wifi_teardown = Unit {0}
Answer (service_power_sleep a) = Unit {0}
Answer system_memory_text = List (List ℕ)
Answer (system_storage_text a) = List (List ℕ)
Answer system_start_reason_text = List (List ℕ)
Answer (device_config_load a) = DeviceConfigResult
Answer (device_config_set a b c) = DeviceConfigResult
Answer (device_config_rebind a) = DeviceConfigResult
Answer (device_config_save a) = DeviceConfigResult
Answer (file_pick_file a) = FilePickFileResult
Answer (file_read_text a) = FileReadTextResult
Answer (file_read_lines a b) = FileReadLinesResult
Answer (file_copy a b c) = FileCopyResult
Answer (binbook_open a) = BinBookOpenResult
Answer (binbook_info a) = BinBookInfoResult
Answer (binbook_read_page a b) = BinBookReadPageResult
Answer (binbook_chapters a b c) = BinBookChapterListResult
Answer (binbook_chapter a b) = BinBookChapterResult
Answer (content_binbook_list a b c) = ContentBinBookListResult
