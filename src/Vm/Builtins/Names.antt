-- ===== src/Vm/Builtins/Names.antt =====
-- compiler/rust/crates/squidvm-core/src/vm.rs: the names of fields that the builtins' records use.
use squid_script.Base.{ℕ, List, [], ◌∷◌}

-- active
abbrev pub active_name : List ℕ
active_name = 97 ∷ 99 ∷ 116 ∷ 105 ∷ 118 ∷ 101 ∷ []

-- kind
abbrev pub kind_name : List ℕ
kind_name = 107 ∷ 105 ∷ 110 ∷ 100 ∷ []

-- state
abbrev pub state_name : List ℕ
state_name = 115 ∷ 116 ∷ 97 ∷ 116 ∷ 101 ∷ []

-- done
abbrev pub done_name : List ℕ
done_name = 100 ∷ 111 ∷ 110 ∷ 101 ∷ []

-- cancelled
abbrev pub cancelled_name : List ℕ
cancelled_name = 99 ∷ 97 ∷ 110 ∷ 99 ∷ 101 ∷ 108 ∷ 108 ∷ 101 ∷ 100 ∷ []

-- ok
abbrev pub ok_name : List ℕ
ok_name = 111 ∷ 107 ∷ []

-- error
abbrev pub error_name : List ℕ
error_name = 101 ∷ 114 ∷ 114 ∷ 111 ∷ 114 ∷ []

-- ready
abbrev pub ready_name : List ℕ
ready_name = 114 ∷ 101 ∷ 97 ∷ 100 ∷ 121 ∷ []

-- count
abbrev pub count_name : List ℕ
count_name = 99 ∷ 111 ∷ 117 ∷ 110 ∷ 116 ∷ []

-- warning
abbrev pub warning_name : List ℕ
warning_name = 119 ∷ 97 ∷ 114 ∷ 110 ∷ 105 ∷ 110 ∷ 103 ∷ []

-- path
abbrev pub path_name : List ℕ
path_name = 112 ∷ 97 ∷ 116 ∷ 104 ∷ []

-- text
abbrev pub text_name : List ℕ
text_name = 116 ∷ 101 ∷ 120 ∷ 116 ∷ []

-- ref
abbrev pub ref_name : List ℕ
ref_name = 114 ∷ 101 ∷ 102 ∷ []

-- bytesWritten
abbrev pub bytes_written_name : List ℕ
bytes_written_name = 98 ∷ 121 ∷ 116 ∷ 101 ∷ 115 ∷ 87 ∷ 114 ∷ 105 ∷ 116 ∷ 116 ∷ 101 ∷ 110 ∷ []

-- book
abbrev pub book_name : List ℕ
book_name = 98 ∷ 111 ∷ 111 ∷ 107 ∷ []

-- title
abbrev pub title_name : List ℕ
title_name = 116 ∷ 105 ∷ 116 ∷ 108 ∷ 101 ∷ []

-- pageCount
abbrev pub page_count_name : List ℕ
page_count_name = 112 ∷ 97 ∷ 103 ∷ 101 ∷ 67 ∷ 111 ∷ 117 ∷ 110 ∷ 116 ∷ []

-- chapterCount
abbrev pub chapter_count_name : List ℕ
chapter_count_name = 99 ∷ 104 ∷ 97 ∷ 112 ∷ 116 ∷ 101 ∷ 114 ∷ 67 ∷ 111 ∷ 117 ∷ 110 ∷ 116 ∷ []

-- drawable
abbrev pub drawable_name : List ℕ
drawable_name = 100 ∷ 114 ∷ 97 ∷ 119 ∷ 97 ∷ 98 ∷ 108 ∷ 101 ∷ []

-- index
abbrev pub index_name : List ℕ
index_name = 105 ∷ 110 ∷ 100 ∷ 101 ∷ 120 ∷ []

-- pageIndex
abbrev pub page_index_name : List ℕ
page_index_name = 112 ∷ 97 ∷ 103 ∷ 101 ∷ 73 ∷ 110 ∷ 100 ∷ 101 ∷ 120 ∷ []

-- level
abbrev pub level_name : List ℕ
level_name = 108 ∷ 101 ∷ 118 ∷ 101 ∷ 108 ∷ []

-- type
abbrev pub type_name : List ℕ
type_name = 116 ∷ 121 ∷ 112 ∷ 101 ∷ []

-- name
abbrev pub name_name : List ℕ
name_name = 110 ∷ 97 ∷ 109 ∷ 101 ∷ []

-- size
abbrev pub size_name : List ℕ
size_name = 115 ∷ 105 ∷ 122 ∷ 101 ∷ []

-- available
abbrev pub available_name : List ℕ
available_name = 97 ∷ 118 ∷ 97 ∷ 105 ∷ 108 ∷ 97 ∷ 98 ∷ 108 ∷ 101 ∷ []

-- status
abbrev pub status_name : List ℕ
status_name = 115 ∷ 116 ∷ 97 ∷ 116 ∷ 117 ∷ 115 ∷ []

-- binding
abbrev pub binding_name : List ℕ
binding_name = 98 ∷ 105 ∷ 110 ∷ 100 ∷ 105 ∷ 110 ∷ 103 ∷ []

-- driver
abbrev pub driver_name : List ℕ
driver_name = 100 ∷ 114 ∷ 105 ∷ 118 ∷ 101 ∷ 114 ∷ []

-- transport
abbrev pub transport_name : List ℕ
transport_name = 116 ∷ 114 ∷ 97 ∷ 110 ∷ 115 ∷ 112 ∷ 111 ∷ 114 ∷ 116 ∷ []

-- width
abbrev pub width_name : List ℕ
width_name = 119 ∷ 105 ∷ 100 ∷ 116 ∷ 104 ∷ []

-- height
abbrev pub height_name : List ℕ
height_name = 104 ∷ 101 ∷ 105 ∷ 103 ∷ 104 ∷ 116 ∷ []

-- physicalWidth
abbrev pub physical_width_name : List ℕ
physical_width_name = 112 ∷ 104 ∷ 121 ∷ 115 ∷ 105 ∷ 99 ∷ 97 ∷ 108 ∷ 87 ∷ 105 ∷ 100 ∷ 116 ∷ 104 ∷ []

-- physicalHeight
abbrev pub physical_height_name : List ℕ
physical_height_name =
    112 ∷ 104 ∷ 121 ∷ 115 ∷ 105 ∷ 99 ∷ 97 ∷ 108 ∷ 72 ∷ 101 ∷ 105 ∷ 103 ∷ 104 ∷ 116 ∷ []

-- rotation
abbrev pub rotation_name : List ℕ
rotation_name = 114 ∷ 111 ∷ 116 ∷ 97 ∷ 116 ∷ 105 ∷ 111 ∷ 110 ∷ []

-- colorModel
abbrev pub color_model_name : List ℕ
color_model_name = 99 ∷ 111 ∷ 108 ∷ 111 ∷ 114 ∷ 77 ∷ 111 ∷ 100 ∷ 101 ∷ 108 ∷ []

-- logicalGrayLevels
abbrev pub logical_gray_levels_name : List ℕ
logical_gray_levels_name =
    108 ∷ 111 ∷ 103 ∷ 105 ∷ 99 ∷ 97 ∷ 108 ∷ 71 ∷ 114 ∷ 97 ∷ 121 ∷ 76 ∷ 101 ∷ 118 ∷ 101 ∷ 108 ∷ 115
    ∷ []

-- nativeBpp
abbrev pub native_bpp_name : List ℕ
native_bpp_name = 110 ∷ 97 ∷ 116 ∷ 105 ∷ 118 ∷ 101 ∷ 66 ∷ 112 ∷ 112 ∷ []

-- nativePixelFormat
abbrev pub native_pixel_format_name : List ℕ
native_pixel_format_name =
    110 ∷ 97 ∷ 116 ∷ 105 ∷ 118 ∷ 101 ∷ 80 ∷ 105 ∷ 120 ∷ 101 ∷ 108 ∷ 70 ∷ 111 ∷ 114 ∷ 109 ∷ 97 ∷ 116
    ∷ []

-- defaultFontHeight
abbrev pub default_font_height_name : List ℕ
default_font_height_name =
    100 ∷ 101 ∷ 102 ∷ 97 ∷ 117 ∷ 108 ∷ 116 ∷ 70 ∷ 111 ∷ 110 ∷ 116 ∷ 72 ∷ 101 ∷ 105 ∷ 103 ∷ 104 ∷ 116
    ∷ []

-- supportsPartialRefresh
abbrev pub supports_partial_refresh_name : List ℕ
supports_partial_refresh_name =
    115 ∷ 117 ∷ 112 ∷ 112 ∷ 111 ∷ 114 ∷ 116 ∷ 115 ∷ 80 ∷ 97 ∷ 114 ∷ 116 ∷ 105 ∷ 97 ∷ 108 ∷ 82 ∷ 101
    ∷ 102 ∷ 114 ∷ 101 ∷ 115 ∷ 104 ∷ []

-- supportsFastRefresh
abbrev pub supports_fast_refresh_name : List ℕ
supports_fast_refresh_name =
    115 ∷ 117 ∷ 112 ∷ 112 ∷ 111 ∷ 114 ∷ 116 ∷ 115 ∷ 70 ∷ 97 ∷ 115 ∷ 116 ∷ 82 ∷ 101 ∷ 102 ∷ 114 ∷ 101
    ∷ 115 ∷ 104 ∷ []

-- id
abbrev pub id_name : List ℕ
id_name = 105 ∷ 100 ∷ []

-- build
abbrev pub build_name : List ℕ
build_name = 98 ∷ 117 ∷ 105 ∷ 108 ∷ 100 ∷ []

-- description
abbrev pub description_name : List ℕ
description_name = 100 ∷ 101 ∷ 115 ∷ 99 ∷ 114 ∷ 105 ∷ 112 ∷ 116 ∷ 105 ∷ 111 ∷ 110 ∷ []

-- appId
abbrev pub app_id_name : List ℕ
app_id_name = 97 ∷ 112 ∷ 112 ∷ 73 ∷ 100 ∷ []

-- event
abbrev pub event_name : List ℕ
event_name = 101 ∷ 118 ∷ 101 ∷ 110 ∷ 116 ∷ []

-- mode
abbrev pub mode_name : List ℕ
mode_name = 109 ∷ 111 ∷ 100 ∷ 101 ∷ []

-- ipAddress
abbrev pub ip_address_name : List ℕ
ip_address_name = 105 ∷ 112 ∷ 65 ∷ 100 ∷ 100 ∷ 114 ∷ 101 ∷ 115 ∷ 115 ∷ []

-- ssid
abbrev pub ssid_name : List ℕ
ssid_name = 115 ∷ 115 ∷ 105 ∷ 100 ∷ []

-- clients
abbrev pub clients_name : List ℕ
clients_name = 99 ∷ 108 ∷ 105 ∷ 101 ∷ 110 ∷ 116 ∷ 115 ∷ []

-- backend
abbrev pub backend_name : List ℕ
backend_name = 98 ∷ 97 ∷ 99 ∷ 107 ∷ 101 ∷ 110 ∷ 100 ∷ []

-- driverStarted
abbrev pub driver_started_name : List ℕ
driver_started_name = 100 ∷ 114 ∷ 105 ∷ 118 ∷ 101 ∷ 114 ∷ 83 ∷ 116 ∷ 97 ∷ 114 ∷ 116 ∷ 101 ∷ 100 ∷ []

-- configured
abbrev pub configured_name : List ℕ
configured_name = 99 ∷ 111 ∷ 110 ∷ 102 ∷ 105 ∷ 103 ∷ 117 ∷ 114 ∷ 101 ∷ 100 ∷ []

-- driverMode
abbrev pub driver_mode_name : List ℕ
driver_mode_name = 100 ∷ 114 ∷ 105 ∷ 118 ∷ 101 ∷ 114 ∷ 77 ∷ 111 ∷ 100 ∷ 101 ∷ []

-- channel
abbrev pub channel_name : List ℕ
channel_name = 99 ∷ 104 ∷ 97 ∷ 110 ∷ 110 ∷ 101 ∷ 108 ∷ []

-- apStartEvents
abbrev pub ap_start_events_name : List ℕ
ap_start_events_name = 97 ∷ 112 ∷ 83 ∷ 116 ∷ 97 ∷ 114 ∷ 116 ∷ 69 ∷ 118 ∷ 101 ∷ 110 ∷ 116 ∷ 115 ∷ []

-- apStopEvents
abbrev pub ap_stop_events_name : List ℕ
ap_stop_events_name = 97 ∷ 112 ∷ 83 ∷ 116 ∷ 111 ∷ 112 ∷ 69 ∷ 118 ∷ 101 ∷ 110 ∷ 116 ∷ 115 ∷ []

-- probeEvents
abbrev pub probe_events_name : List ℕ
probe_events_name = 112 ∷ 114 ∷ 111 ∷ 98 ∷ 101 ∷ 69 ∷ 118 ∷ 101 ∷ 110 ∷ 116 ∷ 115 ∷ []

-- staConnectedEvents
abbrev pub sta_connected_events_name : List ℕ
sta_connected_events_name =
    115 ∷ 116 ∷ 97 ∷ 67 ∷ 111 ∷ 110 ∷ 110 ∷ 101 ∷ 99 ∷ 116 ∷ 101 ∷ 100 ∷ 69 ∷ 118 ∷ 101 ∷ 110 ∷ 116
    ∷ 115 ∷ []

-- staDisconnectedEvents
abbrev pub sta_disconnected_events_name : List ℕ
sta_disconnected_events_name =
    115 ∷ 116 ∷ 97 ∷ 68 ∷ 105 ∷ 115 ∷ 99 ∷ 111 ∷ 110 ∷ 110 ∷ 101 ∷ 99 ∷ 116 ∷ 101 ∷ 100 ∷ 69 ∷ 118
    ∷ 101 ∷ 110 ∷ 116 ∷ 115 ∷ []

-- lastBackendCode
abbrev pub last_backend_code_name : List ℕ
last_backend_code_name =
    108 ∷ 97 ∷ 115 ∷ 116 ∷ 66 ∷ 97 ∷ 99 ∷ 107 ∷ 101 ∷ 110 ∷ 100 ∷ 67 ∷ 111 ∷ 100 ∷ 101 ∷ []

-- profile
abbrev pub profile_name : List ℕ
profile_name = 112 ∷ 114 ∷ 111 ∷ 102 ∷ 105 ∷ 108 ∷ 101 ∷ []

-- connected
abbrev pub connected_name : List ℕ
connected_name = 99 ∷ 111 ∷ 110 ∷ 110 ∷ 101 ∷ 99 ∷ 116 ∷ 101 ∷ 100 ∷ []

-- scanMatches
abbrev pub scan_matches_name : List ℕ
scan_matches_name = 115 ∷ 99 ∷ 97 ∷ 110 ∷ 77 ∷ 97 ∷ 116 ∷ 99 ∷ 104 ∷ 101 ∷ 115 ∷ []

-- rssi
abbrev pub rssi_name : List ℕ
rssi_name = 114 ∷ 115 ∷ 115 ∷ 105 ∷ []

-- auth
abbrev pub auth_name : List ℕ
auth_name = 97 ∷ 117 ∷ 116 ∷ 104 ∷ []

-- bssid
abbrev pub bssid_name : List ℕ
bssid_name = 98 ∷ 115 ∷ 115 ∷ 105 ∷ 100 ∷ []

-- disconnectReason
abbrev pub disconnect_reason_name : List ℕ
disconnect_reason_name =
    100 ∷ 105 ∷ 115 ∷ 99 ∷ 111 ∷ 110 ∷ 110 ∷ 101 ∷ 99 ∷ 116 ∷ 82 ∷ 101 ∷ 97 ∷ 115 ∷ 111 ∷ 110 ∷ []

-- disconnectReasonCode
abbrev pub disconnect_reason_code_name : List ℕ
disconnect_reason_code_name =
    100 ∷ 105 ∷ 115 ∷ 99 ∷ 111 ∷ 110 ∷ 110 ∷ 101 ∷ 99 ∷ 116 ∷ 82 ∷ 101 ∷ 97 ∷ 115 ∷ 111 ∷ 110 ∷ 67
    ∷ 111 ∷ 100 ∷ 101 ∷ []

-- ip
abbrev pub ip_name : List ℕ
ip_name = 105 ∷ 112 ∷ []

-- gw
abbrev pub gw_name : List ℕ
gw_name = 103 ∷ 119 ∷ []

-- netmask
abbrev pub netmask_name : List ℕ
netmask_name = 110 ∷ 101 ∷ 116 ∷ 109 ∷ 97 ∷ 115 ∷ 107 ∷ []

-- lines
abbrev pub lines_name : List ℕ
lines_name = 108 ∷ 105 ∷ 110 ∷ 101 ∷ 115 ∷ []

-- items
abbrev pub items_name : List ℕ
items_name = 105 ∷ 116 ∷ 101 ∷ 109 ∷ 115 ∷ []

-- hasMore
abbrev pub has_more_name : List ℕ
has_more_name = 104 ∷ 97 ∷ 115 ∷ 77 ∷ 111 ∷ 114 ∷ 101 ∷ []

-- ssidLength
abbrev pub ssid_length_name : List ℕ
ssid_length_name = 115 ∷ 115 ∷ 105 ∷ 100 ∷ 76 ∷ 101 ∷ 110 ∷ 103 ∷ 116 ∷ 104 ∷ []

-- hidden
abbrev pub hidden_name : List ℕ
hidden_name = 104 ∷ 105 ∷ 100 ∷ 100 ∷ 101 ∷ 110 ∷ []
