-- ===== src/Vm/Builtins/Wifi.antt =====
-- compiler/rust/crates/squidvm-core/src/vm.rs: the arms of `call_builtin` for the wireless network.
pub mod Safe
use squid_script.Base.{ℕ, List, [], ◌∷◌}
use squid_script.Vm.Values.{expect_i32}
use squid_script.Vm.Services.{
  service_wifi_start_ap, service_wifi_stop_ap, service_wifi_connect, service_wifi_disconnect,
  service_wifi_status, service_wifi_get_ap_ip, service_wifi_scan, service_wifi_operation,
  service_wifi_result, service_wifi_cancel, service_wifi_scan_network,
}
use squid_script.Vm.Machine.{Host}
use squid_script.Vm.Exec.{M, ◌>>=◌, ◌>>◌}
use squid_script.Vm.Instructions.{expect_sqbc}
use squid_script.Vm.Builtins.Operands.{pop_as, named, service, answered}
use squid_script.Vm.Builtins.Records.{
  wifi_operation_record, wifi_operation_result_record, wifi_status_record, wifi_ap_ip_record,
  wifi_scan_network_record,
}

module _ {H : Type 0} (max : ℕ) (host : Host H) where
  unfoldable pub on_service_wifi_start_ap : M H (Unit {0})
  unfolding pop_as named service answered wifi_operation_record
  on_service_wifi_start_ap = do
    ssid_id ← pop_as expect_sqbc
    ssid ← named max ssid_id
    answered (service host (service_wifi_start_ap ssid)) (wifi_operation_record max)

  unfoldable pub on_service_wifi_stop_ap : M H (Unit {0})
  unfolding service answered wifi_operation_record
  on_service_wifi_stop_ap = answered (service host service_wifi_stop_ap) (wifi_operation_record max)

  unfoldable pub on_service_wifi_connect : M H (Unit {0})
  unfolding pop_as named service answered wifi_operation_record
  on_service_wifi_connect = do
    profile_id ← pop_as expect_sqbc
    profile ← named max profile_id
    answered (service host (service_wifi_connect profile)) (wifi_operation_record max)

  unfoldable pub on_service_wifi_disconnect : M H (Unit {0})
  unfolding service answered wifi_operation_record
  on_service_wifi_disconnect =
      answered (service host service_wifi_disconnect) (wifi_operation_record max)

  unfoldable pub on_service_wifi_status : M H (Unit {0})
  unfolding service answered wifi_status_record
  on_service_wifi_status = answered (service host service_wifi_status) (wifi_status_record max)

  unfoldable pub on_service_wifi_get_ap_ip : M H (Unit {0})
  unfolding service answered wifi_ap_ip_record
  on_service_wifi_get_ap_ip = answered (service host service_wifi_get_ap_ip) (wifi_ap_ip_record max)

  unfoldable pub on_service_wifi_scan : M H (Unit {0})
  unfolding service answered wifi_operation_record
  on_service_wifi_scan = answered (service host service_wifi_scan) (wifi_operation_record max)

  unfoldable pub on_service_wifi_operation : M H (Unit {0})
  unfolding service answered wifi_operation_record
  on_service_wifi_operation =
      answered (service host service_wifi_operation) (wifi_operation_record max)

  unfoldable pub on_service_wifi_result : M H (Unit {0})
  unfolding service answered wifi_operation_result_record
  on_service_wifi_result =
      answered (service host service_wifi_result) (wifi_operation_result_record max)

  unfoldable pub on_service_wifi_cancel : M H (Unit {0})
  unfolding service answered wifi_operation_record
  on_service_wifi_cancel = answered (service host service_wifi_cancel) (wifi_operation_record max)

  unfoldable pub on_service_wifi_scan_network : M H (Unit {0})
  unfolding pop_as service answered wifi_scan_network_record
  on_service_wifi_scan_network = do
    at ← pop_as expect_i32
    answered (service host (service_wifi_scan_network at)) (wifi_scan_network_record max)

  -- The arms, by their numbers.
  abbrev pub wifi_arms : List (ℕ × M H (Unit {0}))
  wifi_arms =
      (0x50, on_service_wifi_start_ap)
      ∷ (0x51, on_service_wifi_stop_ap)
      ∷ (0x54, on_service_wifi_connect)
      ∷ (0x55, on_service_wifi_disconnect)
      ∷ (0x52, on_service_wifi_status)
      ∷ (0x53, on_service_wifi_get_ap_ip)
      ∷ (0x56, on_service_wifi_scan)
      ∷ (0x57, on_service_wifi_operation)
      ∷ (0x58, on_service_wifi_result)
      ∷ (0x59, on_service_wifi_cancel)
      ∷ (0x5a, on_service_wifi_scan_network)
      ∷ []
