-- ===== src/Vm/Builtins/Wifi/Safe.antt =====
-- compiler/rust/crates/squidvm-core/src/vm.rs: what the builtins for the wireless network keep of
-- the machine.
use squid_script.Base.{ℕ, All}
use squid_script.Vm.Values.{expect_i32}
use squid_script.Vm.Services.{
  service_wifi_start_ap, service_wifi_stop_ap, service_wifi_connect, service_wifi_disconnect,
  service_wifi_status, service_wifi_get_ap_ip, service_wifi_scan, service_wifi_operation,
  service_wifi_result, service_wifi_cancel, service_wifi_scan_network, WifiScanNetwork,
}
use squid_script.Vm.Machine.{Host}
use squid_script.Vm.Exec.{M, ◌>>=◌, push}
use squid_script.Vm.Instructions.{expect_sqbc}
use squid_script.Vm.Builtins.Operands.{service, answered}
use squid_script.Vm.Builtins.Records.{
  wifi_operation_record, wifi_operation_result_record, wifi_status_record, wifi_ap_ip_record,
  wifi_scan_network_record,
}
use squid_script.Vm.Exec.Triples.{Stays, Stays-bind}
use squid_script.Vm.Exec.Safe.{Returns, NameFits, asks-then-Stays, push-Stays}
use squid_script.Vm.Instructions.Safe.{expect_i32-Settles, expect_sqbc-Settles}
use squid_script.Vm.Builtins.Operands.Safe.{
  ◌⨾◌, pop_as-Stays, named-Stays, service-Stays, answered-Stays,
}
use squid_script.Vm.Builtins.Records.Safe.{
  wifi_operation_record-Stays, wifi_operation_result_record-Stays, wifi_status_record-Stays,
  wifi_ap_ip_record-Stays, wifi_scan_network_record-Stays,
}
use squid_script.Vm.Builtins.Wifi.{
  on_service_wifi_start_ap, on_service_wifi_stop_ap, on_service_wifi_connect,
  on_service_wifi_disconnect, on_service_wifi_status, on_service_wifi_get_ap_ip,
  on_service_wifi_scan, on_service_wifi_operation, on_service_wifi_result, on_service_wifi_cancel,
  on_service_wifi_scan_network, wifi_arms,
}

module _ {H : Type 0} (max : ℕ) (host : Host H) (returns : Returns host) where
  on_service_wifi_start_ap-Stays : Stays (on_service_wifi_start_ap max host)
  unfolding on_service_wifi_start_ap
  on_service_wifi_start_ap-Stays =
      Stays-bind _ _ (pop_as-Stays expect_sqbc expect_sqbc-Settles) λ ssid_id.
        Stays-bind _ _ (named-Stays max ssid_id) λ ssid.
          answered-Stays (service host (service_wifi_start_ap ssid)) (wifi_operation_record max)
            (service-Stays host returns (service_wifi_start_ap ssid))
            (wifi_operation_record-Stays max)

  on_service_wifi_stop_ap-Stays : Stays (on_service_wifi_stop_ap max host)
  unfolding on_service_wifi_stop_ap
  on_service_wifi_stop_ap-Stays =
      answered-Stays (service host service_wifi_stop_ap) (wifi_operation_record max)
        (service-Stays host returns service_wifi_stop_ap) (wifi_operation_record-Stays max)

  on_service_wifi_connect-Stays : Stays (on_service_wifi_connect max host)
  unfolding on_service_wifi_connect
  on_service_wifi_connect-Stays =
      Stays-bind _ _ (pop_as-Stays expect_sqbc expect_sqbc-Settles) λ profile_id.
        Stays-bind _ _ (named-Stays max profile_id) λ profile.
          answered-Stays (service host (service_wifi_connect profile)) (wifi_operation_record max)
            (service-Stays host returns (service_wifi_connect profile))
            (wifi_operation_record-Stays max)

  on_service_wifi_disconnect-Stays : Stays (on_service_wifi_disconnect max host)
  unfolding on_service_wifi_disconnect
  on_service_wifi_disconnect-Stays =
      answered-Stays (service host service_wifi_disconnect) (wifi_operation_record max)
        (service-Stays host returns service_wifi_disconnect) (wifi_operation_record-Stays max)

  on_service_wifi_status-Stays : Stays (on_service_wifi_status max host)
  unfolding on_service_wifi_status
  on_service_wifi_status-Stays =
      answered-Stays (service host service_wifi_status) (wifi_status_record max)
        (service-Stays host returns service_wifi_status) (wifi_status_record-Stays max)

  on_service_wifi_get_ap_ip-Stays : Stays (on_service_wifi_get_ap_ip max host)
  unfolding on_service_wifi_get_ap_ip
  on_service_wifi_get_ap_ip-Stays =
      answered-Stays (service host service_wifi_get_ap_ip) (wifi_ap_ip_record max)
        (service-Stays host returns service_wifi_get_ap_ip) (wifi_ap_ip_record-Stays max)

  on_service_wifi_scan-Stays : Stays (on_service_wifi_scan max host)
  unfolding on_service_wifi_scan
  on_service_wifi_scan-Stays =
      answered-Stays (service host service_wifi_scan) (wifi_operation_record max)
        (service-Stays host returns service_wifi_scan) (wifi_operation_record-Stays max)

  on_service_wifi_operation-Stays : Stays (on_service_wifi_operation max host)
  unfolding on_service_wifi_operation
  on_service_wifi_operation-Stays =
      answered-Stays (service host service_wifi_operation) (wifi_operation_record max)
        (service-Stays host returns service_wifi_operation) (wifi_operation_record-Stays max)

  on_service_wifi_result-Stays : Stays (on_service_wifi_result max host)
  unfolding on_service_wifi_result
  on_service_wifi_result-Stays =
      answered-Stays (service host service_wifi_result) (wifi_operation_result_record max)
        (service-Stays host returns service_wifi_result) (wifi_operation_result_record-Stays max)

  on_service_wifi_cancel-Stays : Stays (on_service_wifi_cancel max host)
  unfolding on_service_wifi_cancel
  on_service_wifi_cancel-Stays =
      answered-Stays (service host service_wifi_cancel) (wifi_operation_record max)
        (service-Stays host returns service_wifi_cancel) (wifi_operation_record-Stays max)

  on_service_wifi_scan_network-Stays : Stays (on_service_wifi_scan_network max host)
  unfolding on_service_wifi_scan_network answered service
  on_service_wifi_scan_network-Stays =
      Stays-bind _ _ (pop_as-Stays expect_i32 expect_i32-Settles) λ at.
        asks-then-Stays (λ (answer : WifiScanNetwork). NameFits answer.network)
          (host.call (service_wifi_scan_network at))
          (λ answer. wifi_scan_network_record max answer >>= λ value. push value)
          (returns.call_returns (service_wifi_scan_network at)) (returns.scan_fits at)
          λ answer fits.
            Stays-bind _ _ (wifi_scan_network_record-Stays max answer fits)
              λ value. push-Stays value

  pub wifi_arms-Stay : All (λ (arm : ℕ × M H (Unit {0})). Stays arm.1) (wifi_arms max host)
  wifi_arms-Stay =
      on_service_wifi_start_ap-Stays ⨾ on_service_wifi_stop_ap-Stays ⨾ on_service_wifi_connect-Stays
      ⨾ on_service_wifi_disconnect-Stays ⨾ on_service_wifi_status-Stays
      ⨾ on_service_wifi_get_ap_ip-Stays ⨾ on_service_wifi_scan-Stays
      ⨾ on_service_wifi_operation-Stays ⨾ on_service_wifi_result-Stays
      ⨾ on_service_wifi_cancel-Stays ⨾ on_service_wifi_scan_network-Stays ⨾ tt
