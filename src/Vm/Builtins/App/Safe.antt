-- ===== src/Vm/Builtins/App/Safe.antt =====
-- compiler/rust/crates/squidvm-core/src/vm.rs: what the builtins for apps, timers and the device keep of
-- the machine.
use squid_script.Base.{ℕ, none, some, All}
use squid_script.Vm.Values.{expect_i32}
use squid_script.Vm.Services.{
  app_launch, app_arm, app_disarm, app_install, app_registry_list, app_registry_get,
  app_process_stack, app_armed_stack, service_timer_every, service_timer_after, service_ble_start,
  service_ble_stop, service_http_start, service_http_stop, service_power_sleep, system_memory_text,
  system_storage_text, system_start_reason_text, AppRegistryEntry,
}
use squid_script.Vm.Machine.{Host}
use squid_script.Vm.Exec.{M}
use squid_script.Vm.Instructions.{expect_list, expect_sqbc}
use squid_script.Vm.Builtins.Operands.{service, runtime_string_value}
use squid_script.Vm.Builtins.Records.{
  app_registry_record, app_install_record, app_armed_stack_record,
}
use squid_script.Vm.Exec.Triples.{Stays, Stays-bind}
use squid_script.Vm.Exec.Safe.{Returns, push-Stays, pop-Stays}
use squid_script.Vm.Instructions.Safe.{expect_i32-Settles, expect_list-Settles, expect_sqbc-Settles}
use squid_script.Vm.Builtins.Operands.Safe.{
  ◌⨾◌, pop_as-Stays, named-Stays, text_of-Stays, list_item-Stays, service-Stays,
  runtime_string_value-Stays, answered-Stays, list_of-Stays, text_value-Stays,
}
use squid_script.Vm.Builtins.Records.Safe.{
  app_registry_record-Stays, app_install_record-Stays, app_armed_stack_record-Stays,
}
use squid_script.Vm.Builtins.App.{
  on_app_launch, on_app_arm, on_app_disarm, on_app_install, on_app_install_metadata,
  on_app_registry_list, on_app_registry_get, on_app_process_stack, on_app_armed_stack,
  on_app_armed_stack_get, on_service_timer_every, on_service_timer_after, on_service_ble_start,
  on_service_ble_stop, on_service_http_start, on_service_http_stop, on_service_power_sleep,
  on_system_memory, on_system_storage, on_system_start_reason, app_arms,
}

module _ {H : Type 0} (max : ℕ) (host : Host H) (returns : Returns host) where
  on_app_launch-Stays : Stays (on_app_launch max host)
  unfolding on_app_launch
  on_app_launch-Stays = Stays-bind _ _ (pop-Stays) λ app.
      Stays-bind _ _ (text_of-Stays max app) λ name. service-Stays host returns (app_launch name)

  on_app_arm-Stays : Stays (on_app_arm max host)
  unfolding on_app_arm
  on_app_arm-Stays = Stays-bind _ _ (pop-Stays) λ app.
      Stays-bind _ _ (text_of-Stays max app) λ name. service-Stays host returns (app_arm name)

  on_app_disarm-Stays : Stays (on_app_disarm max host)
  unfolding on_app_disarm
  on_app_disarm-Stays = Stays-bind _ _ (pop-Stays) λ app.
      Stays-bind _ _ (text_of-Stays max app) λ name. service-Stays host returns (app_disarm name)

  on_app_install-Stays : Stays (on_app_install max host)
  unfolding on_app_install
  on_app_install-Stays = Stays-bind _ _ (pop-Stays) λ file_ref. Stays-bind _ _ (pop-Stays) λ app_id.
      Stays-bind _ _ (text_of-Stays max file_ref) λ file.
        Stays-bind _ _ (text_of-Stays max app_id) λ app.
          answered-Stays (service host (app_install file (some app))) (app_install_record max)
            (service-Stays host returns (app_install file (some app)))
            (app_install_record-Stays max)

  on_app_install_metadata-Stays : Stays (on_app_install_metadata max host)
  unfolding on_app_install_metadata
  on_app_install_metadata-Stays = Stays-bind _ _ (pop-Stays) λ file_ref.
      Stays-bind _ _ (text_of-Stays max file_ref) λ file.
        answered-Stays (service host (app_install file none)) (app_install_record max)
          (service-Stays host returns (app_install file none)) (app_install_record-Stays max)

  on_app_registry_list-Stays : Stays (on_app_registry_list max host)
  unfolding on_app_registry_list
  on_app_registry_list-Stays =
      Stays-bind _ _ (service-Stays host returns app_registry_list) λ registry.
        Stays-bind _ _
          (list_of-Stays (λ (app : AppRegistryEntry). runtime_string_value max (some app.id))
            registry (λ app. runtime_string_value-Stays max (some app.id)))
          λ value. push-Stays value

  on_app_registry_get-Stays : Stays (on_app_registry_get max host)
  unfolding on_app_registry_get
  on_app_registry_get-Stays = Stays-bind _ _ (pop_as-Stays expect_i32 expect_i32-Settles) λ at.
      Stays-bind _ _ (pop_as-Stays expect_list expect_list-Settles) λ list.
        Stays-bind _ _ (list_item-Stays list at) λ app_id.
          Stays-bind _ _ (text_of-Stays max app_id) λ name.
            answered-Stays (service host (app_registry_get name)) (app_registry_record max)
              (service-Stays host returns (app_registry_get name)) (app_registry_record-Stays max)

  on_app_process_stack-Stays : Stays (on_app_process_stack max host)
  unfolding on_app_process_stack
  on_app_process_stack-Stays = Stays-bind _ _ (service-Stays host returns app_process_stack) λ apps.
      Stays-bind _ _
        (list_of-Stays (λ app_id. runtime_string_value max (some app_id)) apps
          (λ app_id. runtime_string_value-Stays max (some app_id)))
        λ value. push-Stays value

  on_app_armed_stack-Stays : Stays (on_app_armed_stack max host)
  unfolding on_app_armed_stack
  on_app_armed_stack-Stays = Stays-bind _ _ (service-Stays host returns app_armed_stack) λ armed.
      Stays-bind _ _
        (list_of-Stays (app_armed_stack_record max) armed (app_armed_stack_record-Stays max))
        λ value. push-Stays value

  on_app_armed_stack_get-Stays : Stays (on_app_armed_stack_get max host)
  unfolding on_app_armed_stack_get
  on_app_armed_stack_get-Stays = Stays-bind _ _ (pop_as-Stays expect_i32 expect_i32-Settles) λ at.
      Stays-bind _ _ (pop_as-Stays expect_list expect_list-Settles)
        λ list. Stays-bind _ _ (list_item-Stays list at) λ item. push-Stays item

  on_service_timer_every-Stays : Stays (on_service_timer_every max host)
  unfolding on_service_timer_every
  on_service_timer_every-Stays =
      Stays-bind _ _ (pop_as-Stays expect_i32 expect_i32-Settles) λ interval_ms.
        Stays-bind _ _ (pop_as-Stays expect_sqbc expect_sqbc-Settles) λ event_id.
          Stays-bind _ _ (named-Stays max event_id)
            λ event. service-Stays host returns (service_timer_every event interval_ms)

  on_service_timer_after-Stays : Stays (on_service_timer_after max host)
  unfolding on_service_timer_after
  on_service_timer_after-Stays =
      Stays-bind _ _ (pop_as-Stays expect_i32 expect_i32-Settles) λ delay_ms.
        Stays-bind _ _ (pop_as-Stays expect_sqbc expect_sqbc-Settles) λ event_id.
          Stays-bind _ _ (named-Stays max event_id)
            λ event. service-Stays host returns (service_timer_after event delay_ms)

  on_service_ble_start-Stays : Stays (on_service_ble_start max host)
  unfolding on_service_ble_start
  on_service_ble_start-Stays =
      Stays-bind _ _ (pop_as-Stays expect_sqbc expect_sqbc-Settles) λ name_id.
        Stays-bind _ _ (named-Stays max name_id)
          λ id. service-Stays host returns (service_ble_start id)

  on_service_ble_stop-Stays : Stays (on_service_ble_stop max host)
  unfolding on_service_ble_stop
  on_service_ble_stop-Stays = service-Stays host returns service_ble_stop

  on_service_http_start-Stays : Stays (on_service_http_start max host)
  unfolding on_service_http_start
  on_service_http_start-Stays =
      Stays-bind _ _ (pop_as-Stays expect_sqbc expect_sqbc-Settles) λ name_id.
        Stays-bind _ _ (named-Stays max name_id)
          λ id. service-Stays host returns (service_http_start id)

  on_service_http_stop-Stays : Stays (on_service_http_stop max host)
  unfolding on_service_http_stop
  on_service_http_stop-Stays = service-Stays host returns service_http_stop

  on_service_power_sleep-Stays : Stays (on_service_power_sleep max host)
  unfolding on_service_power_sleep
  on_service_power_sleep-Stays =
      Stays-bind _ _ (pop_as-Stays expect_i32 expect_i32-Settles)
        λ wake_after_ms. service-Stays host returns (service_power_sleep wake_after_ms)

  on_system_memory-Stays : Stays (on_system_memory max host)
  unfolding on_system_memory
  on_system_memory-Stays =
      Stays-bind _ _ (service-Stays host returns system_memory_text)
        λ pieces. Stays-bind _ _ (text_value-Stays max pieces) λ value. push-Stays value

  on_system_storage-Stays : Stays (on_system_storage max host)
  unfolding on_system_storage
  on_system_storage-Stays = Stays-bind _ _ (pop_as-Stays expect_sqbc expect_sqbc-Settles) λ name_id.
      Stays-bind _ _ (named-Stays max name_id) λ name.
        Stays-bind _ _ (service-Stays host returns (system_storage_text name))
          λ pieces. Stays-bind _ _ (text_value-Stays max pieces) λ value. push-Stays value

  on_system_start_reason-Stays : Stays (on_system_start_reason max host)
  unfolding on_system_start_reason
  on_system_start_reason-Stays =
      Stays-bind _ _ (service-Stays host returns system_start_reason_text)
        λ pieces. Stays-bind _ _ (text_value-Stays max pieces) λ value. push-Stays value

  pub app_arms-Stay : All (λ (arm : ℕ × M H (Unit {0})). Stays arm.1) (app_arms max host)
  app_arms-Stay =
      on_app_launch-Stays ⨾ on_app_arm-Stays ⨾ on_app_disarm-Stays ⨾ on_app_install-Stays
      ⨾ on_app_install_metadata-Stays ⨾ on_app_registry_list-Stays ⨾ on_app_registry_get-Stays
      ⨾ on_app_process_stack-Stays ⨾ on_app_armed_stack-Stays ⨾ on_app_armed_stack_get-Stays
      ⨾ on_service_timer_every-Stays ⨾ on_service_timer_after-Stays ⨾ on_service_ble_start-Stays
      ⨾ on_service_ble_stop-Stays ⨾ on_service_http_start-Stays ⨾ on_service_http_stop-Stays
      ⨾ on_service_power_sleep-Stays ⨾ on_system_memory-Stays ⨾ on_system_storage-Stays
      ⨾ on_system_start_reason-Stays ⨾ tt
