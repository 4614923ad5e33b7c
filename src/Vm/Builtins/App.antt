-- ===== src/Vm/Builtins/App.antt =====
-- compiler/rust/crates/squidvm-core/src/vm.rs: the arms of `call_builtin` for apps, timers and the device.
pub mod Safe
use squid_script.Base.{ℕ, none, some, List, [], ◌∷◌}
use squid_script.Vm.Values.{expect_i32}
use squid_script.Vm.Services.{
  app_launch, app_arm, app_disarm, app_install, app_registry_list, app_registry_get,
  app_process_stack, app_armed_stack, service_timer_every, service_timer_after, service_ble_start,
  service_ble_stop, service_http_start, service_http_stop, service_power_sleep, system_memory_text,
  system_storage_text, system_start_reason_text, AppRegistryEntry,
}
use squid_script.Vm.Machine.{Host}
use squid_script.Vm.Exec.{M, ◌>>=◌, ◌>>◌, push, pop}
use squid_script.Vm.Instructions.{expect_list, expect_sqbc}
use squid_script.Vm.Builtins.Operands.{
  pop_as, named, text_of, list_item, service, runtime_string_value, answered, list_of, text_value,
}
use squid_script.Vm.Builtins.Records.{
  app_registry_record, app_install_record, app_armed_stack_record,
}

module _ {H : Type 0} (max : ℕ) (host : Host H) where
  unfoldable pub on_app_launch : M H (Unit {0})
  unfolding pop text_of service
  on_app_launch = do app ← pop; name ← text_of max app; service host (app_launch name)

  unfoldable pub on_app_arm : M H (Unit {0})
  unfolding pop text_of service
  on_app_arm = do app ← pop; name ← text_of max app; service host (app_arm name)

  unfoldable pub on_app_disarm : M H (Unit {0})
  unfolding pop text_of service
  on_app_disarm = do app ← pop; name ← text_of max app; service host (app_disarm name)

  unfoldable pub on_app_install : M H (Unit {0})
  unfolding pop text_of service answered app_install_record
  on_app_install = do
    file_ref ← pop
    app_id ← pop
    file ← text_of max file_ref
    app ← text_of max app_id
    answered (service host (app_install file (some app))) (app_install_record max)

  unfoldable pub on_app_install_metadata : M H (Unit {0})
  unfolding pop text_of service answered app_install_record
  on_app_install_metadata = do
    file_ref ← pop
    file ← text_of max file_ref
    answered (service host (app_install file none)) (app_install_record max)

  unfoldable pub on_app_registry_list : M H (Unit {0})
  unfolding service push list_of
  on_app_registry_list = do
    registry ← service host app_registry_list
    value ← list_of (λ (app : AppRegistryEntry). runtime_string_value max (some app.id)) registry
    push value

  unfoldable pub on_app_registry_get : M H (Unit {0})
  unfolding pop_as text_of list_item service answered app_registry_record
  on_app_registry_get = do
    at ← pop_as expect_i32
    list ← pop_as expect_list
    app_id ← list_item list at
    name ← text_of max app_id
    answered (service host (app_registry_get name)) (app_registry_record max)

  unfoldable pub on_app_process_stack : M H (Unit {0})
  unfolding service push list_of
  on_app_process_stack = do
    apps ← service host app_process_stack
    value ← list_of (λ app_id. runtime_string_value max (some app_id)) apps
    push value

  unfoldable pub on_app_armed_stack : M H (Unit {0})
  unfolding service push list_of app_armed_stack_record
  on_app_armed_stack = do
    armed ← service host app_armed_stack
    value ← list_of (app_armed_stack_record max) armed
    push value

  unfoldable pub on_app_armed_stack_get : M H (Unit {0})
  unfolding pop_as list_item push
  on_app_armed_stack_get = do
    at ← pop_as expect_i32
    list ← pop_as expect_list
    item ← list_item list at
    push item

  unfoldable pub on_service_timer_every : M H (Unit {0})
  unfolding pop_as named service
  on_service_timer_every = do
    interval_ms ← pop_as expect_i32
    event_id ← pop_as expect_sqbc
    event ← named max event_id
    service host (service_timer_every event interval_ms)

  unfoldable pub on_service_timer_after : M H (Unit {0})
  unfolding pop_as named service
  on_service_timer_after = do
    delay_ms ← pop_as expect_i32
    event_id ← pop_as expect_sqbc
    event ← named max event_id
    service host (service_timer_after event delay_ms)

  unfoldable pub on_service_ble_start : M H (Unit {0})
  unfolding pop_as named service
  on_service_ble_start = do
    name_id ← pop_as expect_sqbc
    id ← named max name_id
    service host (service_ble_start id)

  unfoldable pub on_service_ble_stop : M H (Unit {0})
  unfolding service
  on_service_ble_stop = service host service_ble_stop

  unfoldable pub on_service_http_start : M H (Unit {0})
  unfolding pop_as named service
  on_service_http_start = do
    name_id ← pop_as expect_sqbc
    id ← named max name_id
    service host (service_http_start id)

  unfoldable pub on_service_http_stop : M H (Unit {0})
  unfolding service
  on_service_http_stop = service host service_http_stop

  unfoldable pub on_service_power_sleep : M H (Unit {0})
  unfolding pop_as service
  on_service_power_sleep = do
    wake_after_ms ← pop_as expect_i32
    service host (service_power_sleep wake_after_ms)

  unfoldable pub on_system_memory : M H (Unit {0})
  unfolding service push text_value
  on_system_memory = do
    pieces ← service host system_memory_text
    value ← text_value max pieces
    push value

  unfoldable pub on_system_storage : M H (Unit {0})
  unfolding pop_as named service push text_value
  on_system_storage = do
    name_id ← pop_as expect_sqbc
    name ← named max name_id
    pieces ← service host (system_storage_text name)
    value ← text_value max pieces
    push value

  unfoldable pub on_system_start_reason : M H (Unit {0})
  unfolding service push text_value
  on_system_start_reason = do
    pieces ← service host system_start_reason_text
    value ← text_value max pieces
    push value

  -- The arms, by their numbers.
  abbrev pub app_arms : List (ℕ × M H (Unit {0}))
  app_arms =
      (0x11, on_app_launch)
      ∷ (0x12, on_app_arm)
      ∷ (0x13, on_app_disarm)
      ∷ (0x19, on_app_install)
      ∷ (0x1a, on_app_install_metadata)
      ∷ (0x14, on_app_registry_list)
      ∷ (0x15, on_app_registry_get)
      ∷ (0x16, on_app_process_stack)
      ∷ (0x17, on_app_armed_stack)
      ∷ (0x18, on_app_armed_stack_get)
      ∷ (0x22, on_service_timer_every)
      ∷ (0x23, on_service_timer_after)
      ∷ (0xc1, on_service_ble_start)
      ∷ (0xc2, on_service_ble_stop)
      ∷ (0xc3, on_service_http_start)
      ∷ (0xc4, on_service_http_stop)
      ∷ (0xc0, on_service_power_sleep)
      ∷ (0x05, on_system_memory)
      ∷ (0x06, on_system_storage)
      ∷ (0x07, on_system_start_reason)
      ∷ []
