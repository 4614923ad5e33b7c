-- ===== src/Vm/ProgramIndex/Readers.antt =====
-- compiler/rust/crates/squidvm-core/src/program.rs: the readers of one entry of a file's triggers and
-- device bindings, which load no tables. The count is read from the buffer, which behind the section
-- holds what was read there before.
use squid_script.Base.{
  ℕ, ◌+◌, ◌*◌, not, ◌&&◌, Option, none, some, List, ◌++◌, length, drop, ltb, leb, ◌==◌, Result, ok,
  ◌>>=◌, ◌>>◌, guard, ok_or,
}
use squid_script.Vm.Values.{
  VmError, missing_section, invalid_section, invalid_operand, byte_at, read_u16, read_i32,
}
use squid_script.Vm.Limits.{max_triggers, max_device_bindings}
use squid_script.Vm.Sqbc.{SqbcSection}
use squid_script.Vm.Tables.{is_interval, string_from_section}
use squid_script.Vm.Program.{TriggerTimer}
use squid_script.Vm.ProgramIndex.{reader_sections}

-- What a buffer holds after a read into its front.
abbrev pub over : List ℕ → List ℕ → List ℕ
over bytes scratch = bytes ++ drop (length bytes) scratch

pub record DeviceBinding : Type 0 where
  pub service : List ℕ
  pub binding : List ℕ
  pub resource : List ℕ

-- `2usize.checked_add(count.checked_mul(width)?)? == section.len`, where `count` is small.
abbrev pub table_len : ℕ → ℕ → ℕ
table_len width count = 2 + count * width

module _ (max : ℕ) (read : ℕ → ℕ → Result VmError (List ℕ)) (scratch : List ℕ) where
  -- The table of a section of `width` bytes an entry: the count is read from the buffer.
  unfoldable pub read_counted : List ℕ → SqbcSection → Result VmError (ℕ × List ℕ)
  read_counted header_bytes r = do
    bytes ← read r.offset r.len
    let held = over bytes (over header_bytes scratch)
    count ← read_u16 held 0
    ok (count, held)

  unfoldable pub count_from_reader : ℕ → ℕ → List ℕ → Option SqbcSection → Result VmError ℕ
  unfolding read_counted
  count_from_reader limit width header_bytes none = ok 0
  count_from_reader limit width header_bytes (some r) = do
    guard (leb r.len (length scratch)) invalid_section
    (count, _) ← read_counted header_bytes r
    guard (leb count limit) invalid_section
    guard (table_len width count == r.len) invalid_section
    ok count

  unfoldable pub trigger_timer_count_from_reader : Result VmError ℕ
  unfolding reader_sections count_from_reader
  trigger_timer_count_from_reader = do
    (found, header_bytes) ← reader_sections max read (length scratch)
    _ ← ok_or found.strings missing_section
    count_from_reader max_triggers 8 header_bytes found.triggers

  unfoldable pub device_binding_count_from_reader : Result VmError ℕ
  unfolding reader_sections count_from_reader
  device_binding_count_from_reader = do
    (found, header_bytes) ← reader_sections max read (length scratch)
    _ ← ok_or found.strings missing_section
    count_from_reader max_device_bindings 6 header_bytes found.device_bindings

  -- Both readers of one entry: the buffer with the table, where entry `place` is one of it.
  unfoldable pub entry_from_reader :
      ℕ → ℕ → List ℕ → SqbcSection → SqbcSection → ℕ → Result VmError (List ℕ)
  unfolding read_counted
  entry_from_reader limit width header_bytes strings r place = do
    guard (leb r.len (length scratch) && leb strings.len (length scratch)) invalid_section
    (count, held) ← read_counted header_bytes r
    guard (leb count limit && ltb place count) invalid_operand
    guard (table_len width count == r.len) invalid_section
    ok held

  unfoldable pub trigger_timer_from_reader : ℕ → Result VmError TriggerTimer
  unfolding reader_sections entry_from_reader
  trigger_timer_from_reader timer_index = do
    (found, header_bytes) ← reader_sections max read (length scratch)
    strings ← ok_or found.strings missing_section
    r ← ok_or found.triggers invalid_operand
    held ← entry_from_reader max_triggers 8 header_bytes strings r timer_index
    event_id ← read_u16 held (2 + timer_index * 8)
    repeating ← byte_at held (2 + timer_index * 8 + 2)
    reserved ← byte_at held (2 + timer_index * 8 + 3)
    interval_ms ← read_i32 held (2 + timer_index * 8 + 4)
    guard ((reserved == 0) && is_interval interval_ms) invalid_section
    bytes ← read strings.offset strings.len
    event ← string_from_section max bytes event_id
    ok (record { event = event; interval_ms = interval_ms; repeating = not (repeating == 0) })

  unfoldable pub device_binding_from_reader : ℕ → Result VmError DeviceBinding
  unfolding reader_sections entry_from_reader
  device_binding_from_reader binding_index = do
    (found, header_bytes) ← reader_sections max read (length scratch)
    strings ← ok_or found.strings missing_section
    r ← ok_or found.device_bindings invalid_operand
    held ← entry_from_reader max_device_bindings 6 header_bytes strings r binding_index
    service_id ← read_u16 held (2 + binding_index * 6)
    binding_id ← read_u16 held (2 + binding_index * 6 + 2)
    resource_id ← read_u16 held (2 + binding_index * 6 + 4)
    bytes ← read strings.offset strings.len
    service ← string_from_section max bytes service_id
    binding ← string_from_section max bytes binding_id
    resource ← string_from_section max bytes resource_id
    ok (record { service = service; binding = binding; resource = resource })
