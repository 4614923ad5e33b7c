-- ===== src/Vm/Tables.antt =====
-- compiler/rust/crates/squidvm-core/src/program.rs and model.rs: the tables in the sections of a
-- compiled program. An array of which a count is in use is the list of the entries in use.
pub mod Entries
use squid_script.Base.{
  ℕ, zero, suc, ◌+◌, ◌-◌, ◌^◌, Bool, not, ◌&&◌, Option, none, some, List, [], ◌∷◌, ◌++◌, length,
  replicate, ltb, leb, ◌==◌, if◌then◌else◌, Result, ok, err, ◌>>=◌, ◌>>◌, guard,
}
use squid_script.Base.Utf8.{is_utf8}
use squid_script.Vm.Values.{
  VmError, invalid_section, invalid_utf8, invalid_operand, too_many_strings, too_many_functions,
  too_many_handlers, too_many_screens, byte_at, read_u16, read_u32, read_i32,
}
use squid_script.Vm.Limits.{
  max_strings, max_functions, max_handlers, max_triggers, max_screens, max_locals,
  max_program_string_bytes,
}
use squid_script.Vm.Sqbc.{checked_end, get_range}

pub record Function : Type 0 where
  pub name_id : ℕ
  pub param_count : ℕ
  pub local_count : ℕ
  pub start : ℕ
  pub len : ℕ

pub record Handler : Type 0 where
  pub event_id : ℕ
  pub preload : Bool
  pub param_count : ℕ
  pub local_count : ℕ
  pub start : ℕ
  pub len : ℕ

pub record TriggerTimerMeta : Type 0 where
  pub event_id : ℕ
  pub interval_ms : ℕ
  pub repeating : Bool

pub record Screen : Type 0 where
  pub name_id : ℕ
  pub start : ℕ
  pub len : ℕ

-- The loop of every table: one entry at the cursor, `n` times.
unfoldable pub parse_entries {ℓ} :
    {A : Type ℓ}
    → (List ℕ → ℕ → Result VmError (A × ℕ))
    → ℕ
    → List ℕ
    → ℕ
    → Result VmError (List A × ℕ)
parse_entries entry zero bytes cursor = ok ([], cursor)
parse_entries entry (suc n) bytes cursor = do
  (x, next) ← entry bytes cursor
  (xs, last) ← parse_entries entry n bytes next
  ok (x ∷ xs, last)

-- A count, at most `limit`, then the entries, up to the end of the section.
unfoldable pub parse_table {ℓ} :
    {A : Type ℓ}
    → VmError
    → ℕ
    → (List ℕ → ℕ → Result VmError (A × ℕ))
    → List ℕ
    → Result VmError (List A)
unfolding parse_entries
parse_table refusal limit entry bytes = do
  count ← read_u16 bytes 0
  guard (leb count limit) refusal
  (xs, cursor) ← parse_entries entry count bytes 2
  guard (cursor == length bytes) invalid_section
  ok xs

unfoldable pub validate_range : ℕ → ℕ → ℕ → ℕ → Result VmError (Unit {0})
unfolding checked_end
validate_range max start len total = do
  end ← checked_end max start len
  guard (leb end total) invalid_section

-- The bytes of the string at the cursor, behind their length.
unfoldable pub raw_string : ℕ → List ℕ → ℕ → Result VmError (List ℕ × ℕ)
raw_string max bytes cursor = do
  len ← read_u16 bytes cursor
  end ← checked_end max (cursor + 2) len
  raw ← get_range bytes (cursor + 2) end
  ok (raw, end)

unfoldable pub parse_string : ℕ → List ℕ → ℕ → Result VmError (List ℕ × ℕ)
unfolding raw_string
parse_string max bytes cursor = do
  (raw, end) ← raw_string max bytes cursor
  guard (is_utf8 raw) invalid_utf8
  ok (raw, end)

unfoldable pub parse_strings : ℕ → List ℕ → Result VmError (List (List ℕ))
unfolding parse_table parse_string
parse_strings max bytes = parse_table too_many_strings max_strings (parse_string max) bytes

-- The loop of `string_from_section`, at string `index` with `n` to go.
unfoldable pub string_from : ℕ → List ℕ → ℕ → ℕ → ℕ → ℕ → Result VmError (List ℕ)
unfolding raw_string
string_from max bytes id index zero cursor = err invalid_operand
string_from max bytes id index (suc n) cursor = do
  (raw, end) ← raw_string max bytes cursor
  let later = string_from max bytes id (suc index) n end
  if index == id then (guard (is_utf8 raw) invalid_utf8 >> ok raw) else later

unfoldable pub string_from_section : ℕ → List ℕ → ℕ → Result VmError (List ℕ)
unfolding string_from
string_from_section max bytes id = do
  count ← read_u16 bytes 0
  guard (leb count max_strings && ltb id count) invalid_operand
  string_from max bytes id 0 count 2

-- Where a string lies in the pool.
pub record PoolEntry : Type 0 where
  pub string_offset : ℕ
  pub string_len : ℕ

-- The loop of `parse_owned_strings`: the offsets and lengths, what the strings add to a pool of
-- `pool_len` bytes, and the cursor behind them.
unfoldable pub parse_pool : ℕ → ℕ → List ℕ → ℕ → ℕ → Result VmError ((List PoolEntry × List ℕ) × ℕ)
unfolding raw_string checked_end
parse_pool max zero bytes cursor pool_len = ok (([], []), cursor)
parse_pool max (suc n) bytes cursor pool_len = do
  (raw, end) ← raw_string max bytes cursor
  guard (is_utf8 raw) invalid_utf8
  pool_end ← checked_end max pool_len (length raw)
  guard (leb pool_end max_program_string_bytes) too_many_strings
  ((entries, pool), last) ← parse_pool max n bytes end pool_end
  ok ((record { string_offset = pool_len; string_len = length raw } ∷ entries, raw ++ pool), last)

abbrev pub filled_pool : List ℕ → List ℕ
filled_pool pool = pool ++ replicate (max_program_string_bytes - length pool) 0

unfoldable pub parse_owned_strings : ℕ → List ℕ → Result VmError (List ℕ × List PoolEntry)
unfolding parse_pool
parse_owned_strings max bytes = do
  count ← read_u16 bytes 0
  guard (leb count max_strings) too_many_strings
  ((entries, pool), cursor) ← parse_pool max count bytes 2 0
  guard (cursor == length bytes) invalid_section
  ok (filled_pool pool, entries)

unfoldable pub parse_function : ℕ → ℕ → List ℕ → ℕ → Result VmError (Function × ℕ)
unfolding validate_range
parse_function max code_len bytes cursor = do
  name_id ← read_u16 bytes cursor
  param_count ← read_u16 bytes (cursor + 2)
  local_count ← read_u16 bytes (cursor + 4)
  start ← read_u32 bytes (cursor + 6)
  len ← read_u32 bytes (cursor + 10)
  validate_range max start len code_len
  ok (
    record {
      name_id = name_id;
      param_count = param_count;
      local_count = local_count;
      start = start;
      len = len;
    },
    cursor + 14,
  )

unfoldable pub parse_functions : ℕ → List ℕ → ℕ → Result VmError (List Function)
unfolding parse_table parse_function
parse_functions max bytes code_len =
    parse_table too_many_functions max_functions (parse_function max code_len) bytes

unfoldable pub parse_handler : ℕ → ℕ → List ℕ → ℕ → Result VmError (Handler × ℕ)
unfolding validate_range
parse_handler max code_len bytes cursor = do
  event_id ← read_u16 bytes cursor
  preload ← byte_at bytes (cursor + 2)
  reserved ← byte_at bytes (cursor + 3)
  param_count ← read_u16 bytes (cursor + 4)
  local_count ← read_u16 bytes (cursor + 6)
  start ← read_u32 bytes (cursor + 8)
  len ← read_u32 bytes (cursor + 12)
  guard ((reserved == 0) && leb param_count local_count && leb local_count max_locals)
      invalid_section
  validate_range max start len code_len
  ok (
    record {
      event_id = event_id;
      preload = not (preload == 0);
      param_count = param_count;
      local_count = local_count;
      start = start;
      len = len;
    },
    cursor + 16,
  )

unfoldable pub parse_handlers : ℕ → List ℕ → ℕ → Result VmError (List Handler)
unfolding parse_table parse_handler
parse_handlers max bytes code_len =
    parse_table too_many_handlers max_handlers (parse_handler max code_len) bytes

-- `interval_ms <= 0` fails on a pattern that is 0 or has the sign bit.
abbrev pub is_interval : ℕ → Bool
is_interval interval_ms = ltb 0 interval_ms && ltb interval_ms (2 ^ 31)

unfoldable pub parse_trigger_timer : List ℕ → ℕ → Result VmError (TriggerTimerMeta × ℕ)
parse_trigger_timer bytes cursor = do
  event_id ← read_u16 bytes cursor
  repeating ← byte_at bytes (cursor + 2)
  reserved ← byte_at bytes (cursor + 3)
  interval_ms ← read_i32 bytes (cursor + 4)
  guard ((reserved == 0) && is_interval interval_ms) invalid_section
  ok (
    record { event_id = event_id; interval_ms = interval_ms; repeating = not (repeating == 0) },
    cursor + 8,
  )

unfoldable pub parse_trigger_timers : Option (List ℕ) → Result VmError (List TriggerTimerMeta)
unfolding parse_table parse_trigger_timer
parse_trigger_timers none = ok []
parse_trigger_timers (some bytes) =
    parse_table invalid_section max_triggers parse_trigger_timer bytes

unfoldable pub parse_screen : ℕ → ℕ → List ℕ → ℕ → Result VmError (Screen × ℕ)
unfolding validate_range
parse_screen max code_len bytes cursor = do
  name_id ← read_u16 bytes cursor
  start ← read_u32 bytes (cursor + 2)
  len ← read_u32 bytes (cursor + 6)
  validate_range max start len code_len
  ok (record { name_id = name_id; start = start; len = len }, cursor + 10)

unfoldable pub parse_screens : ℕ → Option (List ℕ) → ℕ → Result VmError (List Screen)
unfolding parse_table parse_screen
parse_screens max none code_len = ok []
parse_screens max (some bytes) code_len =
    parse_table too_many_screens max_screens (parse_screen max code_len) bytes
