-- ===== src/Vm/ProgramIndex.antt =====
-- compiler/rust/crates/squidvm-core/src/program.rs and reader.rs: `ProgramIndex`, the tables of a
-- program whose code stays in its file. `read offset len` stands for `SqbcReader::read_exact_at` with
-- a buffer of `len` bytes; a reader answers the same range with the same bytes.
pub mod Pool
pub mod Readers
use squid_script.Base.{
  ℕ, zero, suc, ◌+◌, Bool, ◌&&◌, Option, none, some, List, [], ◌∷◌, ◌++◌, length, take, ltb, leb,
  ◌==◌, true, if◌then◌else◌, Result, ok, ◌>>=◌, ◌>>◌, guard, ok_or, index,
}
use squid_script.Base.Utf8.{is_utf8}
use squid_script.Vm.Values.{
  VmError, invalid_header, missing_section, invalid_section, invalid_operand, invalid_utf8,
  too_many_strings, handler_not_found,
}
use squid_script.Vm.Limits.{max_program_string_bytes}
use squid_script.Vm.State.{StateSlot, parse_state}
use squid_script.Vm.Sqbc.{
  sqbc_header_len, SqbcSection, checked_end, get_range, parse_header, parse_section_record,
  validate_unique_section_kinds,
}
use squid_script.Vm.Tables.{
  Function, Handler, TriggerTimerMeta, Screen, PoolEntry, filled_pool, parse_owned_strings,
  parse_functions, parse_handlers, parse_trigger_timers, parse_screens,
}
use squid_script.Vm.Names.{validate_string_id, validate_ids, validate_names}
use squid_script.Vm.Program.{Program, TriggerTimer, find_named, trigger_timers_new}

pub record ProgramIndex : Type 0 where
  pub string_bytes : List ℕ
  pub strings : List PoolEntry
  pub state_slots : List StateSlot
  pub functions : List Function
  pub handlers : List Handler
  pub trigger_timers : List TriggerTimerMeta
  pub screens : List Screen
  pub code_offset : ℕ
  pub code_len : ℕ

-- The loop of `from_program`, from a pool of `pool_len` bytes on.
unfoldable pub pool_strings : ℕ → ℕ → List (List ℕ) → Result VmError (List PoolEntry × List ℕ)
unfolding checked_end
pool_strings max pool_len [] = ok ([], [])
pool_strings max pool_len (raw ∷ raws) = do
  pool_end ← checked_end max pool_len (length raw)
  guard (leb pool_end max_program_string_bytes && leb (length raw) 65535) too_many_strings
  (entries, pool) ← pool_strings max pool_end raws
  ok (record { string_offset = pool_len; string_len = length raw } ∷ entries, raw ++ pool)

unfoldable pub from_program : ℕ → Program → Result VmError ProgramIndex
unfolding pool_strings
from_program max p = do
  (entries, pool) ← pool_strings max 0 p.strings
  ok (record {
    string_bytes = filled_pool pool;
    strings = entries;
    state_slots = p.state_slots;
    functions = p.functions;
    handlers = p.handlers;
    trigger_timers = p.trigger_timers;
    screens = p.screens;
    code_offset = 0;
    code_len = length p.code;
  })

-- `ProgramIndex::string`
unfoldable pub index_string : ℕ → ProgramIndex → ℕ → Result VmError (List ℕ)
unfolding checked_end get_range
index_string max x id = do
  guard (ltb id (length x.strings)) invalid_operand
  entry ← index x.strings id
  end ← checked_end max entry.string_offset entry.string_len
  raw ← get_range x.string_bytes entry.string_offset end
  guard (is_utf8 raw) invalid_utf8
  ok raw

unfoldable pub validate_index_string_id : ℕ → ProgramIndex → ℕ → Result VmError (Unit {0})
unfolding validate_string_id index_string
validate_index_string_id max x id = do
  validate_string_id id (length x.strings)
  _ ← index_string max x id
  ok tt

unfoldable pub validate_program_index_tables : ℕ → ProgramIndex → Result VmError (Unit {0})
unfolding validate_ids validate_names validate_index_string_id index_string
validate_program_index_tables max x = do
  validate_ids (validate_index_string_id max x) (length x.strings) x.state_slots x.functions
      x.handlers x.trigger_timers x.screens
  validate_names (index_string max x) x.state_slots x.functions x.handlers x.trigger_timers
      x.screens

-- The sections that the loop over the section records has met.
pub record Sections : Type 0 where
  pub strings : Option SqbcSection
  pub state : Option SqbcSection
  pub functions : Option SqbcSection
  pub handlers : Option SqbcSection
  pub code : Option SqbcSection
  pub screens : Option SqbcSection
  pub device_bindings : Option SqbcSection
  pub triggers : Option SqbcSection

abbrev pub no_sections : Sections
no_sections = record {
  strings = none;
  state = none;
  functions = none;
  handlers = none;
  code = none;
  screens = none;
  device_bindings = none;
  triggers = none;
}

-- The match on a record's kind.
unfoldable pub note_section : SqbcSection → Sections → Sections
note_section r s =
    if r.kind == 1
    then record s { strings = some r }
    else if r.kind == 2
    then record s { state = some r }
    else if r.kind == 3
    then record s { functions = some r }
    else if r.kind == 4
    then record s { handlers = some r }
    else if r.kind == 5
    then record s { code = some r }
    else if r.kind == 6
    then record s { screens = some r }
    else if r.kind == 8
    then record s { device_bindings = some r }
    else if r.kind == 9
    then record s { triggers = some r }
    else s

-- The loop over the records, at `index` with `n` to go.
unfoldable pub note_sections : ℕ → List ℕ → ℕ → ℕ → Sections → Result VmError Sections
unfolding note_section
note_sections max header_bytes index zero found = ok found
note_sections max header_bytes index (suc n) found = do
  r ← parse_section_record max header_bytes index
  note_sections max header_bytes (suc index) n (note_section r found)

-- `record.is_some_and(|section| section.len > scratch.len())`, negated.
abbrev pub fits : ℕ → Option SqbcSection → Bool
fits scratch_len none = true
fits scratch_len (some r) = leb r.len scratch_len

module _ (max : ℕ) (read : ℕ → ℕ → Result VmError (List ℕ)) (scratch_len : ℕ) where
  -- The sections of a file, through a scratch buffer of `scratch_len` bytes, and the header's bytes,
  -- which are left in the buffer.
  unfoldable pub reader_sections : Result VmError (Sections × List ℕ)
  unfolding note_sections
  reader_sections = do
    fixed_header ← read 0 sqbc_header_len
    header ← parse_header max fixed_header
    guard (leb header.header_len scratch_len) invalid_header
    header_bytes ← read 0 header.header_len
    validate_unique_section_kinds max header_bytes header.section_count
    found ← note_sections max header_bytes 0 header.section_count no_sections
    ok (found, header_bytes)

  -- `if let Some(section) = ... { Some(&scratch[..section.len]) } else { None }`, after the read.
  unfoldable pub read_optional : Option SqbcSection → Result VmError (Option (List ℕ))
  read_optional none = ok none
  read_optional (some r) = read r.offset r.len >>= λ bytes. ok (some bytes)

  -- What `parse_from_reader_in_place` does with the sections that it must have.
  unfoldable pub read_tables :
      SqbcSection
      → SqbcSection
      → SqbcSection
      → SqbcSection
      → SqbcSection
      → Sections
      → Result VmError ProgramIndex
  unfolding read_optional validate_program_index_tables
  read_tables strings state functions handlers code found = do
    guard
        (leb strings.len scratch_len
          && leb state.len scratch_len
          && leb functions.len scratch_len
          && leb handlers.len scratch_len
          && fits scratch_len found.triggers
          && fits scratch_len found.screens)
        invalid_section
    (string_bytes, entries) ← parse_owned_strings max (← read strings.offset strings.len)
    (slots, count) ← parse_state (← read state.offset state.len)
    functions ← parse_functions max (← read functions.offset functions.len) code.len
    handlers ← parse_handlers max (← read handlers.offset handlers.len) code.len
    timers ← parse_trigger_timers (← read_optional found.triggers)
    screens ← parse_screens max (← read_optional found.screens) code.len
    let x : ProgramIndex = record {
      string_bytes = string_bytes;
      strings = entries;
      state_slots = take count slots;
      functions = functions;
      handlers = handlers;
      trigger_timers = timers;
      screens = screens;
      code_offset = code.offset;
      code_len = code.len;
    }
    validate_program_index_tables max x
    ok x

  unfoldable pub parse_from_reader : Result VmError ProgramIndex
  unfolding reader_sections read_tables
  parse_from_reader = do
    (found, _) ← reader_sections
    strings ← ok_or found.strings missing_section
    state ← ok_or found.state missing_section
    functions ← ok_or found.functions missing_section
    handlers ← ok_or found.handlers missing_section
    code ← ok_or found.code missing_section
    read_tables strings state functions handlers code found

-- `SliceSqbcReader::read_exact_at`
unfoldable pub slice_reader : ℕ → List ℕ → ℕ → ℕ → Result VmError (List ℕ)
unfolding checked_end get_range
slice_reader max bytes offset len = checked_end max offset len >>= λ end. get_range bytes offset end

-- `ProgramIndex::parse`
unfoldable pub parse_index : ℕ → List ℕ → ℕ → Result VmError ProgramIndex
unfolding parse_from_reader slice_reader
parse_index max bytes scratch_len = parse_from_reader max (slice_reader max bytes) scratch_len

-- An entry with its place in the table.
abbrev pub enumerate {ℓ} : {A : Type ℓ} → ℕ → List A → List (ℕ × A)
enumerate i [] = []
enumerate i (x ∷ xs) = (i, x) ∷ enumerate (suc i) xs

-- `ProgramIndex::handler`
unfoldable pub index_handler : ℕ → ProgramIndex → List ℕ → Result VmError (ℕ × Handler)
unfolding find_named index_string
index_handler max x event =
    find_named (λ (h : ℕ × Handler). index_string max x h.1.event_id) handler_not_found event
      (enumerate 0 x.handlers)

-- `ProgramIndex::screen`
unfoldable pub index_screen : ℕ → ProgramIndex → List ℕ → Result VmError (ℕ × Screen)
unfolding find_named index_string
index_screen max x name =
    find_named (λ (s : ℕ × Screen). index_string max x s.1.name_id) invalid_operand name
      (enumerate 0 x.screens)

-- `ProgramIndex::trigger_timers`
unfoldable pub index_trigger_timers : ℕ → ProgramIndex → Result VmError (List TriggerTimer)
unfolding trigger_timers_new index_string
index_trigger_timers max x = trigger_timers_new (index_string max x) x.trigger_timers
