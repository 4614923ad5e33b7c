-- ===== src/Vm/Program.antt =====
-- compiler/rust/crates/squidvm-core/src/program.rs: `Program`, which holds a whole compiled program.
pub mod WellFormed
pub mod Find
pub mod Tests
use squid_script.Base.{
  ℕ, suc, Bool, ◌&&◌, Option, none, some, List, [], ◌∷◌, length, take, bytes_eq, ltb, leb, ◌==◌,
  if◌then◌else◌, Result, ok, err, ◌>>=◌, ◌>>◌, guard, index,
}
use squid_script.Vm.Values.{VmError, too_large, invalid_header, invalid_operand, handler_not_found}
use squid_script.Vm.Limits.{max_app_file_bytes}
use squid_script.Vm.State.{StateSlot, parse_state}
use squid_script.Vm.Sqbc.{
  SqbcHeader, parse_header, record_base, validate_unique_section_kinds, section, optional_section,
}
use squid_script.Vm.Tables.{
  Function, Handler, TriggerTimerMeta, Screen, parse_strings, parse_owned_strings, parse_functions,
  parse_handlers, parse_trigger_timers, parse_screens,
}
use squid_script.Vm.Names.{validate_string_id, table_string, validate_ids, validate_names}

pub record Program : Type 0 where
  pub strings : List (List ℕ)
  pub state_slots : List StateSlot
  pub functions : List Function
  pub handlers : List Handler
  pub trigger_timers : List TriggerTimerMeta
  pub screens : List Screen
  pub code : List ℕ

unfoldable pub validate_program_tables :
    List (List ℕ)
    → List StateSlot
    → List Function
    → List Handler
    → List TriggerTimerMeta
    → List Screen
    → Result VmError (Unit {0})
unfolding validate_ids validate_names table_string validate_string_id
validate_program_tables strings slots functions handlers timers screens = do
  validate_ids (λ id. validate_string_id id (length strings)) (length strings) slots functions
      handlers timers screens
  validate_names (table_string strings) slots functions handlers timers screens

-- What `parse` does with the sections it found.
unfoldable pub parse_sections :
    ℕ
    → List ℕ
    → List ℕ
    → List ℕ
    → List ℕ
    → Option (List ℕ)
    → Option (List ℕ)
    → List ℕ
    → Result VmError Program
unfolding validate_program_tables
parse_sections max strings_bytes state functions handlers triggers screens code = do
  _ ← parse_owned_strings max strings_bytes
  strings ← parse_strings max strings_bytes
  (slots, state_count) ← parse_state state
  functions ← parse_functions max functions (length code)
  handlers ← parse_handlers max handlers (length code)
  timers ← parse_trigger_timers triggers
  screens ← parse_screens max screens (length code)
  validate_program_tables strings (take state_count slots) functions handlers timers screens
  ok (record {
    strings = strings;
    state_slots = take state_count slots;
    functions = functions;
    handlers = handlers;
    trigger_timers = timers;
    screens = screens;
    code = code;
  })

-- What `parse` does behind the header.
unfoldable pub parse_with : ℕ → List ℕ → SqbcHeader → Result VmError Program
unfolding parse_sections
parse_with max bytes header = do
  guard
      ((header.file_len == length bytes)
        && (header.header_len == record_base max header.section_count)
        && leb header.header_len (length bytes))
      invalid_header
  validate_unique_section_kinds max (take header.header_len bytes) header.section_count
  strings ← section max bytes header.section_count 1
  state ← section max bytes header.section_count 2
  functions ← section max bytes header.section_count 3
  handlers ← section max bytes header.section_count 4
  triggers ← optional_section max bytes header.section_count 9
  screens ← optional_section max bytes header.section_count 6
  code ← section max bytes header.section_count 5
  parse_sections max strings state functions handlers triggers screens code

unfoldable pub parse : ℕ → List ℕ → Result VmError Program
unfolding parse_with
parse max bytes = do
  guard (leb (length bytes) max_app_file_bytes) too_large
  header ← parse_header max bytes
  parse_with max bytes header

-- `Program::string`
unfoldable pub program_string : Program → ℕ → Result VmError (List ℕ)
program_string p id = if ltb id (length p.strings) then index p.strings id else err invalid_operand

-- The loops of `handler` and `screen`, over the entries to come.
unfoldable pub find_named {ℓ} :
    {A : Type ℓ} → (A → Result VmError (List ℕ)) → VmError → List ℕ → List A → Result VmError A
find_named name missing wanted [] = err missing
find_named name missing wanted (x ∷ xs) = do
  own ← name x
  let later = find_named name missing wanted xs
  if bytes_eq own wanted then ok x else later

unfoldable pub handler : Program → List ℕ → Result VmError Handler
unfolding find_named program_string
handler p event =
    find_named (λ (h : Handler). program_string p h.event_id) handler_not_found event p.handlers

unfoldable pub handler_preload : Program → List ℕ → Result VmError Bool
unfolding handler
handler_preload p event = handler p event >>= λ h. ok h.preload

unfoldable pub screen : Program → List ℕ → Result VmError Screen
unfolding find_named program_string
screen p name =
    find_named (λ (s : Screen). program_string p s.name_id) invalid_operand name p.screens

-- The loop of `find_string`, at string `id`.
unfoldable pub find_string_from : List ℕ → ℕ → List (List ℕ) → Option ℕ
find_string_from value id [] = none
find_string_from value id (s ∷ ss) =
    let later = find_string_from value (suc id) ss in if bytes_eq s value then some id else later

unfoldable pub find_string : Program → List ℕ → Result VmError (Option ℕ)
unfolding find_string_from
find_string p value = ok (find_string_from value 0 p.strings)

pub record TriggerTimer : Type 0 where
  pub event : List ℕ
  pub interval_ms : ℕ
  pub repeating : Bool

-- `TriggerTimers::new`, over what reads a string by its id.
unfoldable pub trigger_timers_new :
    (ℕ → Result VmError (List ℕ)) → List TriggerTimerMeta → Result VmError (List TriggerTimer)
trigger_timers_new string_of [] = ok []
trigger_timers_new string_of (meta ∷ metas) = do
  event ← string_of meta.event_id
  rest ← trigger_timers_new string_of metas
  ok (record { event = event; interval_ms = meta.interval_ms; repeating = meta.repeating } ∷ rest)

unfoldable pub trigger_timers : Program → Result VmError (List TriggerTimer)
unfolding trigger_timers_new program_string
trigger_timers p = trigger_timers_new (program_string p) p.trigger_timers
