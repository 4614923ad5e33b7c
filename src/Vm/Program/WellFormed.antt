-- ===== src/Vm/Program/WellFormed.antt =====
-- compiler/rust/crates/squidvm-core/src/program.rs: the programs that `Program::parse` accepts.
use squid_script.Base.{
  ℕ, ◌≤◌, ◌<◌, ◌≡◌, refl, ap, ◌∙◌, length-take, ◌&&◌, Option, List, All, length, take, leb, ◌==◌,
  ok, ◌>>◌, >>=-eq-ok, guard, arith, subst,
}
use squid_script.Vm.Limits.{
  max_app_file_bytes, max_strings, max_functions, max_handlers, max_triggers, max_screens,
}
use squid_script.Vm.Values.{too_large, invalid_header}
use squid_script.Vm.State.{StateSlot, max_state, parse_state}
use squid_script.Vm.State.Typed.{IsSlot, parse_state-IsSlot}
use squid_script.Vm.Sqbc.{
  SqbcHeader, parse_header, record_base, validate_unique_section_kinds, section, optional_section,
}
use squid_script.Vm.Tables.{
  Function, Handler, TriggerTimerMeta, Screen, PoolEntry, parse_strings, parse_owned_strings,
  parse_functions, parse_handlers, parse_trigger_timers, parse_screens,
}
use squid_script.Vm.Tables.Entries.{
  IsUtf8, IsFunction, IsHandler, IsTimer, IsScreen, parse_strings-IsUtf8,
  parse_functions-IsFunction, parse_handlers-IsHandler, parse_trigger_timers-IsTimer,
  parse_screens-IsScreen,
}
use squid_script.Vm.Names.{
  validate_string_id, validate_value_string_refs, table_string, validate_ids, validate_names,
}
use squid_script.Vm.Names.Unique.{
  each-All, IsUnique, validate_unique_names-IsUnique, validate_string_id-lt, RefersBelow,
  validate_value_string_refs-RefersBelow,
}
use squid_script.Vm.Program.{Program, validate_program_tables, parse_sections, parse_with, parse}

-- The tables are within the VM's limits, and their entries are sound.
pub record IsSound (p : Program) : Type 0 where
  pub strings : (length p.strings ≤ max_strings) × All IsUtf8 p.strings
  pub state_slots : (length p.state_slots ≤ max_state) × All IsSlot p.state_slots
  pub functions :
      (length p.functions ≤ max_functions) × All (IsFunction (length p.code)) p.functions
  pub handlers : (length p.handlers ≤ max_handlers) × All (IsHandler (length p.code)) p.handlers
  pub timers : (length p.trigger_timers ≤ max_triggers) × All IsTimer p.trigger_timers
  pub screens : (length p.screens ≤ max_screens) × All (IsScreen (length p.code)) p.screens

-- Every string that a table refers to is there.
pub record IsLinked (p : Program) : Type 0 where
  pub slots :
      All
        (λ s. (s.name_id < length p.strings) × RefersBelow (length p.strings) s.default)
        p.state_slots
  pub functions : All (λ f. f.name_id < length p.strings) p.functions
  pub handlers : All (λ h. h.event_id < length p.strings) p.handlers
  pub timers : All (λ t. t.event_id < length p.strings) p.trigger_timers
  pub screens : All (λ s. s.name_id < length p.strings) p.screens

-- No two entries of a table have the same name.
pub record IsNamed (p : Program) : Type 0 where
  pub slots : IsUnique (λ (s : StateSlot). table_string p.strings s.name_id) p.state_slots
  pub functions : IsUnique (λ (f : Function). table_string p.strings f.name_id) p.functions
  pub handlers : IsUnique (λ (h : Handler). table_string p.strings h.event_id) p.handlers
  pub timers :
      IsUnique (λ (t : TriggerTimerMeta). table_string p.strings t.event_id) p.trigger_timers
  pub screens : IsUnique (λ (s : Screen). table_string p.strings s.name_id) p.screens

abbrev pub IsProgram : Program → Type 0
IsProgram p = IsSound p × IsLinked p × IsNamed p

slot_check :
    (n : ℕ) (s : StateSlot) (u : Unit {0})
    → (validate_string_id s.name_id n >> validate_value_string_refs s.default n) ≡ ok u
    → (s.name_id < n) × RefersBelow n s.default
slot_check n s u e =
    let (u', named, e₁) = >>=-eq-ok (validate_string_id s.name_id n) _ e in
    (validate_string_id-lt s.name_id n named, validate_value_string_refs-RefersBelow s.default n e₁)

validate_ids-IsLinked :
    (p : Program) {u : Unit {0}}
    → validate_ids
        (λ id. validate_string_id id (length p.strings))
        (length p.strings)
        p.state_slots
        p.functions
        p.handlers
        p.trigger_timers
        p.screens
      ≡ ok u
    → IsLinked p
unfolding validate_ids
validate_ids-IsLinked p e =
    let n = length p.strings in
    let (_, slots, e₁) = >>=-eq-ok _ _ e in
    let (_, functions, e₂) = >>=-eq-ok _ _ e₁ in
    let (_, handlers, e₃) = >>=-eq-ok _ _ e₂ in
    let (_, timers, screens) = >>=-eq-ok _ _ e₃ in
    record {
      slots = each-All _ _ (slot_check n) p.state_slots slots;
      functions = each-All _ _ (λ f _ h. validate_string_id-lt f.name_id n h) p.functions functions;
      handlers = each-All _ _ (λ f _ h. validate_string_id-lt f.event_id n h) p.handlers handlers;
      timers = each-All _ _ (λ f _ h. validate_string_id-lt f.event_id n h) p.trigger_timers timers;
      screens = each-All _ _ (λ f _ h. validate_string_id-lt f.name_id n h) p.screens screens;
    }

validate_names-IsNamed :
    (p : Program) {u : Unit {0}}
    → validate_names
        (table_string p.strings)
        p.state_slots
        p.functions
        p.handlers
        p.trigger_timers
        p.screens
      ≡ ok u
    → IsNamed p
unfolding validate_names
validate_names-IsNamed p e =
    let (_, slots, e₁) = >>=-eq-ok _ _ e in
    let (_, functions, e₂) = >>=-eq-ok _ _ e₁ in
    let (_, handlers, e₃) = >>=-eq-ok _ _ e₂ in
    let (_, timers, screens) = >>=-eq-ok _ _ e₃ in
    record {
      slots = validate_unique_names-IsUnique _ p.state_slots slots;
      functions = validate_unique_names-IsUnique _ p.functions functions;
      handlers = validate_unique_names-IsUnique _ p.handlers handlers;
      timers = validate_unique_names-IsUnique _ p.trigger_timers timers;
      screens = validate_unique_names-IsUnique _ p.screens screens;
    }

validate_program_tables-lem :
    (p : Program) {u : Unit {0}}
    → validate_program_tables p.strings p.state_slots p.functions p.handlers p.trigger_timers
        p.screens
      ≡ ok u
    → IsLinked p × IsNamed p
unfolding validate_program_tables
validate_program_tables-lem p e =
    let (_, linked, named) = >>=-eq-ok _ _ e in
    (validate_ids-IsLinked p linked, validate_names-IsNamed p named)

parse_state-counted :
    (bytes : List ℕ) (slots : List StateSlot) (count : ℕ)
    → parse_state bytes ≡ ok (slots, count)
    → (length (take count slots) ≤ max_state) × All IsSlot (take count slots)
parse_state-counted bytes slots count e =
    let (few, _, typed) = parse_state-IsSlot bytes slots count e in
    (omega (arith, length-take count slots), typed)

parse_sections-IsProgram :
    (max : ℕ) (strings state functions handlers : List ℕ) (triggers screens : Option (List ℕ))
    (code : List ℕ) (p : Program)
    → parse_sections max strings state functions handlers triggers screens code ≡ ok p
    → IsProgram p × (p.code ≡ code)
unfolding parse_sections
parse_sections-IsProgram max strings state functions handlers triggers screens code p e =
    let (_, _, e₁) = >>=-eq-ok (parse_owned_strings max strings) _ e in
    let (ss, ss_ok, e₂) = >>=-eq-ok (parse_strings max strings) _ e₁ in
    let ((slots, count), slots_ok, e₃) = >>=-eq-ok (parse_state state) _ e₂ in
    let (fs, fs_ok, e₄) = >>=-eq-ok (parse_functions max functions (length code)) _ e₃ in
    let (hs, hs_ok, e₅) = >>=-eq-ok (parse_handlers max handlers (length code)) _ e₄ in
    let (ts, ts_ok, e₆) = >>=-eq-ok (parse_trigger_timers triggers) _ e₅ in
    let (cs, cs_ok, e₇) = >>=-eq-ok (parse_screens max screens (length code)) _ e₆ in
    let (_, tables, e₈) =
      >>=-eq-ok (validate_program_tables ss (take count slots) fs hs ts cs) _ e₇ in
    let q : Program = record {
      strings = ss;
      state_slots = take count slots;
      functions = fs;
      handlers = hs;
      trigger_timers = ts;
      screens = cs;
      code = code;
    } in
    let (linked, named) = validate_program_tables-lem q tables in
    let same : q ≡ p = ground arith in
    subst (λ r. IsProgram r × (r.code ≡ code)) same
      (
        (
          record {
            strings = parse_strings-IsUtf8 max strings ss ss_ok;
            state_slots = parse_state-counted state slots count slots_ok;
            functions = parse_functions-IsFunction max functions (length code) fs fs_ok;
            handlers = parse_handlers-IsHandler max handlers (length code) hs hs_ok;
            timers = parse_trigger_timers-IsTimer triggers ts ts_ok;
            screens = parse_screens-IsScreen max screens (length code) cs cs_ok;
          },
          linked,
          named,
        ),
        refl,
      )

parse_with-sections :
    (max : ℕ) (bytes : List ℕ) (h : SqbcHeader) (p : Program)
    → parse_with max bytes h ≡ ok p
    → (strings state functions handlers code : List ℕ) × (triggers screens : Option (List ℕ))
      × (parse_sections max strings state functions handlers triggers screens code ≡ ok p)
unfolding parse_with
parse_with-sections max bytes h p e =
    let (_, _, e₃) =
      >>=-eq-ok
        (guard
          ((h.file_len == length bytes)
            && (h.header_len == record_base max h.section_count)
            && leb h.header_len (length bytes))
          invalid_header)
        _ e in
    let (_, _, e₄) =
      >>=-eq-ok (validate_unique_section_kinds max (take h.header_len bytes) h.section_count) _
        e₃ in
    let (strings, _, e₅) = >>=-eq-ok (section max bytes h.section_count 1) _ e₄ in
    let (state, _, e₆) = >>=-eq-ok (section max bytes h.section_count 2) _ e₅ in
    let (functions, _, e₇) = >>=-eq-ok (section max bytes h.section_count 3) _ e₆ in
    let (handlers, _, e₈) = >>=-eq-ok (section max bytes h.section_count 4) _ e₇ in
    let (triggers, _, e₉) = >>=-eq-ok (optional_section max bytes h.section_count 9) _ e₈ in
    let (screens, _, e₁₀) = >>=-eq-ok (optional_section max bytes h.section_count 6) _ e₉ in
    let (code, _, e₁₁) = >>=-eq-ok (section max bytes h.section_count 5) _ e₁₀ in
    (strings, state, functions, handlers, code, triggers, screens, e₁₁)

pub parse-sections :
    (max : ℕ) (bytes : List ℕ) (p : Program)
    → parse max bytes ≡ ok p
    → (strings state functions handlers code : List ℕ) × (triggers screens : Option (List ℕ))
      × (parse_sections max strings state functions handlers triggers screens code ≡ ok p)
unfolding parse
parse-sections max bytes p e =
    let (_, _, e₁) = >>=-eq-ok (guard (leb (length bytes) max_app_file_bytes) too_large) _ e in
    let (h, _, e₂) = >>=-eq-ok (parse_header max bytes) _ e₁ in parse_with-sections max bytes h p e₂

pub parse_sections-strings :
    (max : ℕ) (strings state functions handlers : List ℕ) (triggers screens : Option (List ℕ))
    (code : List ℕ) (p : Program)
    → parse_sections max strings state functions handlers triggers screens code ≡ ok p
    → (held : List ℕ × List PoolEntry) × (parse_owned_strings max strings ≡ ok held)
      × (parse_strings max strings ≡ ok p.strings)
unfolding parse_sections
parse_sections-strings max strings state functions handlers triggers screens code p e =
    let (held, held_ok, e₁) = >>=-eq-ok (parse_owned_strings max strings) _ e in
    let (ss, ss_ok, e₂) = >>=-eq-ok (parse_strings max strings) _ e₁ in
    let ((slots, count), slots_ok, e₃) = >>=-eq-ok (parse_state state) _ e₂ in
    let (fs, fs_ok, e₄) = >>=-eq-ok (parse_functions max functions (length code)) _ e₃ in
    let (hs, hs_ok, e₅) = >>=-eq-ok (parse_handlers max handlers (length code)) _ e₄ in
    let (ts, ts_ok, e₆) = >>=-eq-ok (parse_trigger_timers triggers) _ e₅ in
    let (cs, cs_ok, e₇) = >>=-eq-ok (parse_screens max screens (length code)) _ e₆ in
    let (_, tables, e₈) =
      >>=-eq-ok (validate_program_tables ss (take count slots) fs hs ts cs) _ e₇ in
    let same : ss ≡ p.strings = ground arith in
    (held, held_ok, ss_ok ∙ ap (λ (t : List (List ℕ)). ok t) same)

-- A program that `Program::parse` accepts, on any target, is within the limits of the VM; its code
-- ranges lie in its code and its handlers have room for their parameters; every string id is in range
-- and every string UTF-8; state defaults have their slot's type; and no two entries of a table have
-- the same name.
pub parse-IsProgram :
    (max : ℕ) (bytes : List ℕ) (p : Program) → parse max bytes ≡ ok p → IsProgram p
parse-IsProgram max bytes p e =
    let (strings, state, functions, handlers, code, triggers, screens, found) =
      parse-sections max bytes p e in
    (parse_sections-IsProgram max strings state functions handlers triggers screens code p found).0
