-- ===== src/Vm/Program/Tests.antt =====
-- compiler/rust/crates/squidvm-core/src/program.rs: a file with two strings, a function, a handler of
-- "tick", a screen "main" and a timer.
use squid_script.Base.{ℕ, ◌-◌, ◌^◌, ◌≡◌, ◌↔◌, refl, true, some, List, [], ◌∷◌, ok, err}
use squid_script.Base.Utf8.{is_utf8}
use squid_script.Vm.Values.{handler_not_found, read_u16, read_u32, read_i32, byte_at}
use squid_script.Vm.State.{parse_state, parse_slots}
use squid_script.Vm.Sqbc.{parse_header, validate_unique_section_kinds, section, optional_section}
use squid_script.Vm.Tables.{
  Handler, Screen, parse_strings, parse_owned_strings, parse_functions, parse_handlers,
  parse_trigger_timers, parse_screens,
}
use squid_script.Vm.Program.{Program, parse, handler, screen, program_string, find_string}
use squid_script.Vm.Program.WellFormed.{IsProgram, parse-IsProgram}
use squid_script.Vm.Program.Find.{IsEntry, handler_iff, screen_iff}
use squid_script.Vm.ProgramIndex.{ProgramIndex, from_program, index_string}
use squid_script.Vm.ProgramIndex.Pool.{from_program-index_string}

abbrev pub usize_max : ℕ
usize_max = 2 ^ 32 - 1

abbrev pub tick : List ℕ
tick = 0x74 ∷ 0x69 ∷ 0x63 ∷ 0x6b ∷ []

abbrev main : List ℕ
main = 0x6d ∷ 0x61 ∷ 0x69 ∷ 0x6e ∷ []

abbrev pub ticker_file : List ℕ
ticker_file =
    83 ∷ 81 ∷ 66 ∷ 67 ∷ 98 ∷ 0 ∷ 173 ∷ 0 ∷ 0 ∷ 0 ∷ 7 ∷ 0 ∷ 0 ∷ 0 ∷ 1 ∷ 0 ∷ 0 ∷ 0 ∷ 98 ∷ 0 ∷ 0 ∷ 0
    ∷ 14 ∷ 0 ∷ 0 ∷ 0 ∷ 2 ∷ 0 ∷ 0 ∷ 0 ∷ 112 ∷ 0 ∷ 0 ∷ 0 ∷ 2 ∷ 0 ∷ 0 ∷ 0 ∷ 3 ∷ 0 ∷ 0 ∷ 0 ∷ 114 ∷ 0 ∷ 0
    ∷ 0 ∷ 16 ∷ 0 ∷ 0 ∷ 0 ∷ 4 ∷ 0 ∷ 0 ∷ 0 ∷ 130 ∷ 0 ∷ 0 ∷ 0 ∷ 18 ∷ 0 ∷ 0 ∷ 0 ∷ 5 ∷ 0 ∷ 0 ∷ 0 ∷ 148
    ∷ 0 ∷ 0 ∷ 0 ∷ 3 ∷ 0 ∷ 0 ∷ 0 ∷ 6 ∷ 0 ∷ 0 ∷ 0 ∷ 151 ∷ 0 ∷ 0 ∷ 0 ∷ 12 ∷ 0 ∷ 0 ∷ 0 ∷ 9 ∷ 0 ∷ 0 ∷ 0
    ∷ 163 ∷ 0 ∷ 0 ∷ 0 ∷ 10 ∷ 0 ∷ 0 ∷ 0 ∷ 2 ∷ 0 ∷ 4 ∷ 0 ∷ 116 ∷ 105 ∷ 99 ∷ 107 ∷ 4 ∷ 0 ∷ 109 ∷ 97
    ∷ 105 ∷ 110 ∷ 0 ∷ 0 ∷ 1 ∷ 0 ∷ 1 ∷ 0 ∷ 0 ∷ 0 ∷ 0 ∷ 0 ∷ 2 ∷ 0 ∷ 0 ∷ 0 ∷ 1 ∷ 0 ∷ 0 ∷ 0 ∷ 1 ∷ 0 ∷ 0
    ∷ 0 ∷ 1 ∷ 0 ∷ 0 ∷ 0 ∷ 1 ∷ 0 ∷ 0 ∷ 0 ∷ 0 ∷ 0 ∷ 3 ∷ 0 ∷ 0 ∷ 0 ∷ 4 ∷ 60 ∷ 42 ∷ 1 ∷ 0 ∷ 1 ∷ 0 ∷ 2
    ∷ 0 ∷ 0 ∷ 0 ∷ 1 ∷ 0 ∷ 0 ∷ 0 ∷ 1 ∷ 0 ∷ 0 ∷ 0 ∷ 1 ∷ 0 ∷ 244 ∷ 1 ∷ 0 ∷ 0 ∷ []

abbrev on_tick : Handler
on_tick = record {
  event_id = 0;
  preload = true;
  param_count = 0;
  local_count = 1;
  start = 0;
  len = 3;
}

abbrev main_screen : Screen
main_screen = record { name_id = 1; start = 2; len = 1 }

abbrev pub ticker : Program
ticker = record {
  strings = tick ∷ main ∷ [];
  state_slots = [];
  functions = record { name_id = 1; param_count = 0; local_count = 0; start = 2; len = 1 } ∷ [];
  handlers = on_tick ∷ [];
  trigger_timers = record { event_id = 0; interval_ms = 500; repeating = true } ∷ [];
  screens = main_screen ∷ [];
  code = 4 ∷ 60 ∷ 42 ∷ [];
}

pub parse-ticker : parse usize_max ticker_file ≡ ok ticker
unfolding parse parse_header read_u16 read_u32 validate_unique_section_kinds section
    optional_section parse_owned_strings is_utf8 parse_strings parse_state parse_slots
    parse_functions parse_handlers byte_at parse_trigger_timers read_i32 parse_screens
parse-ticker = refl

handler_missing : handler ticker main ≡ err handler_not_found
unfolding handler
handler_missing = refl

find_string-main : find_string ticker main ≡ ok (some 1)
unfolding find_string
find_string-main = refl

parse-IsProgram_example : IsProgram ticker
parse-IsProgram_example = parse-IsProgram usize_max ticker_file ticker parse-ticker

handler_iff_example :
    (handler ticker tick ≡ ok on_tick)
    ↔ (IsEntry on_tick ticker.handlers × (program_string ticker on_tick.event_id ≡ ok tick))
handler_iff_example =
    handler_iff ticker tick on_tick (parse-IsProgram usize_max ticker_file ticker parse-ticker)

screen_iff_example :
    (screen ticker main ≡ ok main_screen)
    ↔ (IsEntry main_screen ticker.screens × (program_string ticker main_screen.name_id ≡ ok main))
screen_iff_example =
    screen_iff ticker main main_screen (parse-IsProgram usize_max ticker_file ticker parse-ticker)

from_program-index_string_example :
    (x : ProgramIndex) × (from_program usize_max ticker ≡ ok x)
    × ((id : ℕ) → index_string usize_max x id ≡ program_string ticker id)
from_program-index_string_example =
    from_program-index_string usize_max ticker_file ticker parse-ticker
