-- ===== src/Vm/Dispatch/Tests.antt =====
-- compiler/rust/crates/squidvm-core/src/vm.rs: events of a program in memory.
use squid_script.Base.{ℕ, Result, false, ◌≡◌, refl, List, [], ◌∷◌, ok, err}
use squid_script.Base.Utf8.{is_utf8}
use squid_script.Vm.Values.{VmError, invalid_operand, handler_not_found, null}
use squid_script.Vm.Services.{
  Service, Answer, Drawing, service_wifi_teardown, system_start_reason_text,
}
use squid_script.Vm.Program.Tests.{usize_max, tick, ticker_file, ticker, parse-ticker}
use squid_script.Vm.ProgramIndex.{ProgramIndex}
use squid_script.Vm.Machine.{Machine, Host, complete, new_machine, handler_frame, not_pending}
use squid_script.Vm.Exec.Triples.{IsValid}
use squid_script.Vm.Builtins.App.{on_system_start_reason}
use squid_script.Vm.Memory.{memory_host, vm_new, vm_new-IsValid}
use squid_script.Vm.Dispatch.{dispatch_resumable}

abbrev ticker_index : ProgramIndex
ticker_index = record {
  string_bytes = tick;
  strings = record { string_offset = 0; string_len = 4 } ∷ [];
  state_slots = ticker.state_slots;
  functions = ticker.functions;
  handlers = ticker.handlers;
  trigger_timers = ticker.trigger_timers;
  screens = ticker.screens;
  code_offset = 0;
  code_len = 3;
}

-- A sink that knows why it started, and has nothing else.
abbrev answer : (q : Service) → List (List ℕ) → List (List ℕ) × Result VmError (Answer q)
answer service_wifi_teardown h = (h, ok tt)
answer system_start_reason_text h = (h, ok (tick ∷ []))
answer q h = (h, err invalid_operand)

abbrev no_drawing : Drawing → List (List ℕ) → List (List ℕ)
no_drawing d h = h

-- The code asks for the reason of the start, and halts.
abbrev reason_code : List ℕ
reason_code = 50 ∷ 7 ∷ 42 ∷ []

abbrev host : Host (List (List ℕ))
host = memory_host usize_max reason_code answer no_drawing

abbrev on_start : ProgramIndex
on_start = record ticker_index {
  handlers =
      record { event_id = 0; preload = false; param_count = 0; local_count = 0; start = 0; len = 3 }
      ∷ [];
}

abbrev ticker_machine : Machine (List (List ℕ))
ticker_machine = new_machine usize_max on_start []

dispatch_tick : (dispatch_resumable usize_max host tick ticker_machine).1 ≡ ok complete
unfolding dispatch_resumable new_machine is_utf8 memory_host on_system_start_reason
dispatch_tick = refl

dispatch_unknown :
    (dispatch_resumable usize_max host (1 ∷ []) ticker_machine).1 ≡ err handler_not_found
unfolding dispatch_resumable new_machine is_utf8
dispatch_unknown = refl

-- The machine in the handler of "tick".
abbrev in_tick : Machine (List (List ℕ))
in_tick = record ticker_machine {
  frames =
      record {
        kind = handler_frame 0;
        start = 0;
        end = 3;
        ip = 0;
        locals =
            null ∷ null ∷ null ∷ null ∷ null ∷ null ∷ null ∷ null ∷ null ∷ null ∷ null ∷ null ∷ null
            ∷ null ∷ null ∷ null ∷ [];
        depth = 0;
        pending = not_pending;
      }
      ∷ [];
}

vm_new-IsValid_example :
    (s : Machine (List (List ℕ))) × (vm_new usize_max ticker ≡ ok s) × IsValid s
vm_new-IsValid_example = vm_new-IsValid usize_max ticker_file ticker parse-ticker
