-- ===== src/Vm/Instructions/Tests.antt =====
-- compiler/rust/crates/squidvm-core/src/vm.rs: an addition that is out of range.
use squid_script.Base.{ℕ, ◌≡◌, true, List, [], ok, arith}
use squid_script.Vm.Values.{Value, i32_value, bool_value}
use squid_script.Vm.ProgramIndex.{ProgramIndex}
use squid_script.Vm.Machine.{Machine, new_machine}
use squid_script.Vm.Instructions.{operator}
use squid_script.Vm.Instructions.Overflow.{operator-overflow}

abbrev no_program : ProgramIndex
no_program = record {
  string_bytes = [];
  strings = [];
  state_slots = [];
  functions = [];
  handlers = [];
  trigger_timers = [];
  screens = [];
  code_offset = 0;
  code_len = 0;
}

abbrev idle : Machine (List ℕ)
idle = new_machine 4294967295 no_program []

operator-overflow_example :
    (sum : Value) × (operator 4294967295 20 (i32_value 2147483647) (i32_value 1) idle
      ≡ (idle, ok sum))
    × (operator 4294967295 24 sum (i32_value 2147483647) idle ≡ (idle, ok (bool_value true)))
operator-overflow_example =
    operator-overflow 4294967295 2147483647 1 idle (omega arith) (omega arith) (omega arith)
