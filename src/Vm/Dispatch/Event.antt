-- ===== src/Vm/Dispatch/Event.antt =====
-- compiler/rust/crates/squidvm-core/src/vm.rs: the dispatch of an event.
use squid_script.Base.{ℕ, Result, Settles, arith}
use squid_script.Vm.Values.{VmError}
use squid_script.Vm.ProgramIndex.{ProgramIndex}
use squid_script.Vm.Machine.{Machine, new_machine}
use squid_script.Vm.Exec.{M}
use squid_script.Vm.Exec.Triples.{IsValid, At}

-- A new machine is valid.
pub new_machine-IsValid :
    {H : Type 0} (max : ℕ) (x : ProgramIndex) (host : H) → IsValid (new_machine max x host)
unfolding new_machine
new_machine-IsValid max x host = record {
  stack_fits = omega arith;
  frames_fit = omega arith;
  locals_full = tt;
  strings_acyclic = λ k source offset len retained j at d. cc;
}

module _ {H : Type 0} where
  -- A valid machine, and a result.
  abbrev pub IsSafe : {A : Type 0} → Machine H × Result VmError A → Type 0
  IsSafe (s, r) = IsValid s × Settles r

  -- What runs safely from a machine that counts `i` instructions and has at most `f` frames.
  record IsSafeAt {A : Type 0} (i f : ℕ) (m : M H A) : Type 0 where
    safe : (s : Machine H) → At i f s → IsSafe (m s)
