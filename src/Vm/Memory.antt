-- ===== src/Vm/Memory.antt =====
-- compiler/rust/crates/squidvm-core/src/vm.rs: `Vm`, which runs a program that is in memory, and its
-- host. Of the host's state there is the list of traced messages, the last one first.
use squid_script.Base.{
  ℕ, ◌≡◌, refl, false, none, List, [], ◌∷◌, Result, ok, ◌>>=◌, expect, Settles, Settles-bind,
}
use squid_script.Vm.Values.{VmError}
use squid_script.Vm.Services.{Service, Answer, Drawing, WifiScanNetwork, service_wifi_scan_network}
use squid_script.Vm.Sqbc.{checked_end}
use squid_script.Vm.Program.{Program, parse}
use squid_script.Vm.ProgramIndex.{slice_reader, from_program}
use squid_script.Vm.ProgramIndex.Pool.{from_program-index_string}
use squid_script.Vm.Machine.{Host, Machine, new_machine}
use squid_script.Vm.Exec.Triples.{IsValid}
use squid_script.Vm.Exec.Safe.{Returns, NameFits, checked_end-Settles, get_range-Settles}
use squid_script.Vm.Dispatch.Event.{new_machine-IsValid}

-- `InMemoryVmHost`: it has no storage for the state, and its sink, a `TraceSink` of the embedder's, has
-- the methods of the builtins.
unfoldable pub memory_host :
    ℕ
    → List ℕ
    → ((q : Service) → List (List ℕ) → List (List ℕ) × Result VmError (Answer q))
    → (Drawing → List (List ℕ) → List (List ℕ))
    → Host (List (List ℕ))
unfolding slice_reader
memory_host max code call draw = record {
  read_exact_at = λ h offset len. (h, slice_reader max code offset len);
  should_defer_read = λ h offset len. (h, ok false);
  trace = λ h message. message ∷ h;
  load_state = λ h. (h, ok none);
  save_state = λ h bytes. (h, ok tt);
  reset_persistent = λ h. (h, ok tt);
  call = call;
  draw = draw;
}

-- `Vm::new`, which panics where the program does not fit an index.
unfoldable pub vm_new : ℕ → Program → Result VmError (Machine (List (List ℕ)))
unfolding from_program new_machine
vm_new max p = do index ← expect (from_program max p); ok (new_machine max index [])

pub memory_host-Returns :
    (max : ℕ) (code : List ℕ)
    (call : (q : Service) → List (List ℕ) → List (List ℕ) × Result VmError (Answer q))
    (draw : Drawing → List (List ℕ) → List (List ℕ))
    → ((q : Service) (h : List (List ℕ)) → Settles (call q h).1)
    → ((number : ℕ) (h : List (List ℕ)) (answer : WifiScanNetwork)
        → (call (service_wifi_scan_network number) h).1 ≡ ok answer
        → NameFits answer.network)
    → Returns (memory_host max code call draw)
unfolding memory_host slice_reader
memory_host-Returns max code call draw returns fits = record {
  read_returns = λ h offset len.
      Settles-bind (checked_end max offset len) _ (checked_end-Settles max offset len)
        λ end _. get_range-Settles code offset end;
  defer_returns = λ h offset len. tt;
  call_returns = returns;
  scan_fits = fits;
}

-- `Vm::new` of a program that `Program::parse` accepts does not panic, and makes a valid machine.
pub vm_new-IsValid :
    (max : ℕ) (bytes : List ℕ) (p : Program)
    → parse max bytes ≡ ok p
    → (s : Machine (List (List ℕ))) × (vm_new max p ≡ ok s) × IsValid s
unfolding vm_new
vm_new-IsValid max bytes p e =
    let (x, made, _) = from_program-index_string max bytes p e in
    (new_machine max x [], rw made refl, new_machine-IsValid max x [])
