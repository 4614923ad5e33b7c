-- ===== src/Vm/Strings/Tests.antt =====
-- compiler/rust/crates/squidvm-core/src/strings.rs: an interner that holds "abc".
use squid_script.Base.{ℕ, ◌≡◌, refl, false, Option, none, List, [], ◌∷◌, Result, ok, err}
use squid_script.Base.Utf8.{is_utf8}
use squid_script.Vm.Values.{VmError, invalid_operand, string_value, dynamic}
use squid_script.Vm.Strings.{inline, Interner, value_str, intern_dynamic}
use squid_script.Vm.Strings.Interns.{Interns}

abbrev abc : Interner
abc = record { refs = inline 0 3 false ∷ []; pool = 0x61 ∷ 0x62 ∷ 0x63 ∷ [] }

-- A program without strings.
abbrev no_string : ℕ → Result VmError (List ℕ)
no_string id = err invalid_operand

abbrev nowhere : List ℕ → Result VmError (Option ℕ)
nowhere value = ok none

-- "bc" is cut from "abc".
cut_bc :
    (intern_dynamic no_string nowhere abc (0x62 ∷ 0x63 ∷ []) false).1
    ≡ ok (string_value (dynamic 1))
unfolding intern_dynamic is_utf8
cut_bc = refl

read_bc :
    value_str no_string
      (intern_dynamic no_string nowhere abc (0x62 ∷ 0x63 ∷ []) false).0
      (string_value (dynamic 1))
    ≡ ok (0x62 ∷ 0x63 ∷ [])
unfolding intern_dynamic value_str is_utf8
read_bc = refl
