-- ===== src/Vm/Builtins.antt =====
-- compiler/rust/crates/squidvm-core/src/vm.rs: `call_builtin`. An arm of it is a function of the module
-- of its family; those on the screens and the state, which `execute_resume_frames` and
-- `call_builtin_resumable` take before, are errors here.
pub mod Operands
pub mod Names
pub mod Records
pub mod Display
pub mod App
pub mod Wifi
pub mod Content
pub mod Safe
use squid_script.Base.{ℕ, true, List, [], ◌∷◌, length, drop, leb, ◌==◌, if◌then◌else◌, ok, front}
use squid_script.Vm.Values.{invalid_operand, stack_underflow}
use squid_script.Vm.Services.{debug_print, service_wifi_teardown}
use squid_script.Vm.Machine.{Host}
use squid_script.Vm.Exec.{M, ◌>>=◌, ◌>>◌, fail, reads, update, guard}
use squid_script.Vm.Builtins.Operands.{resolver, service, draws}
use mathlib.Core.List.{reverse}
use squid_script.Vm.Builtins.Display.{display_arms}
use squid_script.Vm.Builtins.App.{app_arms}
use squid_script.Vm.Builtins.Wifi.{wifi_arms}
use squid_script.Vm.Builtins.Content.{content_arms}

-- The arm of a number, or what follows where there is none.
unfoldable pub choose :
    {H : Type 0} → ℕ → List (ℕ × M H (Unit {0})) → M H (Unit {0}) → M H (Unit {0})
choose number [] other = other
choose number ((own, arm) ∷ arms) other =
    let later = choose number arms other in if number == own then arm else later

module _ {H : Type 0} (max : ℕ) (host : Host H) where
  -- "app.exit"
  unfoldable pub on_app_exit : M H (Unit {0})
  unfolding service
  on_app_exit = do
    service host service_wifi_teardown
    update (λ s. record s { exited = true })
    update (λ s. record s {
      host = host.trace s.host (97 ∷ 112 ∷ 112 ∷ 46 ∷ 101 ∷ 120 ∷ 105 ∷ 116 ∷ []);
    })

  -- The values are a slice of the stack, whose top is its last.
  unfoldable pub on_debug_print : ℕ → M H (Unit {0})
  unfolding resolver draws
  on_debug_print count = do
    held ← reads (λ s. ok s.stack)
    guard (leb count (length held)) stack_underflow
    values ← reads (λ _. front count held)
    strings ← resolver
    draws host (debug_print strings (reverse values))
    update (λ s. record s { stack = drop count s.stack })

  unfoldable pub call_builtin : ℕ → ℕ → M H (Unit {0})
  unfolding choose on_app_exit on_debug_print
  call_builtin number arg_count =
      choose number ((0x10, on_app_exit) ∷ (0x04, on_debug_print arg_count) ∷ []) (
        choose number (display_arms max host) (
          choose number (app_arms max host) (
            choose number (wifi_arms max host)
              (choose number (content_arms max host) (fail invalid_operand)))))
