-- ===== src/Vm/Builtins/Safe.antt =====
-- compiler/rust/crates/squidvm-core/src/vm.rs: what a builtin keeps of the machine.
use squid_script.Base.{
  ℕ, true, List, [], ◌∷◌, length, drop, leb, ◌==◌, ok, front, All, Settles, arith,
}
use squid_script.Vm.Values.{invalid_operand, stack_underflow}
use squid_script.Vm.Services.{debug_print, service_wifi_teardown}
use squid_script.Vm.Machine.{Host}
use squid_script.Vm.Exec.{M, update}
use squid_script.Vm.Exec.Triples.{
  Stays, Stays-bind, fail-Stays, reads-Stays, guard-then-Stays, if-Stays,
}
use squid_script.Vm.Exec.Safe.{Returns, At-same, At-stack}
use squid_script.Vm.Builtins.Operands.Safe.{◌⨾◌, resolver-Stays, service-Stays, draws-Stays}
use mathlib.Core.List.{reverse}
use squid_script.Base.{length-drop, refl}
use squid_script.Vm.Builtins.{choose, on_app_exit, on_debug_print, call_builtin}
use squid_script.Vm.Builtins.Display.{display_arms}
use squid_script.Vm.Builtins.Display.Safe.{display_arms-Stay}
use squid_script.Vm.Builtins.App.{app_arms}
use squid_script.Vm.Builtins.App.Safe.{app_arms-Stay}
use squid_script.Vm.Builtins.Wifi.{wifi_arms}
use squid_script.Vm.Builtins.Wifi.Safe.{wifi_arms-Stay}
use squid_script.Vm.Builtins.Content.{content_arms}
use squid_script.Vm.Builtins.Content.Safe.{content_arms-Stay}

choose-Stays :
    {H : Type 0} (number : ℕ) (arms : List (ℕ × M H (Unit {0}))) (other : M H (Unit {0}))
    → All (λ (arm : ℕ × M H (Unit {0})). Stays arm.1) arms
    → Stays other
    → Stays (choose number arms other)
unfolding choose
choose-Stays number [] other all h = h
choose-Stays number ((own, arm) ∷ arms) other all h =
    if-Stays (number == own) _ _ all.0 (choose-Stays number arms other all.1 h)

drop-Stays :
    {H : Type 0} (count : ℕ) → Stays {H = H} (update (λ s. record s { stack = drop count s.stack }))
drop-Stays count = record {
  stays = λ i f s at.
      let fits = at.valid.stack_fits in
      (At-stack i f s (drop count s.stack) (omega (arith, length-drop count s.stack)) at, tt);
}

exit-Stays : {H : Type 0} → Stays {H = H} (update (λ s. record s { exited = true }))
exit-Stays = record { stays = λ i f s at. (At-same i f s _ refl refl refl refl at, tt) }

trace-Stays :
    {H : Type 0} (host : Host H) (message : List ℕ)
    → Stays (update (λ s. record s { host = host.trace s.host message }))
trace-Stays host message = record {
  stays = λ i f s at. (At-same i f s _ refl refl refl refl at, tt);
}

module _ {H : Type 0} (max : ℕ) (host : Host H) (returns : Returns host) where
  on_app_exit-Stays : Stays (on_app_exit max host)
  unfolding on_app_exit
  on_app_exit-Stays = Stays-bind _ _ (service-Stays host returns service_wifi_teardown) λ _.
      Stays-bind _ _ (exit-Stays)
        λ _. trace-Stays host (97 ∷ 112 ∷ 112 ∷ 46 ∷ 101 ∷ 120 ∷ 105 ∷ 116 ∷ [])

  on_debug_print-Stays : (count : ℕ) → Stays (on_debug_print max host count)
  unfolding on_debug_print
  on_debug_print-Stays count = Stays-bind _ _ (reads-Stays (λ s. ok s.stack) (λ _ _. tt)) λ held.
      guard-then-Stays (leb count (length held)) stack_underflow _ λ fits.
        Stays-bind _ _ (reads-Stays (λ _. front count held) (λ _ _. rw (fits, Settles) tt))
          λ values. Stays-bind _ _ resolver-Stays λ strings.
            Stays-bind _ _ (draws-Stays host (debug_print strings (reverse values)))
              λ _. drop-Stays count

  -- A builtin returns and keeps a machine valid, whatever its number and its operands.
  pub call_builtin-Stays : (number arg_count : ℕ) → Stays (call_builtin max host number arg_count)
  unfolding call_builtin
  call_builtin-Stays number arg_count =
      choose-Stays number
        ((0x10, on_app_exit max host) ∷ (0x04, on_debug_print max host arg_count) ∷ []) _
        (on_app_exit-Stays ⨾ on_debug_print-Stays arg_count ⨾ tt)
        (choose-Stays number (display_arms max host) _ (display_arms-Stay max host returns) (
          choose-Stays number (app_arms max host) _ (app_arms-Stay max host returns) (
            choose-Stays number (wifi_arms max host) _ (wifi_arms-Stay max host returns) (
              choose-Stays number (content_arms max host) _ (content_arms-Stay max host returns)
                (fail-Stays (Unit {0}) invalid_operand)))))
