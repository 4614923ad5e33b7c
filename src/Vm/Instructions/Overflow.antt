-- ===== src/Vm/Instructions/Overflow.antt =====
-- compiler/rust/crates/squidvm-core/src/vm.rs: `OP_ADD` beyond the range of i32.
use squid_script.Base.{ℕ, ◌+◌, ◌^◌, ◌%◌, ◌≤◌, ◌<◌, ◌≡◌, refl, true, ltb, ok, ap, arith}
use squid_script.Vm.Values.{Value, i32_value, bool_value}
use squid_script.Vm.Machine.{Machine, biased}
use squid_script.Vm.Instructions.{operator}

wraps_below :
    (a b : ℕ)
    → a < 2 ^ 31
    → b < 2 ^ 31
    → 2 ^ 31 ≤ a + b
    → ltb (biased ((a + b) % 2 ^ 32)) (biased a) ≡ true
wraps_below a b small few over = ground arith

-- In a build without overflow checks, the sum of two i32 that are not negative and whose sum is out of
-- range is a value, which the VM finds less than the first of them: the event goes on.
pub operator-overflow :
    {H : Type 0} (max a b : ℕ) (s : Machine H)
    → a < 2 ^ 31
    → b < 2 ^ 31
    → 2 ^ 31 ≤ a + b
    → (sum : Value) × (operator max 20 (i32_value a) (i32_value b) s ≡ (s, ok sum))
      × (operator max 24 sum (i32_value a) s ≡ (s, ok (bool_value true)))
unfolding operator
operator-overflow max a b s small few over = (
  i32_value ((a + b) % 2 ^ 32),
  refl,
  ap (λ b. (s, ok (bool_value b))) (wraps_below a b small few over),
)
