-- ===== src/Vm/State/Typed.antt =====
-- compiler/rust/crates/squidvm-core/src/state.rs: the state sections that the VM accepts.
use squid_script.Base.{
  ℕ, zero, suc, ◌+◌, ◌-◌, ◌≤◌, ◌≡◌, refl, subst, true, List, [], ◌∷◌, ◌++◌, All, length,
  length-append, length-replicate, take, take-append, replicate, leb, ◌==◌, ok, >>=-eq-ok, guard,
  guard-eq-ok, arith,
}
use squid_script.Vm.Values.{invalid_section, too_many_state_slots, byte_at, read_u16, read_value}
use squid_script.Vm.State.{
  StateSlot, max_state, unused_slot, state_value_matches, is_state_type, read_flag, parse_slot,
  parse_slots, parse_state,
}

-- The slot has a known type, and its default is a value of it.
abbrev pub IsSlot : StateSlot → Type 0
IsSlot slot =
    (is_state_type slot.value_type.tag ≡ true)
    × (state_value_matches slot.value_type.tag slot.value_type.nullable slot.default ≡ true)

parse_slot-IsSlot :
    (section : List ℕ) (cursor : ℕ) (slot : StateSlot) (next : ℕ)
    → parse_slot section cursor ≡ ok (slot, next)
    → IsSlot slot
unfolding parse_slot
parse_slot-IsSlot section cursor slot next e =
    let (id, _, e₁) = >>=-eq-ok (read_u16 section cursor) _ e in
    let (tag, _, e₂) = >>=-eq-ok (byte_at section (cursor + 2)) _ e₁ in
    let (u, known, e₃) = >>=-eq-ok (guard (is_state_type tag) invalid_section) _ e₂ in
    let (b, _, e₄) = >>=-eq-ok (byte_at section (cursor + 3)) _ e₃ in
    let (nullable, _, e₅) = >>=-eq-ok (read_flag b) _ e₄ in
    let ((value, n), _, e₆) = >>=-eq-ok (read_value section (cursor + 4)) _ e₅ in
    let (u', typed, e₇) =
      >>=-eq-ok (guard (state_value_matches tag nullable value) invalid_section) _ e₆ in
    let known' = guard-eq-ok (is_state_type tag) invalid_section known in
    let typed' = guard-eq-ok (state_value_matches tag nullable value) invalid_section typed in
    let same : record {
      name_id = id;
      value_type = record { tag = tag; nullable = nullable };
      default = value;
    }
        ≡ slot =
      ground arith in
    subst IsSlot same (known', typed')

parse_slots-IsSlot :
    (n : ℕ) (section : List ℕ) (cursor : ℕ) (slots : List StateSlot) (next : ℕ)
    → parse_slots n section cursor ≡ ok (slots, next)
    → (length slots ≡ n) × All IsSlot slots
unfolding parse_slots
parse_slots-IsSlot zero section cursor slots next e =
    let same : [] ≡ slots = ground arith in rw (← same) (refl, tt)
parse_slots-IsSlot (suc n) section cursor slots next e =
    let ((slot, c), one, e₁) = >>=-eq-ok (parse_slot section cursor) _ e in
    let ((rest, c'), more, e₂) = >>=-eq-ok (parse_slots n section c) _ e₁ in
    let (size, typed) = parse_slots-IsSlot n section c rest c' more in
    let same : slot ∷ rest ≡ slots = ground arith in
    subst (λ t. (length t ≡ suc n) × All IsSlot t) same
      (omega arith, (parse_slot-IsSlot section cursor slot c one, typed))

-- Of any section that the VM accepts, there are at most 16 slots, the array is full, and each slot that
-- is counted has a known type and a default of that type.
pub parse_state-IsSlot :
    (section : List ℕ) (slots : List StateSlot) (count : ℕ)
    → parse_state section ≡ ok (slots, count)
    → (count ≤ max_state) × (length slots ≡ max_state) × All IsSlot (take count slots)
unfolding parse_state
parse_state-IsSlot section slots count e =
    let (n, _, e₁) = >>=-eq-ok (read_u16 section 0) _ e in
    let (u, few, e₂) = >>=-eq-ok (guard (leb n max_state) too_many_state_slots) _ e₁ in
    let ((parsed, c), got, e₃) = >>=-eq-ok (parse_slots n section 2) _ e₂ in
    let (u', _, e₄) = >>=-eq-ok (guard (c == length section) invalid_section) _ e₃ in
    let room = guard-eq-ok (leb n max_state) too_many_state_slots few in
    let (size, typed) = parse_slots-IsSlot n section 2 parsed c got in
    let same : parsed ++ replicate (max_state - n) unused_slot ≡ slots = ground arith in
    let same_count : count ≡ length parsed = ground arith in
    let pad = length-append parsed (replicate (max_state - n) unused_slot) in
    let filled = length-replicate (max_state - n) unused_slot in
    let bound : count ≤ max_state = ground arith in
    let first : take count (parsed ++ replicate (max_state - n) unused_slot) ≡ parsed =
      rw (same_count, take-append) refl in
    (bound, rw (← same) (ground arith), rw (← same, first) typed)
