-- ===== src/Vm/State/Tests.antt =====
-- compiler/rust/crates/squidvm-core/src/state.rs: a state section of one field.
use squid_script.Base.{
  ℕ, ◌-◌, ◌^◌, ◌<◌, ◌≤◌, ◌≡◌, All, take, refl, false, Option, none, some, List, [], ◌∷◌, ◌++◌,
  length, map, replicate, bytes_eq, if◌then◌else◌, ok, arith,
}
use squid_script.Vm.State.{
  max_state, unused_slot, parse_state, json_i64, IrStateValue, encode_state_section, state_type_tag,
  state_value_matches, encode_slots, encode_value, i32_from_i64,
}
use squid_script.Vm.State.Typed.{IsSlot, parse_state-IsSlot}
use squid_script.Vm.State.Section.{slot_of, IsTyped, parse_state-encode_state_section}

-- "count", which is string 5, and "int".
abbrev count : List ℕ
count = 0x63 ∷ 0x6f ∷ 0x75 ∷ 0x6e ∷ 0x74 ∷ []

abbrev ids : List ℕ → Option ℕ
ids s = if bytes_eq s count then some 5 else none

ids-lt : (s : List ℕ) (id : ℕ) → ids s ≡ some id → id < 2 ^ 16
ids-lt s id h = ground arith

abbrev counter : List IrStateValue
counter =
    record {
      name = count;
      value_type = 0x69 ∷ 0x6e ∷ 0x74 ∷ [];
      nullable = false;
      value = json_i64 7;
    }
    ∷ []

abbrev counter_section : List ℕ
counter_section = 1 ∷ 0 ∷ 5 ∷ 0 ∷ 1 ∷ 0 ∷ 2 ∷ 7 ∷ 0 ∷ 0 ∷ 0 ∷ []

counter_encoded : encode_state_section ids counter ≡ ok counter_section
unfolding encode_state_section encode_slots encode_value state_type_tag i32_from_i64
counter_encoded = refl

counter-IsTyped : IsTyped ids record {
  name = count;
  value_type = 0x69 ∷ 0x6e ∷ 0x74 ∷ [];
  nullable = false;
  value = json_i64 7;
}
unfolding state_type_tag state_value_matches
counter-IsTyped = refl

parse_state-encode_state_section_example :
    parse_state counter_section
    ≡ ok (
      map (slot_of ids) counter ++ replicate (max_state - length counter) unused_slot,
      length counter,
    )
parse_state-encode_state_section_example =
    parse_state-encode_state_section ids ids-lt counter counter_section counter_encoded
      (counter-IsTyped, tt) (omega arith)

counter_parsed :
    parse_state counter_section
    ≡ ok (map (slot_of ids) counter ++ replicate (max_state - length counter) unused_slot, 1)
counter_parsed =
    parse_state-encode_state_section ids ids-lt counter counter_section counter_encoded
      (counter-IsTyped, tt) (omega arith)

parse_state-IsSlot_example :
    (1 ≤ max_state)
    × (length (map (slot_of ids) counter ++ replicate (max_state - length counter) unused_slot)
        ≡ max_state)
    × All IsSlot
        (take 1 (map (slot_of ids) counter ++ replicate (max_state - length counter) unused_slot))
parse_state-IsSlot_example =
    parse_state-IsSlot counter_section
      (map (slot_of ids) counter ++ replicate (max_state - length counter) unused_slot) 1
      counter_parsed
