-- ===== src/Vm/Views.antt =====
-- compiler/rust/crates/squidvm-core/src/vm.rs: what `ChunkedVm` shows of its state, and lets its
-- embedder set.
use squid_script.Base.{
  ℕ, suc, Option, none, some, List, [], ◌∷◌, set, if◌then◌else◌, bytes_eq, Result, ok, err,
}
use squid_script.Vm.Values.{VmError, state_out_of_bounds, invalid_operand, Value}
use squid_script.Vm.State.{StateSlot, state_value_matches}
use squid_script.Vm.ProgramIndex.{ProgramIndex, index_string}
use squid_script.Vm.Exec.{M, ◌>>=◌, ◌>>◌, reads, update, guard}
use squid_script.Vm.Instructions.{materialize_state_value}

-- The slot of a name among the slots to come, the first of them at `place`.
unfoldable pub place_named :
    ℕ → ProgramIndex → List ℕ → ℕ → List StateSlot → Result VmError (ℕ × StateSlot)
unfolding index_string
place_named max x name place [] = err state_out_of_bounds
place_named max x name place (slot ∷ slots) =
    squid_script.Base.◌>>=◌ (index_string max x slot.name_id) λ own.
      let later = place_named max x name (suc place) slots in
      if bytes_eq own name then ok (place, slot) else later

unfoldable pub state_value : {H : Type 0} → ℕ → List ℕ → M H Value
unfolding place_named
state_value max name = do
  (place, _) ← reads (λ s. place_named max s.index name 0 s.index.state_slots)
  reads (λ s. squid_script.Base.index s.state place)

unfoldable pub set_state_value : {H : Type 0} → ℕ → List ℕ → Value → M H (Unit {0})
unfolding materialize_state_value place_named
set_state_value max name given = do
  value ← materialize_state_value given
  (place, slot) ← reads (λ s. place_named max s.index name 0 s.index.state_slots)
  guard (state_value_matches slot.value_type.tag slot.value_type.nullable value) invalid_operand
  update (λ s. record s { state = set s.state place value })

-- The slot at a place, as `state_name` and `state_at` look it up.
abbrev pub slot_at : ℕ → List StateSlot → Result VmError StateSlot
slot_at place slots =
    squid_script.Base.ok_or (squid_script.Base.get_elem? slots place) state_out_of_bounds

unfoldable pub state_name : {H : Type 0} → ℕ → ℕ → M H (List ℕ)
unfolding index_string
state_name max place = do
  slot ← reads (λ s. slot_at place s.index.state_slots)
  reads (λ s. index_string max s.index slot.name_id)

unfoldable pub state_at : {H : Type 0} → ℕ → M H Value
state_at place = do
  _ ← reads (λ s. slot_at place s.index.state_slots)
  reads (λ s. squid_script.Base.index s.state place)

-- `ChunkedVm::current_screen`: the name of the screen that is open.
unfoldable pub screen_name : ℕ → ProgramIndex → Option ℕ → Result VmError (Option (List ℕ))
unfolding index_string
screen_name max x none = ok none
screen_name max x (some id) = squid_script.Base.◌>>=◌ (index_string max x id) λ name. ok (some name)

unfoldable pub open_screen : {H : Type 0} → ℕ → M H (Option (List ℕ))
unfolding screen_name
open_screen max = reads (λ s. screen_name max s.index s.current_screen)
