-- ===== src/Vm/Instructions.antt =====
-- compiler/rust/crates/squidvm-core/src/vm.rs: the instructions, which are the arms of
-- `execute_resume_frames`. `builtin` stands for `call_builtin` with its number and argument count.
-- Sums and differences of i32 wrap, as in a build without overflow checks; with them they panic.
pub mod Safe
pub mod Overflow
mod Tests
use squid_script.Base.{
  ℕ, zero, suc, ◌+◌, ◌-◌, ◌%◌, ◌^◌, Bool, false, not, ◌&&◌, none, some, List, length, get_elem?,
  set, take, drop, map, ◌++◌, ltb, leb, ◌==◌, if◌then◌else◌, Result, ok, err, panic, ok_or,
}
use squid_script.Base.Utf8.{is_utf8}
use squid_script.Vm.Limits.{max_locals}
use squid_script.Vm.Values.{
  VmError, invalid_operand, invalid_jump, invalid_utf8, unknown_opcode, stack_underflow,
  local_out_of_bounds, state_out_of_bounds, function_out_of_bounds, Value, null, bool_value,
  i32_value, string_value, record_value, list_value, sqbc, truthy, expect_i32, is_string,
}
use squid_script.Vm.State.{StateSlot, state_value_matches}
use squid_script.Vm.Tables.{Function}
use squid_script.Vm.Strings.{Interner, intern_dynamic, retain_value}
use squid_script.Vm.Record.{encode_state_record}
use squid_script.Vm.Heap.{record_field, list_len, list_get}
use squid_script.Vm.ProgramIndex.{index_string}
use squid_script.Vm.Machine.{
  function_frame, chunk_ref, Pending, state_load_pending, state_save_pending, state_reset_pending,
  StorageRequest, state_load, state_reset, state_save, VmDispatch, complete, pending_storage,
  Machine, read_u32_code, biased, values_equal, concat_value_strings, index_find_string,
}
use squid_script.Vm.Exec.{
  M, ◌>>=◌, ◌>>◌, ret, fail, reads, update, guard, push, pop, set_top, top_ip, top_end, top_locals,
  top_depth, operand_byte, operand_u16, operand_u32, enter_chunk, push_resume_frame,
  push_screen_resume_frame, complete_resume_frame,
}

-- What an instruction leaves the loop to do.
pub data Next : Type 0 where
  go_on : Next
  leave : VmDispatch → Next

-- An interning of a string, whose error leaves the interner as the code does.
unfoldable pub interning : {H A : Type 0} → (Interner → Interner × Result VmError A) → M H A
interning f s = let (i, outcome) = f s.strings in (record s { strings = i }, outcome)

-- `materialize_state_value`
unfoldable pub materialize_state_value : {H : Type 0} → Value → M H Value
unfolding interning retain_value
materialize_state_value value = interning (λ i. retain_value i value)

-- The checks of `OP_SET_STATE` on the slot and the value.
unfoldable pub check_slot : List StateSlot → ℕ → Value → Result VmError (Unit {0})
check_slot slots place value = elim (get_elem? slots place) [
  | none ↦ if ltb place 16 then err invalid_operand else err state_out_of_bounds
  | some slot ↦
      if state_value_matches slot.value_type.tag slot.value_type.nullable value
      then ok tt
      else err invalid_operand
]

unfoldable pub expect_list : Value → Result VmError ℕ
expect_list (list_value id) = ok id
expect_list value = err invalid_operand

-- The checks of `OP_CALL_FUNCTION` on the function and its arguments.
unfoldable pub callee : List Function → ℕ → ℕ → ℕ → Result VmError Function
callee functions stack_len function_id arg_count = elim (get_elem? functions function_id) [
  | none ↦ err function_out_of_bounds
  | some f ↦
      if not (arg_count == f.param_count)
      then err function_out_of_bounds
      else if ltb max_locals f.local_count
      then err local_out_of_bounds
      else if ltb stack_len arg_count
      then err stack_underflow
      else ok f
]

unfoldable pub expect_sqbc : Value → Result VmError ℕ
expect_sqbc (string_value (sqbc id)) = ok id
expect_sqbc value = err invalid_operand

-- `locals[n] = ...` panics out of bounds.
abbrev pub has_local : ℕ → List Value → Result VmError (Unit {0})
has_local n locals = if ltb n (length locals) then ok tt else panic

module _ {H : Type 0} where
  unfoldable pub push_int : M H (Unit {0})
  unfolding operand_u32 push
  push_int = operand_u32 >>= λ n. push (i32_value n)

  unfoldable pub push_bool : M H (Unit {0})
  unfolding operand_byte push
  push_bool = operand_byte >>= λ b. push (bool_value (not (b == 0)))

  unfoldable pub push_string : M H (Unit {0})
  unfolding operand_u16 push
  push_string = operand_u16 >>= λ id. push (string_value (sqbc id))

  unfoldable pub get_state : M H (Unit {0})
  unfolding operand_u16 push
  get_state = do
    place ← operand_u16
    value ← reads (λ s. ok_or (get_elem? s.state place) state_out_of_bounds)
    push value

  unfoldable pub set_state : M H (Unit {0})
  unfolding operand_u16 pop materialize_state_value check_slot
  set_state = do
    place ← operand_u16
    popped ← pop
    value ← materialize_state_value popped
    reads (λ s. check_slot s.index.state_slots place value)
    update (λ s. record s { state = set s.state place value })

  unfoldable pub get_local : M H (Unit {0})
  unfolding operand_u16 push
  get_local = do
    place ← operand_u16
    value ← reads (λ s. ok_or (get_elem? (top_locals s) place) local_out_of_bounds)
    push value

  unfoldable pub set_local : M H (Unit {0})
  unfolding operand_u16 pop set_top
  set_local = do
    place ← operand_u16
    value ← pop
    guard (ltb place max_locals) local_out_of_bounds
    set_top (λ f. record f { locals = set f.locals place value })

  unfoldable pub field_of : Value → List ℕ → Machine H → Result VmError Value
  unfolding record_field
  field_of (record_value id) field s = record_field s.runtime_records id field
  field_of value field s = err invalid_operand

  unfoldable pub get_field : ℕ → M H (Unit {0})
  unfolding operand_u16 pop index_string field_of push
  get_field max = do
    field_id ← operand_u16
    target ← pop
    field ← reads (λ s. index_string max s.index field_id)
    value ← reads (field_of target field)
    push value

  unfoldable pub intern_runtime : ℕ → List ℕ → M H Value
  unfolding interning intern_dynamic index_string index_find_string
  intern_runtime max text s =
      interning
        (λ i.
          intern_dynamic (index_string max s.index) (index_find_string max s.index) i text false)
        s

  unfoldable pub add_strings : ℕ → Value → Value → M H Value
  unfolding concat_value_strings intern_runtime index_string
  add_strings max left right = do
    text ← reads (λ s. concat_value_strings (index_string max s.index) s.strings left right)
    guard (is_utf8 text) invalid_utf8
    intern_runtime max text

  unfoldable pub add_values : ℕ → Value → Value → M H Value
  unfolding add_strings
  add_values max (i32_value a) (i32_value b) = ret (i32_value ((a + b) % 2 ^ 32))
  add_values max left right =
      let joined = add_strings max left right in
      if is_string left && is_string right then joined else fail invalid_operand

  -- The operators on two i32 values: the left one is checked first.
  unfoldable pub on_i32 : (ℕ → ℕ → Value) → Value → Value → M H Value
  unfolding expect_i32
  on_i32 f left right = do
    a ← reads (λ _. expect_i32 left)
    b ← reads (λ _. expect_i32 right)
    ret (f a b)

  unfoldable pub equality : ℕ → (Bool → Bool) → Value → Value → M H Value
  unfolding values_equal index_string
  equality max f left right = do
    same ← reads (λ s. values_equal (index_string max s.index) s.strings left right)
    ret (bool_value (f same))

  unfoldable pub operator : ℕ → ℕ → Value → Value → M H Value
  unfolding add_values on_i32 equality
  operator max op left right =
      if op == 20
      then add_values max left right
      else if op == 21
      then on_i32 (λ a b. i32_value ((a + (2 ^ 32 - b)) % 2 ^ 32)) left right
      else if op == 22
      then equality max (λ b. b) left right
      else if op == 23
      then equality max not left right
      else if op == 24
      then on_i32 (λ a b. bool_value (ltb (biased a) (biased b))) left right
      else if op == 25
      then on_i32 (λ a b. bool_value (leb (biased a) (biased b))) left right
      else if op == 26
      then on_i32 (λ a b. bool_value (ltb (biased b) (biased a))) left right
      else if op == 27
      then on_i32 (λ a b. bool_value (leb (biased b) (biased a))) left right
      else fail unknown_opcode

  unfoldable pub binary : ℕ → ℕ → M H (Unit {0})
  unfolding pop operator push
  binary max op = do right ← pop; left ← pop; value ← operator max op left right; push value

  unfoldable pub op_list_len : M H (Unit {0})
  unfolding pop expect_list list_len push
  op_list_len = do
    value ← pop
    id ← reads (λ _. expect_list value)
    n ← reads (λ s. list_len s.runtime_lists id)
    push (i32_value n)

  unfoldable pub op_list_get : M H (Unit {0})
  unfolding pop expect_i32 expect_list list_get push
  op_list_get = do
    position ← pop
    at ← reads (λ _. expect_i32 position)
    value ← pop
    id ← reads (λ _. expect_list value)
    item ← reads (λ s. list_get s.runtime_lists id at)
    push item

  -- A jump is checked against the end of the frame.
  unfoldable pub jump_to : ℕ → M H (Unit {0})
  unfolding set_top
  jump_to target = do
    end ← reads (λ s. ok (top_end s))
    guard (leb target end) invalid_jump
    set_top (λ f. record f { ip = target })

  -- The operand of a jump is not passed before the jump.
  unfoldable pub jump : M H (Unit {0})
  unfolding jump_to read_u32_code
  jump = reads (λ s. read_u32_code s.code s.code_start (top_ip s)) >>= λ target. jump_to target

  unfoldable pub jump_if_false : M H (Unit {0})
  unfolding operand_u32 pop jump_to
  jump_if_false = do
    target ← operand_u32
    value ← pop
    if truthy value then ret tt else jump_to target

module _ {H : Type 0} where
  -- The arguments of a call leave the stack for the first locals of the frame, the last one first;
  -- `n` of them are to come.
  unfoldable pub move_arguments : ℕ → M H (Unit {0})
  unfolding pop set_top
  move_arguments zero = ret tt
  move_arguments (suc n) = do
    value ← pop
    reads (λ s. has_local n (top_locals s))
    set_top (λ f. record f { locals = set f.locals n value })
    move_arguments n

  unfoldable pub call_function : ℕ → M H (Unit {0})
  unfolding operand_u16 callee enter_chunk push_resume_frame move_arguments chunk_ref
  call_function max = do
    function_id ← operand_u16
    arg_count ← operand_u16
    f ← reads (λ s. callee s.index.functions (length s.stack) function_id arg_count)
    enter_chunk (chunk_ref (function_frame function_id)) false
    depth ← reads (λ s. ok (top_depth s))
    push_resume_frame max (function_frame function_id) f.start f.len (depth + 1)
    move_arguments arg_count

  -- `BUILTIN_SCREEN_OPEN`
  unfoldable pub screen_open : ℕ → M H (Unit {0})
  unfolding pop expect_sqbc push_screen_resume_frame
  screen_open max = do
    value ← pop
    name_id ← reads (λ _. expect_sqbc value)
    update (λ s. record s { current_screen = some name_id })
    depth ← reads (λ s. ok (top_depth s))
    push_screen_resume_frame max name_id (depth + 1)

  -- `BUILTIN_SCREEN_REFRESH`
  unfoldable pub screen_refresh : ℕ → M H (Unit {0})
  unfolding push_screen_resume_frame
  screen_refresh max = do
    screen_id ← reads (λ s. ok_or s.current_screen invalid_operand)
    depth ← reads (λ s. ok (top_depth s))
    push_screen_resume_frame max screen_id (depth + 1)

  unfoldable pub reset_state : M H (Unit {0})
  reset_state s = (
    record s {
      state =
          map (λ (slot : StateSlot). slot.default) s.index.state_slots
          ++ drop (length s.index.state_slots) s.state;
    },
    ok tt,
  )

  unfoldable pub save_request : ℕ → M H StorageRequest
  unfolding encode_state_record index_string
  save_request max = do
    bytes ← reads (λ s.
        encode_state_record (index_string max s.index) s.strings s.index.state_slots
          (take (length s.index.state_slots) s.state))
    ret (state_save bytes)

  unfoldable pub suspend : Pending → StorageRequest → M H Next
  unfolding set_top
  suspend pending request = do
    set_top (λ f. record f { pending = pending })
    ret (leave (pending_storage request))

  -- `BUILTIN_DEBUG_PRINT` has a count of arguments behind it.
  unfoldable pub argument_count : ℕ → M H ℕ
  unfolding operand_byte
  argument_count number = if number == 4 then operand_byte else ret 0

  -- `OP_RETURN` and `OP_HALT`: the loop ends with the last frame.
  unfoldable pub leave_frame : Value → M H Next
  unfolding complete_resume_frame
  leave_frame value = do
    complete_resume_frame value
    left ← reads (λ s. ok (length s.frames))
    ret (if ltb 0 left then go_on else leave complete)

  abbrev pub then_go_on : M H (Unit {0}) → M H Next
  then_go_on m = m >> ret go_on

  module _ (max : ℕ) (builtin : ℕ → ℕ → M H (Unit {0})) where
    -- `call_builtin_resumable`, and what the loop does with its request.
    unfoldable pub call_builtin_resumable : ℕ → ℕ → M H Next
    unfolding save_request reset_state suspend
    call_builtin_resumable number arg_count =
        if number == 1
        then suspend state_load_pending state_load
        else if number == 2
        then (save_request max >>= λ request. suspend state_save_pending request)
        else if number == 3
        then (reset_state >> suspend state_reset_pending state_reset)
        else (builtin number arg_count >> ret go_on)

    unfoldable pub op_call_builtin : M H Next
    unfolding operand_byte argument_count screen_open screen_refresh call_builtin_resumable
    op_call_builtin = do
      number ← operand_byte
      arg_count ← argument_count number
      if number == 0x20
          then (screen_open max >> ret go_on)
          else if number == 0x21
          then (screen_refresh max >> ret go_on)
          else call_builtin_resumable number arg_count

    -- The arms of control flow and lists.
    unfoldable pub execute_rest : ℕ → M H Next
    unfolding jump jump_if_false call_function op_call_builtin leave_frame pop op_list_len
        op_list_get
    execute_rest op =
        if op == 30
        then then_go_on jump
        else if op == 31
        then then_go_on jump_if_false
        else if op == 40
        then then_go_on (call_function max)
        else if op == 41
        then (pop >>= λ value. leave_frame value)
        else if op == 42
        then leave_frame null
        else if op == 50
        then op_call_builtin
        else if op == 60
        then (pop >>= λ value. ret go_on)
        else if op == 61
        then then_go_on op_list_len
        else if op == 62
        then then_go_on op_list_get
        else fail unknown_opcode

    -- The match on the opcode.
    unfoldable pub execute : ℕ → M H Next
    unfolding push_int push_bool push_string push get_state set_state get_local set_local get_field
        binary execute_rest
    execute op =
        if op == 1
        then then_go_on push_int
        else if op == 2
        then then_go_on push_bool
        else if op == 3
        then then_go_on push_string
        else if op == 4
        then then_go_on (push null)
        else if op == 10
        then then_go_on get_state
        else if op == 11
        then then_go_on set_state
        else if op == 12
        then then_go_on get_local
        else if op == 13
        then then_go_on set_local
        else if op == 14
        then then_go_on (get_field max)
        else if leb 20 op && leb op 27
        then then_go_on (binary max op)
        else execute_rest op
