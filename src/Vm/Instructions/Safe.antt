-- ===== src/Vm/Instructions/Safe.antt =====
-- compiler/rust/crates/squidvm-core/src/vm.rs: the instructions keep a machine valid.
use squid_script.Base.{
  ℕ, zero, suc, ◌+◌, ◌%◌, ◌^◌, ◌≤◌, ◌≡◌, refl, Bool, false, not, ◌&&◌, ◌||◌, some, List, [], ◌∷◌,
  All, replicate, length, length-set, length-replicate, bytes_eq, set, get_elem?, ltb, leb, lt→ltb,
  ◌==◌, Result, ok, err, ok_or, Settles, Settles-if, Settles-bind, Settles-guard, ok_or-Settles,
  arith,
}
use squid_script.Base.Utf8.{is_utf8}
use squid_script.Vm.Limits.{max_locals, max_stack}
use squid_script.Vm.Values.{
  VmError, invalid_operand, invalid_jump, invalid_utf8, unknown_opcode, state_out_of_bounds,
  local_out_of_bounds, Value, null, bool_value, i32_value, string_value, record_value, list_value,
  handle_value, sqbc, static_string, dynamic, truthy, expect_i32, is_string,
}
use squid_script.Vm.State.{StateSlot}
use squid_script.Vm.Tables.{Function}
use squid_script.Vm.Strings.{Interner, value_str, max_runtime_string_bytes}
use squid_script.Vm.Strings.Acyclic.{IsAcyclic}
use squid_script.Vm.Strings.Interns.{
  Interns, retain_value-Interns, intern_dynamic-Interns, value_str-Settles,
}
use squid_script.Vm.FieldNames.{parse_field_name}
use squid_script.Vm.Heap.{
  RuntimeRecordField, RuntimeRecords, RuntimeLists, field_from, record_field, list_len, list_get,
}
use squid_script.Vm.ProgramIndex.{index_string}
use squid_script.Vm.Machine.{
  function_frame, chunk_ref, Frame, Machine, values_equal, concat_value_strings, index_find_string,
  read_u32_code, is_handle,
}
use squid_script.Vm.Exec.{
  ret, fail, update, of_top, top_locals, set_top, top_ip, top_end, top_depth,
}
use squid_script.Vm.Exec.Triples.{
  IsValid, At, Stays, Grows, Stays-bind, Grows-Stays, Stays-then-Grows, ret-Stays, fail-Stays,
  reads-Stays, guard-Stays, if-Stays, reads-Grows,
}
use squid_script.Vm.Exec.Safe.{
  index_string-Settles, index_find_string-Settles, read_u32_code-Settles, At-same, push-Stays,
  pop-Stays, set_top-Stays, operand_byte-Stays, operand_u16-Stays, operand_u32-Stays,
  enter_chunk-Stays, push_resume_frame-Grows, push_screen_resume_frame-Grows,
}
use squid_script.Vm.Instructions.{
  interning, materialize_state_value, push_int, push_bool, push_string, get_state, check_slot,
  set_state, get_local, set_local, field_of, get_field, intern_runtime, add_strings, add_values,
  on_i32, equality, operator, binary, expect_list, op_list_len, op_list_get, jump_to, jump,
  jump_if_false, has_local, move_arguments, callee, call_function, expect_sqbc, screen_open,
  screen_refresh, reset_state,
}

field_from-Settles : (name : List ℕ) (fs : List RuntimeRecordField) → Settles (field_from name fs)
unfolding field_from
field_from-Settles name [] = tt
field_from-Settles name (f ∷ fs) =
    Settles-if (bytes_eq f.name name) (ok f.value) (field_from name fs) tt
      (field_from-Settles name fs)

record_field-Settles :
    (r : RuntimeRecords) (id : ℕ) (name : List ℕ) → Settles (record_field r id name)
unfolding record_field
record_field-Settles r id name =
    Settles-bind (ok_or (parse_field_name name) invalid_operand) _
      (ok_or-Settles (parse_field_name name) _)
      λ n _.
        Settles-bind (ok_or (get_elem? r.records id) invalid_operand) _
          (ok_or-Settles (get_elem? r.records id) _) λ fields _. field_from-Settles n fields

list_len-Settles : (l : RuntimeLists) (id : ℕ) → Settles (list_len l id)
unfolding list_len
list_len-Settles l id =
    Settles-bind (ok_or (get_elem? l.lists id) invalid_operand) _
      (ok_or-Settles (get_elem? l.lists id) _) λ _ _. tt

pub list_get-Settles : (l : RuntimeLists) (id i : ℕ) → Settles (list_get l id i)
unfolding list_get
list_get-Settles l id i =
    Settles-bind (ok_or (get_elem? l.lists id) invalid_operand) _
      (ok_or-Settles (get_elem? l.lists id) _)
      λ items _.
        Settles-guard (ltb i (2 ^ 31)) invalid_operand _
          λ _. ok_or-Settles (get_elem? items i) invalid_operand

pub expect_i32-Settles : (v : Value) → Settles (expect_i32 v)
unfolding expect_i32
expect_i32-Settles (i32_value n) = tt
expect_i32-Settles _ = tt

pub expect_list-Settles : (v : Value) → Settles (expect_list v)
unfolding expect_list
expect_list-Settles (list_value n) = tt
expect_list-Settles _ = tt

pub expect_sqbc-Settles : (v : Value) → Settles (expect_sqbc v)
unfolding expect_sqbc
expect_sqbc-Settles (string_value (sqbc id)) = tt
expect_sqbc-Settles (string_value (static_string id)) = tt
expect_sqbc-Settles (string_value (dynamic id)) = tt
expect_sqbc-Settles null = tt
expect_sqbc-Settles (bool_value b) = tt
expect_sqbc-Settles (i32_value n) = tt
expect_sqbc-Settles (record_value r) = tt
expect_sqbc-Settles (list_value l) = tt
expect_sqbc-Settles (handle_value h) = tt

check_slot-Settles :
    (slots : List StateSlot) (place : ℕ) (v : Value) → Settles (check_slot slots place v)
unfolding check_slot
check_slot-Settles slots place v = ground arith

room :
    (n : ℕ) (frames : List Frame)
    → suc n ≤ max_locals
    → All (λ (f : Frame). length f.locals ≡ max_locals) frames
    → Settles (has_local n (of_top (replicate max_locals null) (λ f. f.locals) frames))
room n [] h all = rw (length-replicate, lt→ltb n max_locals h) tt
room n (f ∷ frames) h all = rw (all.0, lt→ltb n max_locals h) tt

callee-Settles :
    (functions : List Function) (stack_len id count : ℕ)
    → Settles (callee functions stack_len id count)
unfolding callee
callee-Settles functions stack_len id count = ground arith

callee-le :
    (functions : List Function) (stack_len id count : ℕ) (f : Function)
    → stack_len ≤ max_stack
    → callee functions stack_len id count ≡ ok f
    → count ≤ max_locals
unfolding callee
callee-le functions stack_len id count f h e = ground arith

module _ {H : Type 0} where
  pub At-strings :
      (i n : ℕ) (s : Machine H) (strings : Interner)
      → IsAcyclic strings.refs
      → At i n s
      → At i n (record s { strings = strings })
  At-strings i n s strings acyclic at = record {
    valid = record {
      stack_fits = at.valid.stack_fits;
      frames_fit = at.valid.frames_fit;
      locals_full = at.valid.locals_full;
      strings_acyclic = acyclic;
    };
    counted = at.counted;
    frames_below = at.frames_below;
  }

  -- An interning that keeps the interner acyclic.
  interning-Stays :
      {A : Type 0} (f : Interner → Interner × Result VmError A)
      → ((i : Interner) → IsAcyclic i.refs → Interns (f i))
      → Stays {H = H} (interning f)
  unfolding interning
  interning-Stays f h = record {
    stays = λ i n s at.
        let (acyclic, fine) = h s.strings at.valid.strings_acyclic in
        (At-strings i n s (f s.strings).0 acyclic at, fine);
  }

  pub materialize_state_value-Stays : (v : Value) → Stays {H = H} (materialize_state_value v)
  unfolding materialize_state_value
  materialize_state_value-Stays v =
      interning-Stays _ (λ i acyclic. retain_value-Interns i v acyclic)

  pub push_int-Stays : Stays {H = H} push_int
  unfolding push_int
  push_int-Stays = Stays-bind _ _ operand_u32-Stays λ n. push-Stays (i32_value n)

  pub push_bool-Stays : Stays {H = H} push_bool
  unfolding push_bool
  push_bool-Stays = Stays-bind _ _ operand_byte-Stays λ b. push-Stays (bool_value (not (b == 0)))

  pub push_string-Stays : Stays {H = H} push_string
  unfolding push_string
  push_string-Stays = Stays-bind _ _ operand_u16-Stays λ id. push-Stays (string_value (sqbc id))

  pub get_state-Stays : Stays {H = H} get_state
  unfolding get_state
  get_state-Stays = Stays-bind _ _ operand_u16-Stays λ place.
      Stays-bind _ _
        (reads-Stays (λ s. ok_or (get_elem? s.state place) state_out_of_bounds)
          (λ s _. ok_or-Settles (get_elem? s.state place) state_out_of_bounds))
        λ v. push-Stays v

  store-Stays :
      (place : ℕ) (v : Value)
      → Stays (update (λ (s : Machine H). record s { state = set s.state place v }))
  store-Stays place v = record { stays = λ i f s at. (At-same i f s _ refl refl refl refl at, tt) }

  pub set_state-Stays : Stays {H = H} set_state
  unfolding set_state
  set_state-Stays = Stays-bind _ _ operand_u16-Stays λ place. Stays-bind _ _ pop-Stays λ popped.
      Stays-bind _ _ (materialize_state_value-Stays popped) λ v.
        Stays-bind _ _
          (reads-Stays (λ s. check_slot s.index.state_slots place v)
            (λ s _. check_slot-Settles s.index.state_slots place v))
          λ _. store-Stays place v

  pub get_local-Stays : Stays {H = H} get_local
  unfolding get_local
  get_local-Stays = Stays-bind _ _ operand_u16-Stays λ place.
      Stays-bind _ _
        (reads-Stays (λ s. ok_or (get_elem? (top_locals s) place) local_out_of_bounds)
          (λ s _. ok_or-Settles (get_elem? (top_locals s) place) local_out_of_bounds))
        λ v. push-Stays v

  set_local_of-Stays :
      (place : ℕ) (v : Value)
      → Stays {H = H} (set_top (λ f. record f { locals = set f.locals place v }))
  set_local_of-Stays place v = set_top-Stays _ (λ h e. rw length-set e)

  pub set_local-Stays : Stays {H = H} set_local
  unfolding set_local
  set_local-Stays = Stays-bind _ _ operand_u16-Stays λ place. Stays-bind _ _ pop-Stays λ v.
      Stays-bind _ _ (guard-Stays (ltb place max_locals) local_out_of_bounds)
        λ _. set_local_of-Stays place v

  field_of-Settles : (v : Value) (field : List ℕ) (s : Machine H) → Settles (field_of v field s)
  unfolding field_of
  field_of-Settles (record_value id) field s = record_field-Settles s.runtime_records id field
  field_of-Settles null field s = tt
  field_of-Settles (bool_value b) field s = tt
  field_of-Settles (i32_value n) field s = tt
  field_of-Settles (string_value r) field s = tt
  field_of-Settles (list_value l) field s = tt
  field_of-Settles (handle_value h) field s = tt

  pub get_field-Stays : (max : ℕ) → Stays {H = H} (get_field max)
  unfolding get_field
  get_field-Stays max = Stays-bind _ _ operand_u16-Stays λ id. Stays-bind _ _ pop-Stays λ target.
      Stays-bind _ _
        (reads-Stays (λ s. index_string max s.index id)
          (λ s _. index_string-Settles max s.index id))
        λ field.
          Stays-bind _ _
            (reads-Stays (field_of target field) (λ s _. field_of-Settles target field s))
            λ v. push-Stays v

  pub intern_runtime-Stays : (max : ℕ) (text : List ℕ) → Stays {H = H} (intern_runtime max text)
  unfolding intern_runtime interning
  intern_runtime-Stays max text = record {
    stays = λ i f s at.
        let (acyclic, fine) =
          intern_dynamic-Interns (index_string max s.index) (index_find_string max s.index)
            (index_string-Settles max s.index) (index_find_string-Settles max s.index) s.strings
            text false at.valid.strings_acyclic in
        (At-strings i f s _ acyclic at, fine);
  }

  pub jump_to-Stays : (target : ℕ) → Stays {H = H} (jump_to target)
  unfolding jump_to
  jump_to-Stays target = Stays-bind _ _ (reads-Stays (λ s. ok (top_end s)) (λ _ _. tt)) λ end.
      Stays-bind _ _ (guard-Stays (leb target end) invalid_jump)
        λ _. set_top-Stays (λ f. record f { ip = target }) (λ h e. e)

  pub jump-Stays : Stays {H = H} jump
  unfolding jump
  jump-Stays =
      Stays-bind _ _
        (reads-Stays (λ s. read_u32_code s.code s.code_start (top_ip s))
          (λ s _. read_u32_code-Settles s.code s.code_start (top_ip s)))
        λ target. jump_to-Stays target

  pub jump_if_false-Stays : Stays {H = H} jump_if_false
  unfolding jump_if_false
  jump_if_false-Stays = Stays-bind _ _ operand_u32-Stays λ target.
      Stays-bind _ _ pop-Stays
        λ v. if-Stays (truthy v) (ret tt) (jump_to target) (ret-Stays tt) (jump_to-Stays target)

  pub op_list_len-Stays : Stays {H = H} op_list_len
  unfolding op_list_len
  op_list_len-Stays = Stays-bind _ _ pop-Stays λ v.
      Stays-bind _ _ (reads-Stays (λ _. expect_list v) (λ _ _. expect_list-Settles v)) λ id.
        Stays-bind _ _
          (reads-Stays (λ s. list_len s.runtime_lists id)
            (λ s _. list_len-Settles s.runtime_lists id))
          λ n. push-Stays (i32_value n)

  pub op_list_get-Stays : Stays {H = H} op_list_get
  unfolding op_list_get
  op_list_get-Stays = Stays-bind _ _ pop-Stays λ position.
      Stays-bind _ _ (reads-Stays (λ _. expect_i32 position) (λ _ _. expect_i32-Settles position))
        λ at. Stays-bind _ _ pop-Stays λ v.
          Stays-bind _ _ (reads-Stays (λ _. expect_list v) (λ _ _. expect_list-Settles v)) λ id.
            Stays-bind _ _
              (reads-Stays (λ s. list_get s.runtime_lists id at)
                (λ s _. list_get-Settles s.runtime_lists id at))
              λ item. push-Stays item

  concat_value_strings-Settles :
      (max : ℕ) (s : Machine H) (left right : Value)
      → IsValid s
      → Settles (concat_value_strings (index_string max s.index) s.strings left right)
  unfolding concat_value_strings
  concat_value_strings-Settles max s left right valid =
      let string : ℕ → Result VmError (List ℕ) = index_string max s.index in
      Settles-bind (value_str string s.strings left) _
        (value_str-Settles string (index_find_string max s.index) (index_string-Settles max s.index)
          (index_find_string-Settles max s.index) s.strings left valid.strings_acyclic)
        λ a _.
          Settles-bind (value_str string s.strings right) _
            (value_str-Settles string (index_find_string max s.index)
              (index_string-Settles max s.index) (index_find_string-Settles max s.index) s.strings
              right valid.strings_acyclic)
            λ b _.
              Settles-guard (leb (length a + length b) max_runtime_string_bytes) invalid_operand _
                (λ _. tt)

  values_equal-Settles :
      (max : ℕ) (s : Machine H) (left right : Value)
      → IsValid s
      → Settles (values_equal (index_string max s.index) s.strings left right)
  unfolding values_equal
  values_equal-Settles max s left right valid =
      let string : ℕ → Result VmError (List ℕ) = index_string max s.index in
      Settles-if (is_string left || is_string right) _ _
        (Settles-if (not (is_string left && is_string right)) (ok false) _ tt (
          Settles-bind (value_str string s.strings left) _
            (value_str-Settles string (index_find_string max s.index)
              (index_string-Settles max s.index) (index_find_string-Settles max s.index) s.strings
              left valid.strings_acyclic)
            λ a _.
              Settles-bind (value_str string s.strings right) _
                (value_str-Settles string (index_find_string max s.index)
                  (index_string-Settles max s.index) (index_find_string-Settles max s.index)
                  s.strings right valid.strings_acyclic)
                λ b _. tt))
        (Settles-if (is_handle left || is_handle right) (err invalid_operand) _ tt tt)

  add_strings-Stays : (max : ℕ) (left right : Value) → Stays {H = H} (add_strings max left right)
  unfolding add_strings
  add_strings-Stays max left right =
      Stays-bind _ _
        (reads-Stays (λ s. concat_value_strings (index_string max s.index) s.strings left right)
          (λ s valid. concat_value_strings-Settles max s left right valid))
        λ text.
          Stays-bind _ _ (guard-Stays (is_utf8 text) invalid_utf8)
            λ _. intern_runtime-Stays max text

  add_values-Stays : (max : ℕ) (left right : Value) → Stays {H = H} (add_values max left right)
  unfolding add_values
  add_values-Stays max (i32_value a) (i32_value b) = ret-Stays (i32_value ((a + b) % 2 ^ 32))
  add_values-Stays max left right =
      if-Stays (is_string left && is_string right) (add_strings max left right)
        (fail invalid_operand) (add_strings-Stays max left right) (fail-Stays Value invalid_operand)

  on_i32-Stays : (f : ℕ → ℕ → Value) (left right : Value) → Stays {H = H} (on_i32 f left right)
  unfolding on_i32
  on_i32-Stays f left right =
      Stays-bind _ _ (reads-Stays (λ _. expect_i32 left) (λ _ _. expect_i32-Settles left)) λ a.
        Stays-bind _ _ (reads-Stays (λ _. expect_i32 right) (λ _ _. expect_i32-Settles right))
          λ b. ret-Stays (f a b)

  equality-Stays :
      (max : ℕ) (f : Bool → Bool) (left right : Value) → Stays {H = H} (equality max f left right)
  unfolding equality
  equality-Stays max f left right =
      Stays-bind _ _
        (reads-Stays (λ s. values_equal (index_string max s.index) s.strings left right)
          (λ s valid. values_equal-Settles max s left right valid))
        λ same. ret-Stays (bool_value (f same))

  operator-Stays : (max op : ℕ) (left right : Value) → Stays {H = H} (operator max op left right)
  unfolding operator
  operator-Stays max op left right = if-Stays (op == 20) _ _ (add_values-Stays max left right) (
      if-Stays (op == 21) _ _ (on_i32-Stays _ left right) (
        if-Stays (op == 22) _ _ (equality-Stays max (λ b. b) left right) (
          if-Stays (op == 23) _ _ (equality-Stays max not left right) (
            if-Stays (op == 24) _ _ (on_i32-Stays _ left right) (
              if-Stays (op == 25) _ _ (on_i32-Stays _ left right) (
                if-Stays (op == 26) _ _ (on_i32-Stays _ left right) (
                  if-Stays (op == 27) _ _ (on_i32-Stays _ left right)
                    (fail-Stays Value unknown_opcode))))))))

  pub binary-Stays : (max op : ℕ) → Stays {H = H} (binary max op)
  unfolding binary
  binary-Stays max op = Stays-bind _ _ pop-Stays λ right.
      Stays-bind _ _ pop-Stays
        λ left. Stays-bind _ _ (operator-Stays max op left right) λ v. push-Stays v

  screen-Stays :
      (id : ℕ) → Stays (update (λ (s : Machine H). record s { current_screen = some id }))
  screen-Stays id = record { stays = λ i f s at. (At-same i f s _ refl refl refl refl at, tt) }

  pub screen_open-Grows : (max : ℕ) → Grows {H = H} (screen_open max)
  unfolding screen_open
  screen_open-Grows max = Stays-then-Grows _ _ pop-Stays λ v.
      Stays-then-Grows _ _ (reads-Stays (λ _. expect_sqbc v) (λ _ _. expect_sqbc-Settles v)) λ id.
        Stays-then-Grows _ _ (screen-Stays id) λ _.
          Stays-then-Grows _ _ (reads-Stays (λ s. ok (top_depth s)) (λ _ _. tt))
            λ depth. push_screen_resume_frame-Grows max id (depth + 1)

  pub screen_refresh-Grows : (max : ℕ) → Grows {H = H} (screen_refresh max)
  unfolding screen_refresh
  screen_refresh-Grows max =
      Stays-then-Grows _ _
        (reads-Stays (λ s. ok_or s.current_screen invalid_operand)
          (λ s _. ok_or-Settles s.current_screen invalid_operand))
        λ id.
          Stays-then-Grows _ _ (reads-Stays (λ s. ok (top_depth s)) (λ _ _. tt))
            λ depth. push_screen_resume_frame-Grows max id (depth + 1)

  pub reset_state-Stays : Stays {H = H} reset_state
  unfolding reset_state
  reset_state-Stays = record { stays = λ i f s at. (At-same i f s _ refl refl refl refl at, tt) }

  top_locals_room :
      (n : ℕ) (s : Machine H)
      → suc n ≤ max_locals
      → IsValid s
      → Settles (has_local n (top_locals s))
  top_locals_room n s h valid = room n s.frames h valid.locals_full

  -- At most 16 arguments find room in the locals.
  move_arguments-Stays : (n : ℕ) → n ≤ max_locals → Stays {H = H} (move_arguments n)
  unfolding move_arguments
  move_arguments-Stays zero h = ret-Stays tt
  move_arguments-Stays (suc n) h = Stays-bind _ _ pop-Stays λ v.
      Stays-bind _ _
        (reads-Stays (λ s. has_local n (top_locals s)) (λ s valid. top_locals_room n s h valid))
        λ _. Stays-bind _ _ (set_local_of-Stays n v) λ _. move_arguments-Stays n (omega arith)

  pub call_function-Grows : (max : ℕ) → Grows {H = H} (call_function max)
  unfolding call_function
  call_function-Grows max = Stays-then-Grows _ _ operand_u16-Stays λ id.
      Stays-then-Grows _ _ operand_u16-Stays λ count.
        reads-Grows (λ _. count ≤ max_locals)
          (λ (s : Machine H). callee s.index.functions (length s.stack) id count) _
          (λ s _. callee-Settles s.index.functions (length s.stack) id count)
          (λ s valid f e.
            callee-le s.index.functions (length s.stack) id count f valid.stack_fits e)
          λ f few.
            Stays-then-Grows _ _ (enter_chunk-Stays (chunk_ref (function_frame id)) false) λ _.
              Stays-then-Grows _ _ (reads-Stays (λ s. ok (top_depth s)) (λ _ _. tt)) λ depth.
                Grows-Stays _ _
                  (push_resume_frame-Grows max (function_frame id) f.start f.len (depth + 1))
                  λ _. move_arguments-Stays count few
