-- ===== src/Vm/Dispatch/Budget.antt =====
-- compiler/rust/crates/squidvm-core/src/vm.rs: the loop of `execute_resume_frames` ends, within the
-- instructions of an event, and keeps the machine valid.
use squid_script.Base.{
  ℕ, suc, ◌+◌, ◌-◌, ◌*◌, ◌≤◌, ◌<◌, ◌≡◌, refl, subst, ◌&&◌, Bool-cases, inl, inr, Option, none, some,
  List, [], ◌∷◌, length, take, ltb, leb, leb→le, ◌==◌, if◌then◌else◌, Result, ok, err, panic, stuck,
  Settles, Settles-bind, Settles-guard, arith,
}
use squid_script.Base.Words.{to_le}
use squid_script.Vm.Limits.{max_instructions_per_event}
use squid_script.Vm.Values.{
  VmError, unknown_opcode, state_too_large, Value, null, bool_value, i32_value, string_value,
  record_value, list_value, handle_value,
}
use squid_script.Vm.State.{StateSlot, flag}
use squid_script.Vm.Strings.{Interner, value_str}
use squid_script.Vm.Strings.Acyclic.{IsAcyclic}
use squid_script.Vm.Strings.Interns.{value_str-Settles}
use squid_script.Vm.Record.{
  state_record_magic, write_bytes, write_len_prefixed, encode_state_record_value, encode_fields,
  encode_state_record,
}
use squid_script.Vm.ProgramIndex.{index_string}
use squid_script.Vm.Machine.{
  Pending, state_load_pending, state_save_pending, state_reset_pending, sqbc_read_pending, Frame,
  StorageRequest, sqbc_read, state_load, state_reset, state_save, complete, pending_storage, Host,
  Machine, index_find_string,
}
use squid_script.Vm.Exec.{
  M, follow, ret, push, set_top, operand_byte, complete_resume_frame, load_chunk_resumable,
}
use squid_script.Vm.Exec.Triples.{
  IsValid, At, Leaves, Stays, Grows, Stays-Grows, Stays-bind, Grows-Stays, Stays-then-Grows,
  ret-Stays, fail-Stays, reads-Stays, if-Stays, if-Grows, follow-Leaves,
}
use squid_script.Vm.Exec.Safe.{
  index_string-Settles, index_find_string-Settles, push-Stays, pop-Stays, set_top-Stays,
  operand_byte-Stays, complete_resume_frame-Stays, complete_resume_frame-Leaves, Returns,
  load_chunk_resumable-Stays,
}
use squid_script.Vm.Builtins.{call_builtin}
use squid_script.Vm.Builtins.Safe.{call_builtin-Stays}
use squid_script.Vm.Instructions.{
  Next, go_on, leave, push_int, push_bool, push_string, get_state, set_state, get_local, set_local,
  get_field, binary, op_list_len, op_list_get, jump, jump_if_false, call_function, screen_open,
  screen_refresh, save_request, suspend, argument_count, leave_frame, call_builtin_resumable,
  op_call_builtin, then_go_on, execute_rest, execute,
}
use squid_script.Vm.Instructions.Safe.{
  push_int-Stays, push_bool-Stays, push_string-Stays, get_state-Stays, set_state-Stays,
  get_local-Stays, set_local-Stays, get_field-Stays, binary-Stays, op_list_len-Stays,
  op_list_get-Stays, jump-Stays, jump_if_false-Stays, call_function-Grows, screen_open-Grows,
  screen_refresh-Grows, reset_state-Stays,
}
use squid_script.Vm.Dispatch.{await_chunk, after_load, instruction, round_in, round}

write_bytes-Settles : (out bytes : List ℕ) → Settles (write_bytes out bytes)
unfolding write_bytes
write_bytes-Settles out bytes = ground arith

write_len_prefixed-Settles : (out bytes : List ℕ) → Settles (write_len_prefixed out bytes)
unfolding write_len_prefixed
write_len_prefixed-Settles out bytes = Settles-guard (ltb (length bytes) 256) state_too_large _ λ _.
    Settles-bind (write_bytes out (length bytes ∷ [])) _
      (write_bytes-Settles out (length bytes ∷ [])) λ more _. write_bytes-Settles more bytes

module _ (string : ℕ → Result VmError (List ℕ)) (find : List ℕ → Result VmError (Option ℕ))
    (settles : (id : ℕ) → Settles (string id)) (finds : (s : List ℕ) → Settles (find s)) where
  encode_state_record_value-Settles :
      (i : Interner) (out : List ℕ) (v : Value)
      → IsAcyclic i.refs
      → Settles (encode_state_record_value string i out v)
  unfolding encode_state_record_value
  encode_state_record_value-Settles i out null h = write_bytes-Settles out (0 ∷ [])
  encode_state_record_value-Settles i out (bool_value b) h =
      Settles-bind (write_bytes out (1 ∷ [])) _ (write_bytes-Settles out (1 ∷ []))
        λ more _. write_bytes-Settles more (flag b ∷ [])
  encode_state_record_value-Settles i out (i32_value n) h =
      Settles-bind (write_bytes out (2 ∷ [])) _ (write_bytes-Settles out (2 ∷ []))
        λ more _. write_bytes-Settles more (to_le 4 n)
  encode_state_record_value-Settles i out (string_value r) h =
      Settles-bind (write_bytes out (3 ∷ [])) _ (write_bytes-Settles out (3 ∷ [])) λ more _.
        Settles-bind (value_str string i (string_value r)) _
          (value_str-Settles string find settles finds i (string_value r) h)
          λ text _. write_len_prefixed-Settles more text
  encode_state_record_value-Settles i out (record_value r) h = tt
  encode_state_record_value-Settles i out (list_value r) h = tt
  encode_state_record_value-Settles i out (handle_value r) h = tt

  encode_fields-Settles :
      (i : Interner) (out : List ℕ) (slots : List StateSlot) (values : List Value)
      → IsAcyclic i.refs
      → Settles (encode_fields string i out slots values)
  unfolding encode_fields
  encode_fields-Settles i out [] values h = tt
  encode_fields-Settles i out (slot ∷ slots) [] h = tt
  encode_fields-Settles i out (slot ∷ slots) (v ∷ values) h =
      Settles-bind (string slot.name_id) _ (settles slot.name_id) λ name _.
        Settles-bind (write_len_prefixed out name) _ (write_len_prefixed-Settles out name) λ a _.
          Settles-bind (write_bytes a (slot.value_type.tag ∷ [])) _
            (write_bytes-Settles a (slot.value_type.tag ∷ []))
            λ b _.
              Settles-bind (write_bytes b (flag slot.value_type.nullable ∷ [])) _
                (write_bytes-Settles b (flag slot.value_type.nullable ∷ []))
                λ c _.
                  Settles-bind (encode_state_record_value string i c v) _
                    (encode_state_record_value-Settles i c v h)
                    λ d _. encode_fields-Settles i d slots values h

  encode_state_record-Settles :
      (i : Interner) (slots : List StateSlot) (values : List Value)
      → IsAcyclic i.refs
      → Settles (encode_state_record string i slots values)
  unfolding encode_state_record
  encode_state_record-Settles i slots values h =
      Settles-bind (write_bytes [] state_record_magic) _ (write_bytes-Settles [] state_record_magic)
        λ a _.
          Settles-bind (write_bytes a (length slots ∷ [])) _
            (write_bytes-Settles a (length slots ∷ []))
            λ b _. encode_fields-Settles i b slots values h

module _ {H : Type 0} where
  suspend-Stays : (p : Pending) (r : StorageRequest) → Stays {H = H} (suspend p r)
  unfolding suspend
  suspend-Stays p r =
      Stays-bind _ _ (set_top-Stays (λ f. record f { pending = p }) (λ h e. e))
        λ _. ret-Stays (leave (pending_storage r))

  save_request-Stays : (max : ℕ) → Stays {H = H} (save_request max)
  unfolding save_request
  save_request-Stays max =
      Stays-bind _ _
        (reads-Stays
          (λ s.
            encode_state_record (index_string max s.index) s.strings s.index.state_slots
              (take (length s.index.state_slots) s.state))
          (λ s valid.
            encode_state_record-Settles (index_string max s.index) (index_find_string max s.index)
              (index_string-Settles max s.index) (index_find_string-Settles max s.index) s.strings
              s.index.state_slots (take (length s.index.state_slots) s.state)
              valid.strings_acyclic))
        λ bytes. ret-Stays (state_save bytes)

  leave_frame-Stays : (v : Value) → Stays {H = H} (leave_frame v)
  unfolding leave_frame
  leave_frame-Stays v = Stays-bind _ _ (complete_resume_frame-Stays v) λ _.
      Stays-bind _ _ (reads-Stays (λ s. ok (length s.frames)) (λ _ _. tt))
        λ left. ret-Stays (if ltb 0 left then go_on else leave complete)

  then-Stays : (m : M H (Unit {0})) → Stays m → Grows (then_go_on m)
  then-Stays m h = Stays-Grows _ (Stays-bind _ _ h λ _. ret-Stays go_on)

  then-Grows : (m : M H (Unit {0})) → Grows m → Grows (then_go_on m)
  then-Grows m h = Grows-Stays _ _ h λ _. ret-Stays go_on

  argument_count-Stays : (n : ℕ) → Stays {H = H} (argument_count n)
  unfolding argument_count
  argument_count-Stays n = if-Stays (n == 4) operand_byte (ret 0) operand_byte-Stays (ret-Stays 0)

module _ {H : Type 0} (max : ℕ) (builtin : ℕ → ℕ → M H (Unit {0}))
    (keeps : (number arg_count : ℕ) → Stays (builtin number arg_count)) where
  call_builtin_resumable-Stays : (n a : ℕ) → Stays (call_builtin_resumable max builtin n a)
  unfolding call_builtin_resumable
  call_builtin_resumable-Stays n a =
      if-Stays (n == 1) _ _ (suspend-Stays state_load_pending state_load) (
        if-Stays (n == 2) _ _
          (Stays-bind _ _ (save_request-Stays max) λ r. suspend-Stays state_save_pending r)
          (if-Stays (n == 3) _ _
            (Stays-bind _ _ reset_state-Stays λ _. suspend-Stays state_reset_pending state_reset)
            (Stays-bind _ _ (keeps n a) λ _. ret-Stays go_on)))

  op_call_builtin-Grows : Grows (op_call_builtin max builtin)
  unfolding op_call_builtin
  op_call_builtin-Grows = Stays-then-Grows _ _ operand_byte-Stays λ n.
      Stays-then-Grows _ _ (argument_count-Stays n) λ a.
        if-Grows (n == 0x20) _ _ (then-Grows (screen_open max) (screen_open-Grows max)) (
          if-Grows (n == 0x21) _ _ (then-Grows (screen_refresh max) (screen_refresh-Grows max))
            (Stays-Grows _ (call_builtin_resumable-Stays n a)))

  execute_rest-Grows : (op : ℕ) → Grows (execute_rest max builtin op)
  unfolding execute_rest
  execute_rest-Grows op = if-Grows (op == 30) _ _ (then-Stays jump jump-Stays) (
      if-Grows (op == 31) _ _ (then-Stays jump_if_false jump_if_false-Stays) (
        if-Grows (op == 40) _ _ (then-Grows (call_function max) (call_function-Grows max)) (
          if-Grows (op == 41) _ _
            (Stays-Grows _ (Stays-bind _ _ pop-Stays λ v. leave_frame-Stays v))
            (if-Grows (op == 42) _ _ (Stays-Grows _ (leave_frame-Stays null)) (
              if-Grows (op == 50) _ _ op_call_builtin-Grows (
                if-Grows (op == 60) _ _
                  (Stays-Grows _ (Stays-bind _ _ pop-Stays λ _. ret-Stays go_on))
                  (if-Grows (op == 61) _ _ (then-Stays op_list_len op_list_len-Stays) (
                    if-Grows (op == 62) _ _ (then-Stays op_list_get op_list_get-Stays)
                      (Stays-Grows _ (fail-Stays Next unknown_opcode))))))))))

  execute-Grows : (op : ℕ) → Grows (execute max builtin op)
  unfolding execute
  execute-Grows op = if-Grows (op == 1) _ _ (then-Stays push_int push_int-Stays) (
      if-Grows (op == 2) _ _ (then-Stays push_bool push_bool-Stays) (
        if-Grows (op == 3) _ _ (then-Stays push_string push_string-Stays) (
          if-Grows (op == 4) _ _ (then-Stays (push null) (push-Stays null)) (
            if-Grows (op == 10) _ _ (then-Stays get_state get_state-Stays) (
              if-Grows (op == 11) _ _ (then-Stays set_state set_state-Stays) (
                if-Grows (op == 12) _ _ (then-Stays get_local get_local-Stays) (
                  if-Grows (op == 13) _ _ (then-Stays set_local set_local-Stays) (
                    if-Grows (op == 14) _ _ (then-Stays (get_field max) (get_field-Stays max)) (
                      if-Grows (leb 20 op && leb op 27) _ _
                        (then-Stays (binary max op) (binary-Stays max op))
                        (execute_rest-Grows op))))))))))

-- What is left of the loop: two rounds for each instruction that the event still has, and one for each
-- frame.
abbrev pub rounds_left : {H : Type 0} → Machine H → ℕ
rounds_left s = 2 * (suc max_instructions_per_event - s.instructions) + length s.frames

-- A round ends with a valid machine and a result, and if the loop goes on, with less left.
abbrev Rounds : {H : Type 0} → ℕ → Machine H × Result VmError Next → Type 0
Rounds n (s, r) = IsValid s × Settles r × (r ≡ ok go_on → rounds_left s < n)

module _ {H : Type 0} where
  Leaves-Rounds :
      (n i f : ℕ) (r : Machine H × Result VmError Next)
      → Leaves i f r
      → 2 * (suc max_instructions_per_event - i) + f < n
      → Rounds n r
  Leaves-Rounds n i f (s, r) (at, fine) h =
      let counted = at.counted in
      let below = at.frames_below in
      let same : suc max_instructions_per_event - s.instructions
          ≡ suc max_instructions_per_event - i =
        rw counted refl in
      (at.valid, fine, λ _. omega arith)

  pub At-now : (s : Machine H) → IsValid s → At s.instructions (length s.frames) s
  At-now s valid = record { valid = valid; counted = refl; frames_below = omega arith }

  counted_machine :
      (i f : ℕ) (s : Machine H)
      → At i f s
      → At (suc i) f (record s { instructions = suc s.instructions })
  counted_machine i f s at = record {
    valid = record {
      stack_fits = at.valid.stack_fits;
      frames_fit = at.valid.frames_fit;
      locals_full = at.valid.locals_full;
      strings_acyclic = at.valid.strings_acyclic;
    };
    counted = omega (arith, at.counted);
    frames_below = at.frames_below;
  }

  await_chunk-Rounds :
      (r : StorageRequest) (i f : ℕ) (s : Machine H)
      → At i f s
      → (n : ℕ) → Rounds n (await_chunk r s)
  unfolding await_chunk suspend set_top
  await_chunk-Rounds (sqbc_read offset len) i f s at n =
      let (at', fine) =
        (suspend-Stays (sqbc_read_pending offset len) (sqbc_read offset len)).stays i f s at in
      (at'.valid, fine, λ e. cc)
  await_chunk-Rounds state_load i f s at n = (at.valid, tt, λ e. cc)
  await_chunk-Rounds state_reset i f s at n = (at.valid, tt, λ e. cc)
  await_chunk-Rounds (state_save bytes) i f s at n = (at.valid, tt, λ e. cc)

  leave_frame-Rounds :
      (n i f : ℕ) (s : Machine H) (frame : Frame) (frames : List Frame)
      → s.frames ≡ frame ∷ frames
      → At i (suc f) s
      → 2 * (suc max_instructions_per_event - i) + f < n
      → Rounds n (leave_frame null s)
  unfolding leave_frame
  leave_frame-Rounds n i f s frame frames same at h =
      Leaves-Rounds n i f _
        (follow-Leaves i f f (complete_resume_frame null s) _
          (complete_resume_frame-Leaves i f s frame frames null same at) (λ _ g. g)
          (λ _ t at'. (at', tt)))
        h

module _ {H : Type 0} (max : ℕ) (host : Host H) (returns : Returns host) where
  instruction-Rounds :
      (n i f : ℕ) (s : Machine H)
      → At i f s
      → 2 * (suc max_instructions_per_event - i) + f ≤ n
      → Rounds n (instruction max host s)
  unfolding instruction
  instruction-Rounds n i f s at h =
      let counted = at.counted in
      let next = counted_machine i f s at in
      elim (Bool-cases (leb (suc s.instructions) max_instructions_per_event)) [
        | inr over ↦ rw (over, instruction) (next.valid, tt, λ e. cc)
        | inl within ↦
            let few = leb→le (suc s.instructions) max_instructions_per_event within in
            rw (within, instruction)
              (Leaves-Rounds n (suc i) (suc f) _
                ((Stays-then-Grows _ _ operand_byte-Stays λ op.
                    execute-Grows max (call_builtin max host) (call_builtin-Stays max host returns)
                      op).grows
                  (suc i) f _ next)
                (omega arith))
      ]

  follow-Rounds :
      {A : Type 0} (n i f : ℕ) (r : Machine H × Result VmError A) (k : A → M H Next)
      → Leaves i f r
      → ((a : A) (s : Machine H) → At i f s → Rounds n (k a s))
      → Rounds n (follow r k)
  follow-Rounds n i f (s, ok a) k (at, fine) h = h a s at
  follow-Rounds n i f (s, err e) k (at, fine) h = (at.valid, tt, λ e. cc)
  follow-Rounds n i f (s, panic) k (at, fine) h = absurd fine
  follow-Rounds n i f (s, stuck) k (at, fine) h = absurd fine

  after_load-Rounds :
      (n i f : ℕ) (request : Option StorageRequest) (s : Machine H)
      → At i f s
      → 2 * (suc max_instructions_per_event - i) + f ≤ n
      → Rounds n (after_load max host request s)
  unfolding after_load
  after_load-Rounds n i f none s at h = instruction-Rounds n i f s at h
  after_load-Rounds n i f (some r) s at h = await_chunk-Rounds r i f s at n

  round_in-Rounds :
      (s : Machine H) (frames : List Frame)
      → s.frames ≡ frames
      → IsValid s
      → Rounds (rounds_left s) (round_in max host frames s)
  unfolding round_in
  round_in-Rounds s [] same valid = (valid, tt, λ e. cc)
  round_in-Rounds s (frame ∷ frames) same valid =
      let size : length s.frames ≡ suc (length frames) = rw same refl in
      let at = At-now s valid in
      elim (Bool-cases (leb frame.end frame.ip)) [
        | inl done ↦
            rw (done, round_in)
              (leave_frame-Rounds (rounds_left s) s.instructions (length frames) s frame frames same
                (subst (λ (t : ℕ). At s.instructions t s) size at) (omega arith))
        | inr running ↦
            rw (running, round_in)
              (follow-Rounds (rounds_left s) s.instructions (length s.frames)
                (load_chunk_resumable max host frame.start (frame.end - frame.start) s) _
                ((load_chunk_resumable-Stays max host returns frame.start
                    (frame.end - frame.start)).stays
                  s.instructions (length s.frames) s at)
                (λ request t at'.
                  after_load-Rounds (rounds_left s) s.instructions (length s.frames) request t at'
                    (omega arith)))
      ]

  pub round-Rounds : (s : Machine H) → IsValid s → Rounds (rounds_left s) (round max host s)
  unfolding round
  round-Rounds s valid = round_in-Rounds s s.frames refl valid
