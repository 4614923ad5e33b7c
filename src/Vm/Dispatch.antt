-- ===== src/Vm/Dispatch.antt =====
-- compiler/rust/crates/squidvm-core/src/vm.rs: the loop of `execute_resume_frames` and the entry points
-- of `ChunkedVm`. The loop runs on fuel: a round executes an instruction, of which an event has 1000,
-- or drops a frame.
pub mod Budget
pub mod Event
mod Tests
use squid_script.Base.{
  fitting, ◌%◌, ℕ, zero, suc, ◌+◌, ◌-◌, ◌*◌, ◌&&◌, Option, none, some, List, [], ◌∷◌, ◌++◌, length,
  take, drop, set, leb, ◌==◌, if◌then◌else◌, Result, ok, panic, stuck, ok_or,
}
use squid_script.Vm.Limits.{
  max_locals, max_call_depth, max_instructions_per_event, max_code_chunk_bytes,
}
use squid_script.Vm.Values.{
  VmError, invalid_operand, read_failed, local_out_of_bounds, instruction_budget_exceeded, Value,
  null,
}
use squid_script.Vm.Tables.{Handler}
use squid_script.Vm.Strings.{retain_state_values}
use squid_script.Vm.Record.{apply_state_record}
use squid_script.Vm.FieldNames.{parse_field_name}
use squid_script.Vm.Heap.{RuntimeRecordField, max_runtime_record_fields}
use squid_script.Vm.ProgramIndex.{index_string, index_handler}
use squid_script.Vm.Machine.{
  handler_frame, chunk_ref, Pending, not_pending, sqbc_read_pending, state_load_pending,
  state_save_pending, state_reset_pending, Frame, StorageRequest, sqbc_read, state_load,
  state_reset, state_save, VmDispatch, complete, Host, index_find_string,
}
use squid_script.Vm.Exec.{
  M, ◌>>=◌, ◌>>◌, ret, fail, reads, update, guard, asks, set_top, operand_byte, enter_chunk,
  push_resume_frame, load_chunk_resumable,
}
use squid_script.Vm.Builtins.{call_builtin}
use squid_script.Vm.Builtins.Operands.{alloc}
use squid_script.Vm.Instructions.{
  Next, go_on, leave, intern_runtime, reset_state, suspend, leave_frame, execute,
}

-- Enough fuel for an event.
abbrev pub loop_fuel : ℕ
loop_fuel = 2 * suc max_instructions_per_event + max_call_depth + 2

-- "state.load", "state.save" and "state.reset"
abbrev pub state_dot : List ℕ → List ℕ
state_dot word = 0x73 ∷ 0x74 ∷ 0x61 ∷ 0x74 ∷ 0x65 ∷ 0x2e ∷ word

abbrev pub trace_load : List ℕ
trace_load = state_dot (0x6c ∷ 0x6f ∷ 0x61 ∷ 0x64 ∷ [])

abbrev pub trace_save : List ℕ
trace_save = state_dot (0x73 ∷ 0x61 ∷ 0x76 ∷ 0x65 ∷ [])

abbrev pub trace_reset : List ℕ
trace_reset = state_dot (0x72 ∷ 0x65 ∷ 0x73 ∷ 0x65 ∷ 0x74 ∷ [])

-- What a storage operation completes with: the bytes, and how many of them count.
pub record StorageCompletion : Type 0 where
  pub bytes : List ℕ
  pub len : Option ℕ

-- `&bytes[..len]`
abbrev pub first_bytes : ℕ → List ℕ → Result VmError (List ℕ)
first_bytes len bytes = if leb len (length bytes) then ok (take len bytes) else panic

module _ {H : Type 0} where
  -- `apply_state_record` on the machine's slots and state.
  unfoldable pub apply_record : ℕ → List ℕ → M H (Unit {0})
  unfolding apply_state_record index_string index_find_string
  apply_record max bytes s =
      let count = length s.index.state_slots in
      let ((strings, state), outcome) =
        apply_state_record (index_string max s.index) (index_find_string max s.index) bytes
          s.index.state_slots (s.strings, take count s.state) in
      (record s { strings = strings; state = state ++ drop count s.state }, outcome)

  -- The strings of the state move to an empty interner.
  unfoldable pub retain_state : ℕ → M H (Unit {0})
  unfolding retain_state_values index_string index_find_string
  retain_state max s =
      let count = length s.index.state_slots in
      let ((strings, state), outcome) =
        retain_state_values (index_string max s.index) (index_find_string max s.index) s.strings
          (take count s.state) in
      (record s { strings = strings; state = state ++ drop count s.state }, outcome)

  abbrev pub traced : Host H → List ℕ → M H (Unit {0})
  traced host message = update (λ s. record s { host = host.trace s.host message })

  -- The loop of `event_payload_record` over names and values.
  unfoldable pub payload_fields : ℕ → List (List ℕ × List ℕ) → M H (List RuntimeRecordField)
  unfolding intern_runtime parse_field_name
  payload_fields max [] = ret []
  payload_fields max ((name, text) ∷ fields) = do
    value ← intern_runtime max text
    known ← reads (λ _. ok_or (parse_field_name name) invalid_operand)
    rest ← payload_fields max fields
    ret (record { name = known; value = value } ∷ rest)

  unfoldable pub event_payload_record : ℕ → List (List ℕ × List ℕ) → M H Value
  unfolding payload_fields alloc
  event_payload_record max fields = do
    guard (leb (length fields) max_runtime_record_fields) invalid_operand
    reads (λ _. fitting (length fields) max_runtime_record_fields (ok tt))
    made ← payload_fields max fields
    alloc made

  -- What the payload of an event gives its handler.
  unfoldable pub payload_value : ℕ → Option (List (List ℕ × List ℕ)) → M H Value
  unfolding event_payload_record
  payload_value max none = ret null
  payload_value max (some fields) = event_payload_record max fields

  unfoldable pub pass_payload : ℕ → ℕ → Option (List (List ℕ × List ℕ)) → M H (Unit {0})
  unfolding payload_value set_top
  pass_payload max param_count payload =
      let passing = payload_value max payload >>= λ value.
      set_top (λ f. record f { locals = set f.locals 0 value }) in
      if param_count == 1 then passing else ret tt

  -- The request of `load_chunk_resumable`, if there is one, suspends the frame.
  unfoldable pub await_chunk : StorageRequest → M H Next
  unfolding suspend
  await_chunk (sqbc_read offset len) = suspend (sqbc_read_pending offset len) (sqbc_read offset len)
  await_chunk request = fail read_failed

-- The loop goes on, or returns.
abbrev pub after_round : {H : Type 0} → Next → M H VmDispatch → M H VmDispatch
after_round go_on again = again
after_round (leave d) again = ret d

module _ {H : Type 0} (max : ℕ) (host : Host H) where
  -- A round that executes an instruction.
  unfoldable pub instruction : M H Next
  unfolding operand_byte execute call_builtin
  instruction = do
    update (λ s. record s { instructions = suc s.instructions })
    count ← reads (λ s. ok s.instructions)
    guard (leb count max_instructions_per_event) instruction_budget_exceeded
    op ← operand_byte
    execute max (call_builtin max host) op

  -- Behind the load: a request for the chunk suspends the frame.
  unfoldable pub after_load : Option StorageRequest → M H Next
  unfolding await_chunk instruction
  after_load none = instruction
  after_load (some r) = await_chunk r

  unfoldable pub round_in : List Frame → M H Next
  unfolding leave_frame load_chunk_resumable after_load
  round_in [] = ret (leave complete)
  round_in (frame ∷ frames) =
      let running =
        load_chunk_resumable max host frame.start (frame.end - frame.start) >>= λ request.
        after_load request in
      if leb frame.end frame.ip then leave_frame null else running

  -- A round of the loop.
  unfoldable pub round : M H Next
  unfolding round_in
  round s = round_in s.frames s

  unfoldable pub execute_resume_frames : ℕ → M H VmDispatch
  unfolding round
  execute_resume_frames zero = λ s. (s, stuck)
  execute_resume_frames (suc fuel) = round >>= λ next. after_round next (execute_resume_frames fuel)

  -- What `dispatch_resumable_with_payload` does with the handler of the event.
  unfoldable pub start_handler :
      List ℕ → Option (List (List ℕ × List ℕ)) → ℕ → Handler → M H VmDispatch
  unfolding retain_state enter_chunk chunk_ref push_resume_frame pass_payload execute_resume_frames
  start_handler event payload place h = do
    guard (leb h.local_count max_locals && leb h.param_count h.local_count) local_out_of_bounds
    retain_state max
    update (λ s. record s {
      runtime_records = record s.runtime_records { next = 0 };
      runtime_lists = record s.runtime_lists { next = 0 };
    })
    enter_chunk (chunk_ref (handler_frame place)) h.preload
    traced host event
    update (λ s. record s { instructions = 0; frames = [] })
    push_resume_frame max (handler_frame place) h.start h.len 0
    guard (leb h.param_count 1) local_out_of_bounds
    pass_payload max h.param_count payload
    execute_resume_frames loop_fuel

  unfoldable pub dispatch_resumable_with_payload :
      List ℕ → Option (List (List ℕ × List ℕ)) → M H VmDispatch
  unfolding start_handler index_handler
  dispatch_resumable_with_payload event payload s =
      let found = reads (λ s. index_handler max s.index event) >>= λ (place, h).
      start_handler event payload place h in
      if s.exited then (s, ok complete) else found s

  unfoldable pub dispatch_resumable : List ℕ → M H VmDispatch
  unfolding dispatch_resumable_with_payload
  dispatch_resumable event = dispatch_resumable_with_payload event none

  -- What `resume_storage` does with a completed read of code, of `len` bytes at `offset`.
  unfoldable pub resume_read : Frame → ℕ → ℕ → StorageCompletion → M H (Unit {0})
  resume_read frame offset len completion = do
    expected ← reads (λ s. ok ((s.index.code_offset + frame.start) % suc max))
    guard (offset == expected) read_failed
    let relative_len = if leb len max_code_chunk_bytes then len else max_code_chunk_bytes
    bytes ← reads (λ _. first_bytes relative_len completion.bytes)
    update (λ s. record s { code = bytes; code_start = frame.start })

  unfoldable pub resume_load : StorageCompletion → Option ℕ → M H (Unit {0})
  unfolding apply_record
  resume_load completion none = traced host trace_load
  resume_load completion (some len) = do
    bytes ← reads (λ _. first_bytes len completion.bytes)
    apply_record max bytes
    traced host trace_load

  unfoldable pub resume_pending : Frame → StorageCompletion → Pending → M H (Unit {0})
  unfolding resume_read resume_load
  resume_pending frame completion not_pending = ret tt
  resume_pending frame completion (sqbc_read_pending offset len) =
      resume_read frame offset len completion
  resume_pending frame completion state_load_pending = resume_load completion completion.len
  resume_pending frame completion state_save_pending = traced host trace_save
  resume_pending frame completion state_reset_pending = traced host trace_reset

  unfoldable pub resume_in : List Frame → StorageCompletion → M H VmDispatch
  unfolding resume_pending set_top execute_resume_frames
  resume_in [] completion = ret complete
  resume_in (frame ∷ frames) completion = do
    resume_pending frame completion frame.pending
    set_top (λ f. record f { pending = not_pending })
    execute_resume_frames loop_fuel

  unfoldable pub resume_storage : StorageCompletion → M H VmDispatch
  unfolding resume_in
  resume_storage completion s = resume_in s.frames completion s

  -- The request, carried out at once by the host.
  unfoldable pub carry_out : Frame → StorageRequest → M H (Unit {0})
  unfolding apply_record reset_state
  carry_out frame (sqbc_read offset len) = do
    expected ← reads (λ s. ok ((s.index.code_offset + frame.start) % suc max))
    guard (offset == expected && leb len max_code_chunk_bytes) read_failed
    reads (λ _. fitting len max_code_chunk_bytes (ok tt))
    bytes ← asks (λ h. host.read_exact_at h offset len)
    update (λ s. record s { code = bytes; code_start = frame.start })
  carry_out frame state_load = do
    loaded ← asks host.load_state
    elim loaded [
      | none ↦ traced host trace_load
      | some bytes ↦ (apply_record max bytes >> traced host trace_load)
    ]
  carry_out frame (state_save bytes) = asks (λ h. host.save_state h bytes) >> traced host trace_save
  carry_out frame state_reset =
      reset_state >> (asks host.reset_persistent >> traced host trace_reset)

  unfoldable pub resume_immediate_in : List Frame → StorageRequest → M H VmDispatch
  unfolding carry_out set_top execute_resume_frames
  resume_immediate_in [] request = ret complete
  resume_immediate_in (frame ∷ frames) request = do
    carry_out frame request
    set_top (λ f. record f { pending = not_pending })
    execute_resume_frames loop_fuel

  unfoldable pub resume_immediate_storage : StorageRequest → M H VmDispatch
  unfolding resume_immediate_in
  resume_immediate_storage request s = resume_immediate_in s.frames request s
