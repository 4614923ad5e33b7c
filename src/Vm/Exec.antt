-- ===== src/Vm/Exec.antt =====
-- compiler/rust/crates/squidvm-core/src/vm.rs: the methods of `ChunkedVm` on the stack, the frames and
-- the loaded code. A method on `&mut self` takes the machine and returns it beside its result, so that
-- an error leaves the machine as the code does at that point.
pub mod Triples
pub mod Safe
use squid_script.Base.{
  fitting, ℕ, suc, ◌+◌, ◌%◌, Bool, true, false, ◌&&◌, Option, none, some, List, [], ◌∷◌, length,
  replicate, leb, ◌==◌, if◌then◌else◌, Result, ok, err, panic, stuck,
}
use squid_script.Vm.Limits.{max_locals, max_stack, max_call_depth, max_code_chunk_bytes}
use squid_script.Vm.Values.{
  VmError, chunk_too_large, invalid_jump, call_depth_exceeded, stack_overflow, stack_underflow,
  Value, null,
}
use squid_script.Vm.Cache.{ChunkRef, insert, begin_execute, end_execute}
use squid_script.Vm.ProgramIndex.{index_string, index_screen}
use squid_script.Vm.Machine.{
  FrameKind, screen_frame, function_frame, chunk_ref, not_pending, Frame, StorageRequest, sqbc_read,
  Host, Machine, code_byte, read_u16_code, read_u32_code,
}

abbrev pub M : Type 0 → Type 0 → Type 0
M H A = Machine H → Machine H × Result VmError A

abbrev pub follow :
    {H A B : Type 0} → Machine H × Result VmError A → (A → M H B) → Machine H × Result VmError B
follow (s, ok a) f = f a s
follow (s, err e) f = (s, err e)
follow (s, panic) f = (s, panic)
follow (s, stuck) f = (s, stuck)

infixl 5 ◌>>=◌ ◌>>◌
abbrev pub ◌>>=◌ : {H A B : Type 0} → M H A → (A → M H B) → M H B
◌>>=◌ m f s = follow (m s) f

abbrev pub ◌>>◌ : {H B : Type 0} → M H (Unit {0}) → M H B → M H B
m >> k = m >>= λ done. k

abbrev pub ret : {H A : Type 0} → A → M H A
ret a s = (s, ok a)

abbrev pub fail : {H A : Type 0} → VmError → M H A
fail e s = (s, err e)

-- A computation that reads the machine.
abbrev pub reads : {H A : Type 0} → (Machine H → Result VmError A) → M H A
reads f s = (s, f s)

abbrev pub update : {H : Type 0} → (Machine H → Machine H) → M H (Unit {0})
update f s = (f s, ok tt)

abbrev pub guard : {H : Type 0} → Bool → VmError → M H (Unit {0})
guard b e s = (s, if b then ok tt else err e)

unfoldable pub push : {H : Type 0} → Value → M H (Unit {0})
push value s =
    if length s.stack == max_stack
    then (s, err stack_overflow)
    else (record s { stack = value ∷ s.stack }, ok tt)

unfoldable pub pop_from : {H : Type 0} → List Value → M H Value
pop_from [] s = (s, err stack_underflow)
pop_from (value ∷ stack) s = (record s { stack = stack }, ok value)

unfoldable pub pop : {H : Type 0} → M H Value
unfolding pop_from
pop s = pop_from s.stack s

-- `frames[frame_index]`: the frame that runs is the top one, and there is one while code runs.
abbrev pub on_top : (Frame → Frame) → List Frame → List Frame
on_top f [] = []
on_top f (frame ∷ frames) = f frame ∷ frames

abbrev pub of_top {ℓ} : {A : Type ℓ} → A → (Frame → A) → List Frame → A
of_top none_value f [] = none_value
of_top none_value f (frame ∷ frames) = f frame

unfoldable pub set_top : {H : Type 0} → (Frame → Frame) → M H (Unit {0})
set_top f s = (record s { frames = on_top f s.frames }, ok tt)

abbrev pub top_ip : {H : Type 0} → Machine H → ℕ
top_ip s = of_top 0 (λ f. f.ip) s.frames

abbrev pub top_end : {H : Type 0} → Machine H → ℕ
top_end s = of_top 0 (λ f. f.end) s.frames

abbrev pub top_depth : {H : Type 0} → Machine H → ℕ
top_depth s = of_top 0 (λ f. f.depth) s.frames

-- A frame that is not in use has locals too.
abbrev pub top_locals : {H : Type 0} → Machine H → List Value
top_locals s = of_top (replicate max_locals null) (λ f. f.locals) s.frames

-- `self.frames[frame_index].ip += n`
abbrev pub advance : {H : Type 0} → ℕ → M H (Unit {0})
advance n = set_top (λ f. record f { ip = f.ip + n })

-- An operand at the instruction pointer, which then moves behind it.
unfoldable pub operand_byte : {H : Type 0} → M H ℕ
unfolding set_top code_byte
operand_byte = do b ← reads (λ s. code_byte s.code s.code_start (top_ip s)); advance 1; ret b

unfoldable pub operand_u16 : {H : Type 0} → M H ℕ
unfolding set_top read_u16_code
operand_u16 = do n ← reads (λ s. read_u16_code s.code s.code_start (top_ip s)); advance 2; ret n

unfoldable pub operand_u32 : {H : Type 0} → M H ℕ
unfolding set_top read_u32_code
operand_u32 = do n ← reads (λ s. read_u32_code s.code s.code_start (top_ip s)); advance 4; ret n

-- `chunk_cache.insert(key, preload).ok(); chunk_cache.begin_execute(key).ok();`
unfoldable pub enter_chunk : {H : Type 0} → ChunkRef → Bool → M H (Unit {0})
enter_chunk key preload s =
    let (inserted, _) = insert s.chunk_cache key preload in
    let (running, _) = begin_execute inserted key in (record s { chunk_cache = running }, ok tt)

unfoldable pub leave_chunk : {H : Type 0} → ChunkRef → M H (Unit {0})
leave_chunk key s =
    let (left, _) = end_execute s.chunk_cache key in (record s { chunk_cache = left }, ok tt)

-- `start.checked_add(len)`, and the end lies in the code.
unfoldable pub code_end : ℕ → ℕ → ℕ → ℕ → Result VmError ℕ
code_end max code_len start len =
    if leb (start + len) max && leb (start + len) code_len
    then ok (start + len)
    else err invalid_jump

unfoldable pub push_resume_frame : {H : Type 0} → ℕ → FrameKind → ℕ → ℕ → ℕ → M H (Unit {0})
unfolding code_end
push_resume_frame max kind start len depth = do
  guard (leb depth max_call_depth) call_depth_exceeded
  frame_count ← reads (λ s. ok (length s.frames))
  guard (leb frame_count max_call_depth) call_depth_exceeded
  end ← reads (λ s. code_end max s.index.code_len start len)
  update (λ s. record s {
    frames =
        record {
          kind = kind;
          start = start;
          end = end;
          ip = start;
          locals = replicate max_locals null;
          depth = depth;
          pending = not_pending;
        }
        ∷ s.frames;
  })

unfoldable pub push_screen_resume_frame : {H : Type 0} → ℕ → ℕ → ℕ → M H (Unit {0})
unfolding enter_chunk push_resume_frame index_string index_screen
push_screen_resume_frame max screen_id depth = do
  name ← reads (λ s. index_string max s.index screen_id)
  (place, screen) ← reads (λ s. index_screen max s.index name)
  enter_chunk (chunk_ref (screen_frame place)) false
  push_resume_frame max (screen_frame place) screen.start screen.len depth

-- `self.frame_count > 0 && matches!(kind, ChunkedFrameKind::Function(_))`
abbrev pub returns_value : FrameKind → List Frame → Bool
returns_value (function_frame index) (frame ∷ frames) = true
returns_value kind frames = false

unfoldable pub complete_top : {H : Type 0} → List Frame → Value → M H (Unit {0})
unfolding leave_chunk push chunk_ref
complete_top [] value = ret tt
complete_top (frame ∷ frames) value = do
  leave_chunk (chunk_ref frame.kind)
  update (λ s. record s { frames = frames })
  if returns_value frame.kind frames then push value else ret tt

-- `complete_resume_frame`, where no value is `Null`.
unfoldable pub complete_resume_frame : {H : Type 0} → Value → M H (Unit {0})
unfolding complete_top
complete_resume_frame value s = complete_top s.frames value s

-- A call of the host, which changes the host only.
abbrev pub asks : {H A : Type 0} → (H → H × Result VmError A) → M H A
asks f s = let (h, outcome) = f s.host in (record s { host = h }, outcome)

abbrev pub is_loaded : {H : Type 0} → ℕ → ℕ → Machine H → Bool
is_loaded start len s = s.code_start == start && length s.code == len

-- What `load_chunk_resumable` does when the chunk is not the loaded one.
unfoldable pub fetch_chunk : {H : Type 0} → Host H → ℕ → ℕ → ℕ → M H (Option StorageRequest)
fetch_chunk host offset start len = do
  deferred ← asks (λ h. host.should_defer_read h offset len)
  if deferred then ret (some (sqbc_read offset len)) else (do
    reads (λ _. fitting len max_code_chunk_bytes (ok tt))
    bytes ← asks (λ h. host.read_exact_at h offset len)
    update (λ s. record s { code = bytes; code_start = start })
    ret none)

unfoldable pub load_chunk_resumable :
    {H : Type 0} → ℕ → Host H → ℕ → ℕ → M H (Option StorageRequest)
unfolding code_end fetch_chunk
load_chunk_resumable max host start len = do
  _ ← reads (λ s. code_end max s.index.code_len start len)
  guard (leb len max_code_chunk_bytes) chunk_too_large
  loaded ← reads (λ s. ok (is_loaded start len s))
  offset ← reads (λ s. ok ((s.index.code_offset + start) % suc max))
  if loaded then ret none else fetch_chunk host offset start len
