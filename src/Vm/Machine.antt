-- ===== src/Vm/Machine.antt =====
-- compiler/rust/crates/squidvm-core/src/vm.rs and host.rs: the state of `ChunkedVm` and what is read of
-- it. `max` is `usize::MAX`. The stack and the frames are lists with the top first. The buffer `code` is
-- the list of the bytes that are loaded, so `code_len` is its length; a read that fails leaves it as it
-- is. `H` is the state of the host.
use squid_script.Base.{
  ℕ, zero, suc, ◌+◌, ◌-◌, ◌%◌, ◌^◌, Bool, true, false, not, ◌&&◌, ◌||◌, Option, none, some, List,
  [], ◌∷◌, ◌++◌, length, get_elem?, replicate, map, bytes_eq, ltb, leb, ◌==◌, if◌then◌else◌, Result,
  ok, err, ◌>>=◌, ◌>>◌, guard, ok_or,
}
use squid_script.Base.Words.{from_le}
use squid_script.Vm.Services.{Service, Answer, Drawing}
use squid_script.Vm.Values.{
  VmError, invalid_operand, invalid_jump, Value, null, bool_value, i32_value, record_value,
  list_value, handle_value, is_string,
}
use squid_script.Vm.State.{StateSlot, max_state}
use squid_script.Vm.Cache.{ChunkCache, ChunkRef, handler, function, screen}
use squid_script.Vm.ProgramIndex.{ProgramIndex, index_string}
use squid_script.Vm.Strings.{Interner, empty_interner, value_str, max_runtime_string_bytes}
use squid_script.Vm.Heap.{RuntimeRecords, RuntimeLists, new_records, new_lists}

pub data FrameKind : Type 0 where
  handler_frame function_frame screen_frame : ℕ → FrameKind

-- `ChunkedFrameKind::chunk_ref`
unfoldable pub chunk_ref : FrameKind → ChunkRef
chunk_ref (handler_frame index) = record { app = 0; kind = handler; index = index }
chunk_ref (function_frame index) = record { app = 0; kind = function; index = index }
chunk_ref (screen_frame index) = record { app = 0; kind = screen; index = index }

pub data Pending : Type 0 where
  not_pending : Pending
  sqbc_read_pending : (offset len : ℕ) → Pending
  state_load_pending state_save_pending state_reset_pending : Pending

-- `ChunkedResume`
pub record Frame : Type 0 where
  pub kind : FrameKind
  pub start : ℕ
  pub end : ℕ
  pub ip : ℕ
  pub locals : List Value
  pub depth : ℕ
  pub pending : Pending

-- The bytes of a save stand for the pointer to them.
pub data StorageRequest : Type 0 where
  sqbc_read : (offset len : ℕ) → StorageRequest
  state_load state_reset : StorageRequest
  state_save : List ℕ → StorageRequest

pub data VmDispatch : Type 0 where
  complete : VmDispatch
  pending_storage : StorageRequest → VmDispatch

-- What the VM calls of `ChunkedVmHost`; `call` and `draw` are the methods that builtins use.
pub record Host (H : Type 0) : Type 0 where
  pub read_exact_at : H → ℕ → ℕ → H × Result VmError (List ℕ)
  pub should_defer_read : H → ℕ → ℕ → H × Result VmError Bool
  pub trace : H → List ℕ → H
  pub load_state : H → H × Result VmError (Option (List ℕ))
  pub save_state : H → List ℕ → H × Result VmError (Unit {0})
  pub reset_persistent : H → H × Result VmError (Unit {0})
  pub call : (q : Service) → H → H × Result VmError (Answer q)
  pub draw : Drawing → H → H

-- `ChunkedVm`, and the host beside it.
pub record Machine (H : Type 0) : Type 0 where
  pub index : ProgramIndex
  pub strings : Interner
  pub runtime_records : RuntimeRecords
  pub runtime_lists : RuntimeLists
  pub state : List Value
  pub stack : List Value
  pub current_screen : Option ℕ
  pub exited : Bool
  pub instructions : ℕ
  pub chunk_cache : ChunkCache
  pub code : List ℕ
  pub code_start : ℕ
  pub frames : List Frame
  pub host : H

-- The values of the slots, then `Null` up to the end of the array.
abbrev pub initial_state : List StateSlot → List Value
initial_state slots = map (λ s. s.default) slots ++ replicate (max_state - length slots) null

-- `ChunkedVm::new`
unfoldable pub new_machine : {H : Type 0} → ℕ → ProgramIndex → H → Machine H
new_machine max index host = record {
  index = index;
  strings = empty_interner;
  runtime_records = new_records;
  runtime_lists = new_lists;
  state = initial_state index.state_slots;
  stack = [];
  current_screen = none;
  exited = false;
  instructions = 0;
  chunk_cache = squid_script.Vm.Cache.new 4;
  code = [];
  code_start = max;
  frames = [];
  host = host;
}

-- `code_byte` of the loaded bytes.
unfoldable pub code_byte : List ℕ → ℕ → ℕ → Result VmError ℕ
code_byte code code_start offset =
    if ltb offset code_start
    then err invalid_jump
    else ok_or (get_elem? code (offset - code_start)) invalid_jump

unfoldable pub read_u16_code : List ℕ → ℕ → ℕ → Result VmError ℕ
unfolding code_byte
read_u16_code code code_start offset = do
  b₀ ← code_byte code code_start offset
  b₁ ← code_byte code code_start (offset + 1)
  ok (from_le (b₀ ∷ b₁ ∷ []))

-- Both `read_u32_code` and `read_i32_code`: an i32 is its pattern.
unfoldable pub read_u32_code : List ℕ → ℕ → ℕ → Result VmError ℕ
unfolding code_byte
read_u32_code code code_start offset = do
  b₀ ← code_byte code code_start offset
  b₁ ← code_byte code code_start (offset + 1)
  b₂ ← code_byte code code_start (offset + 2)
  b₃ ← code_byte code code_start (offset + 3)
  ok (from_le (b₀ ∷ b₁ ∷ b₂ ∷ b₃ ∷ []))

-- `left < right` of two i32 patterns: with the sign bit flipped they compare as numbers.
abbrev pub biased : ℕ → ℕ
biased n = (n + 2 ^ 31) % 2 ^ 32

abbrev pub bool_eq : Bool → Bool → Bool
bool_eq true b = b
bool_eq false b = not b

-- `left == right` of values that are neither strings nor handles.
unfoldable pub plain_eq : Value → Value → Bool
plain_eq null null = true
plain_eq (bool_value a) (bool_value b) = bool_eq a b
plain_eq (i32_value a) (i32_value b) = a == b
plain_eq (record_value a) (record_value b) = a == b
plain_eq (list_value a) (list_value b) = a == b
plain_eq left right = false

abbrev pub is_handle : Value → Bool
is_handle (handle_value h) = true
is_handle v = false

-- `values_equal` of state.rs.
unfoldable pub values_equal :
    (ℕ → Result VmError (List ℕ)) → Interner → Value → Value → Result VmError Bool
unfolding value_str plain_eq is_string
values_equal string i left right =
    if is_string left || is_string right
    then (if not (is_string left && is_string right)
        then ok false
        else value_str string i left >>= λ a. value_str string i right >>= λ b. ok (bytes_eq a b))
    else if is_handle left || is_handle right
    then err invalid_operand
    else ok (plain_eq left right)

-- `concat_value_strings` of state.rs.
unfoldable pub concat_value_strings :
    (ℕ → Result VmError (List ℕ)) → Interner → Value → Value → Result VmError (List ℕ)
unfolding value_str
concat_value_strings string i left right = do
  a ← value_str string i left
  b ← value_str string i right
  guard (leb (length a + length b) max_runtime_string_bytes) invalid_operand
  ok (a ++ b)

-- The loop of `find_string` of `ProgramIndex`, at string `id` with `n` to go.
unfoldable pub index_find_from : ℕ → ProgramIndex → List ℕ → ℕ → ℕ → Result VmError (Option ℕ)
unfolding index_string
index_find_from max x value id zero = ok none
index_find_from max x value id (suc n) = do
  s ← index_string max x id
  let later = index_find_from max x value (suc id) n
  if bytes_eq s value then ok (some id) else later

unfoldable pub index_find_string : ℕ → ProgramIndex → List ℕ → Result VmError (Option ℕ)
unfolding index_find_from
index_find_string max x value = index_find_from max x value 0 (length x.strings)
