-- ===== src/Vm/Values.antt =====
-- compiler/rust/crates/squidvm-core/src/value.rs, error.rs and bytecode.rs: values, errors, and the
-- readers of fixed-width numbers and of values in a section. An i32 is its 32-bit pattern. A cursor
-- lies within a section or just behind what was read there, so its sums do not wrap.
pub mod Reads
use squid_script.Base.{
  ℕ, ◌+◌, Bool, true, false, not, List, length, get_elem?, slice, leb, ◌==◌, if◌then◌else◌, Result,
  ok, err, ◌>>=◌, ok_or,
}
use squid_script.Base.Words.{from_le}

pub data VmError : Type 0 where
  too_large invalid_header missing_section duplicate_section invalid_section duplicate_table_key :
      VmError
  invalid_string_ref invalid_utf8 too_many_strings too_many_state_slots too_many_functions : VmError
  too_many_handlers too_many_screens unknown_opcode invalid_operand invalid_jump stack_overflow :
      VmError
  stack_underflow local_out_of_bounds state_out_of_bounds function_out_of_bounds : VmError
  handler_not_found instruction_budget_exceeded call_depth_exceeded chunk_too_large read_failed :
      VmError
  invalid_state_record state_type_mismatch state_too_large : VmError

pub data StringRef : Type 0 where
  sqbc static_string dynamic : ℕ → StringRef

pub data HandleKind : Type 0 where
  bin_book drawable : HandleKind

pub record Handle : Type 0 where
  pub kind : HandleKind
  pub id : ℕ

pub data Value : Type 0 where
  null : Value
  bool_value : Bool → Value
  i32_value : ℕ → Value
  string_value : StringRef → Value
  record_value list_value : ℕ → Value
  handle_value : Handle → Value

unfoldable pub truthy : Value → Bool
truthy null = false
truthy (bool_value b) = b
truthy (i32_value n) = not (n == 0)
truthy (string_value s) = true
truthy (record_value r) = true
truthy (list_value l) = true
truthy (handle_value h) = true

unfoldable pub expect_i32 : Value → Result VmError ℕ
expect_i32 (i32_value n) = ok n
expect_i32 _ = err invalid_operand

unfoldable pub is_string : Value → Bool
is_string (string_value s) = true
is_string _ = false

-- `*bytes.get(cursor).ok_or(VmError::InvalidSection)?`
unfoldable pub byte_at : List ℕ → ℕ → Result VmError ℕ
byte_at section cursor = ok_or (get_elem? section cursor) invalid_section

-- `n` bytes at the offset, as a little-endian number.
unfoldable pub read_le : ℕ → List ℕ → ℕ → Result VmError ℕ
read_le n section offset =
    if leb (offset + n) (length section)
    then ok (from_le (slice offset (offset + n) section))
    else err invalid_section

unfoldable pub read_u16 : List ℕ → ℕ → Result VmError ℕ
unfolding read_le
read_u16 section offset = read_le 2 section offset

unfoldable pub read_u32 : List ℕ → ℕ → Result VmError ℕ
unfolding read_le
read_u32 section offset = read_le 4 section offset

unfoldable pub read_i32 : List ℕ → ℕ → Result VmError ℕ
unfolding read_le
read_i32 section offset = read_le 4 section offset

-- The value at the cursor, by its tag, and the cursor behind it.
unfoldable pub read_value : List ℕ → ℕ → Result VmError (Value × ℕ)
read_value section cursor = byte_at section cursor >>= λ tag.
    if tag == 0
    then ok (null, cursor + 1)
    else if tag == 1
    then (byte_at section (cursor + 1) >>= λ b. ok (bool_value (not (b == 0)), cursor + 2))
    else if tag == 2
    then (read_i32 section (cursor + 1) >>= λ n. ok (i32_value n, cursor + 5))
    else if tag == 3
    then (read_u16 section (cursor + 1) >>= λ id. ok (string_value (sqbc id), cursor + 3))
    else err invalid_section
