-- ===== src/Vm/State.antt =====
-- compiler/rust/crates/squidvm-core/src/state.rs: `parse_state`, the VM's reader of the section that
-- declares an app's state; compiler/rust/crates/squidc-core/src/sqbc.rs: `encode_state_section`, the
-- compiler's writer. A `serde_json::Value` is what the writer asks of it; an i64 is its 64-bit pattern;
-- the table of strings is its map from strings to ids.
pub mod Section
pub mod Typed
mod Tests
use squid_script.Base.{
  ℕ, zero, suc, ◌+◌, ◌-◌, ◌^◌, ◌%◌, Bool, true, false, ◌||◌, Option, List, [], ◌∷◌, ◌++◌, length,
  replicate, bytes_eq, ltb, leb, ◌==◌, if◌then◌else◌, Result, ok, err, ◌>>=◌, ◌>>◌, guard, ok_or,
}
use squid_script.Base.Words.{to_le}
use squid_script.Vm.Values.{
  VmError, invalid_section, too_many_state_slots, Value, null, bool_value, i32_value, string_value,
  byte_at, read_u16, read_value,
}

pub record StateType : Type 0 where
  pub tag : ℕ
  pub nullable : Bool

pub record StateSlot : Type 0 where
  pub name_id : ℕ
  pub value_type : StateType
  pub default : Value

abbrev pub max_state : ℕ
max_state = 16

-- What the array of slots is filled with.
abbrev pub unused_slot : StateSlot
unused_slot = record {
  name_id = 0;
  value_type = record { tag = 1; nullable = false };
  default = null;
}

unfoldable pub state_value_matches : ℕ → Bool → Value → Bool
state_value_matches tag nullable null = nullable
state_value_matches tag nullable (i32_value n) = tag == 1
state_value_matches tag nullable (bool_value b) = tag == 2
state_value_matches tag nullable (string_value s) = tag == 3
state_value_matches tag nullable _ = false

abbrev pub is_state_type : ℕ → Bool
is_state_type tag = tag == 1 || tag == 2 || tag == 3

abbrev pub read_flag : ℕ → Result VmError Bool
read_flag b = if b == 0 then ok false else if b == 1 then ok true else err invalid_section

-- One round of the loop: the slot, and the cursor behind it.
unfoldable pub parse_slot : List ℕ → ℕ → Result VmError (StateSlot × ℕ)
parse_slot section cursor = do
  name_id ← read_u16 section cursor
  tag ← byte_at section (cursor + 2)
  guard (is_state_type tag) invalid_section
  nullable ← read_flag (← byte_at section (cursor + 3))
  (value, next) ← read_value section (cursor + 4)
  guard (state_value_matches tag nullable value) invalid_section
  ok (
    record {
      name_id = name_id;
      value_type = record { tag = tag; nullable = nullable };
      default = value;
    },
    next,
  )

unfoldable pub parse_slots : ℕ → List ℕ → ℕ → Result VmError (List StateSlot × ℕ)
parse_slots zero section cursor = ok ([], cursor)
parse_slots (suc n) section cursor = do
  (slot, next) ← parse_slot section cursor
  (slots, last) ← parse_slots n section next
  ok (slot ∷ slots, last)

unfoldable pub parse_state : List ℕ → Result VmError (List StateSlot × ℕ)
parse_state section = do
  count ← read_u16 section 0
  guard (leb count max_state) too_many_state_slots
  (slots, cursor) ← parse_slots count section 2
  guard (cursor == length section) invalid_section
  ok (slots ++ replicate (max_state - count) unused_slot, count)

pub data SqbcError : Type 0 where
  too_many_slots missing_state_name unsupported_state_type out_of_i32_range missing_string_value :
      SqbcError
  unsupported_state_value : SqbcError

-- The cases that `is_null`, `as_bool`, `as_i64` and `as_str` tell apart.
pub data Json : Type 0 where
  json_null : Json
  json_bool : Bool → Json
  json_i64 : ℕ → Json
  json_str : List ℕ → Json
  json_other : Json

pub record IrStateValue : Type 0 where
  pub name : List ℕ
  pub value_type : List ℕ
  pub nullable : Bool
  pub value : Json

-- "int", "bool" and "string".
unfoldable pub state_type_tag : List ℕ → Result SqbcError ℕ
state_type_tag value_type =
    if bytes_eq value_type (0x69 ∷ 0x6e ∷ 0x74 ∷ [])
    then ok 1
    else if bytes_eq value_type (0x62 ∷ 0x6f ∷ 0x6f ∷ 0x6c ∷ [])
    then ok 2
    else if bytes_eq value_type (0x73 ∷ 0x74 ∷ 0x72 ∷ 0x69 ∷ 0x6e ∷ 0x67 ∷ [])
    then ok 3
    else err unsupported_state_type

-- `i32::try_from` of an i64.
unfoldable pub i32_from_i64 : ℕ → Result SqbcError ℕ
i32_from_i64 n =
    if ltb n (2 ^ 31) || leb (2 ^ 64 - 2 ^ 31) n then ok (n % 2 ^ 32) else err out_of_i32_range

abbrev pub flag : Bool → ℕ
flag true = 1
flag false = 0

-- The bytes that the compiler's `encode_value` appends.
unfoldable pub encode_value : (List ℕ → Option ℕ) → Json → Result SqbcError (List ℕ)
encode_value ids json_null = ok (0 ∷ [])
encode_value ids (json_bool b) = ok (1 ∷ flag b ∷ [])
encode_value ids (json_i64 n) = i32_from_i64 n >>= λ v. ok (2 ∷ to_le 4 v)
encode_value ids (json_str s) = ok_or (ids s) missing_string_value >>= λ id. ok (3 ∷ to_le 2 id)
encode_value ids json_other = err unsupported_state_value

unfoldable pub encode_slots : (List ℕ → Option ℕ) → List IrStateValue → Result SqbcError (List ℕ)
encode_slots ids [] = ok []
encode_slots ids (state ∷ states) = do
  id ← ok_or (ids state.name) missing_state_name
  tag ← state_type_tag state.value_type
  value ← encode_value ids state.value
  rest ← encode_slots ids states
  ok (to_le 2 id ++ (tag ∷ flag state.nullable ∷ (value ++ rest)))

unfoldable pub encode_state_section :
    (List ℕ → Option ℕ) → List IrStateValue → Result SqbcError (List ℕ)
encode_state_section ids states = do
  guard (ltb (length states) (2 ^ 16)) too_many_slots
  slots ← encode_slots ids states
  ok (to_le 2 (length states) ++ slots)
