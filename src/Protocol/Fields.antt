-- ===== src/Protocol/Fields.antt =====
-- compiler/rust/crates/squid-device-protocol/src/lib.rs: the TLV fields of a frame's payload, their
-- encoded length, the encoder into a slice and the decoder.
-- A `Vec<Field>` is `Fields`, a list of tags and values; a string is the list of its bytes; an i64 is
-- its 64-bit pattern. A slice that is written is a list, and the writer returns its new contents.

pub mod Layout
pub mod Encode
pub mod Total
pub mod RoundTrip
use squid_script.Base.{
  front, behind, ℕ, zero, suc, ◌+◌, Bool, true, false, Option, none, some, List, [], ◌∷◌, ◌++◌,
  length, take, drop, leb, ◌==◌, if◌then◌else◌, Result, ok, err, panic, stuck, ◌>>=◌, ◌>>◌, guard,
  ok_or,
}
use squid_script.Base.Words.{to_le, from_le}
use squid_script.Base.Utf8.{is_utf8}
use squid_script.Protocol.Wire.{
  DecodeError, output_too_small, truncated_field, invalid_utf8, invalid_bool_length,
  invalid_integer_length, unknown_field_type,
}

mutual
  pub data FieldValue : Type 0 where
    bytes string : List ℕ → FieldValue
    bool : Bool → FieldValue
    i64 u32 u64 : ℕ → FieldValue
    nested : Fields → FieldValue

  pub data Fields : Type 0 where
    end : Fields
    field : ℕ → FieldValue → Fields → Fields

abbrev pub u16_max : ℕ
u16_max = 65535

-- `a.checked_add(b)` where `max` is `usize::MAX`.
unfoldable pub checked_add : ℕ → ℕ → ℕ → Option ℕ
checked_add max a b = if leb (a + b) max then some (a + b) else none

-- `len.checked_add(4).and_then(|value| value.checked_add(value_len))`
unfoldable pub add_field_len : ℕ → ℕ → ℕ → Option ℕ
unfolding checked_add
add_field_len max len value_len = elim (checked_add max len 4) [
  | none ↦ none
  | some value ↦ checked_add max value value_len
]

unfoldable mutual
  -- The loop of `encoded_fields_len`, at the length `len` so far.
  pub fields_len_from : ℕ → ℕ → Fields → Result DecodeError ℕ
  fields_len_from max len end = ok len
  fields_len_from max len (field tag value rest) = do
    value_len ← encoded_field_value_len max value
    guard (leb value_len u16_max) (output_too_small value_len u16_max)
    len' ← ok_or (add_field_len max len value_len) (output_too_small max 0)
    fields_len_from max len' rest

  pub encoded_field_value_len : ℕ → FieldValue → Result DecodeError ℕ
  encoded_field_value_len max (bytes value) = ok (length value)
  encoded_field_value_len max (string value) = ok (length value)
  encoded_field_value_len max (bool value) = ok 1
  encoded_field_value_len max (i64 value) = ok 8
  encoded_field_value_len max (u64 value) = ok 8
  encoded_field_value_len max (u32 value) = ok 4
  encoded_field_value_len max (nested fields) = fields_len_from max 0 fields

unfoldable pub encoded_fields_len : ℕ → Fields → Result DecodeError ℕ
unfolding fields_len_from
encoded_fields_len max fields = fields_len_from max 0 fields

unfoldable pub field_type : FieldValue → ℕ
field_type (bytes value) = 0
field_type (string value) = 1
field_type (bool value) = 3
field_type (i64 value) = 4
field_type (u64 value) = 5
field_type (u32 value) = 6
field_type (nested fields) = 32

-- `u8::from(value)`
abbrev pub bool_byte : Bool → ℕ
bool_byte true = 1
bool_byte false = 0

-- `out.copy_from_slice(value)` panics unless the lengths agree.
unfoldable pub copy_from_slice : List ℕ → List ℕ → Result DecodeError (List ℕ)
copy_from_slice out value = if length out == length value then ok value else panic

-- `out[0] = b`
unfoldable pub set_first : List ℕ → ℕ → Result DecodeError (List ℕ)
set_first [] b = panic
set_first (x ∷ out) b = ok (b ∷ out)

unfoldable mutual
  pub encode_fields_into : ℕ → Fields → List ℕ → Result DecodeError (List ℕ)
  encode_fields_into max end out = ok out
  encode_fields_into max (field tag value rest) out = do
    value_len ← encoded_field_value_len max value
    guard (leb (4 + value_len) (length out)) (output_too_small (4 + value_len) (length out))
    written ← encode_field_value_into max value (take value_len (drop 4 out))
    more ← encode_fields_into max rest (drop (4 + value_len) out)
    ok (tag ∷ field_type value ∷ (to_le 2 value_len ++ (written ++ more)))

  pub encode_field_value_into : ℕ → FieldValue → List ℕ → Result DecodeError (List ℕ)
  encode_field_value_into max (bytes value) out = copy_from_slice out value
  encode_field_value_into max (string value) out = copy_from_slice out value
  encode_field_value_into max (bool value) out = set_first out (bool_byte value)
  encode_field_value_into max (i64 value) out = copy_from_slice out (to_le 8 value)
  encode_field_value_into max (u64 value) out = copy_from_slice out (to_le 8 value)
  encode_field_value_into max (u32 value) out = copy_from_slice out (to_le 4 value)
  encode_field_value_into max (nested fields) out = encode_fields_into max fields out

unfoldable pub decode_bool : List ℕ → Result DecodeError FieldValue
decode_bool (b ∷ []) =
    if b == 0
    then ok (bool false)
    else if b == 1
    then ok (bool true)
    else err (invalid_bool_length 1)
decode_bool value = err (invalid_bool_length (length value))

-- The value as an array of `n` bytes, read by `from_le_bytes`.
unfoldable pub decode_integer : ℕ → (ℕ → FieldValue) → List ℕ → Result DecodeError FieldValue
decode_integer n make value =
    if length value == n
    then ok (make (from_le value))
    else err (invalid_integer_length (length value))

-- `decode` is `decode_fields`, for a record's fields.
unfoldable pub decode_field_value :
    (List ℕ → Result DecodeError Fields) → ℕ → List ℕ → Result DecodeError FieldValue
unfolding decode_bool decode_integer
decode_field_value decode type value =
    if type == 0
    then ok (bytes value)
    else if type == 1
    then (if is_utf8 value then ok (string value) else err invalid_utf8)
    else if type == 3
    then decode_bool value
    else if type == 4
    then decode_integer 8 i64 value
    else if type == 5
    then decode_integer 8 u64 value
    else if type == 6
    then decode_integer 4 u32 value
    else if type == 32
    then (decode value >>= λ fields. ok (nested fields))
    else err (unknown_field_type type)

-- Each round takes four bytes at least, so the length of the payload is fuel enough.
unfoldable pub decode_fields_from : ℕ → List ℕ → Result DecodeError Fields
decode_fields_from fuel [] = ok end
decode_fields_from zero (b ∷ payload) = stuck
decode_fields_from (suc fuel) (tag ∷ type ∷ l₀ ∷ l₁ ∷ payload) = do
  let len = from_le (l₀ ∷ l₁ ∷ [])
  guard (leb len (length payload)) truncated_field
  value_bytes ← front len payload
  value ← decode_field_value (decode_fields_from fuel) type value_bytes
  tail ← behind len payload
  rest ← decode_fields_from fuel tail
  ok (field tag value rest)
decode_fields_from (suc fuel) payload = err truncated_field

unfoldable pub decode_fields : List ℕ → Result DecodeError Fields
unfolding decode_fields_from decode_field_value
decode_fields payload = decode_fields_from (length payload) payload
