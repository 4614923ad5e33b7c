-- ===== src/Protocol/Fields/Layout.antt =====
-- compiler/rust/crates/squid-device-protocol/src/lib.rs: what the encoder of fields computes,
-- described without its buffers: the size of a list of fields, its bytes, and when it fits the wire.
use squid_script.Base.{
  ℕ, ◌+◌, ◌≤◌, ◌≡◌, refl, ap, ◌∙◌, List, [], ◌∷◌, ◌++◌, length, length-append, leb, ok, ok_or,
  guard, >>=-eq-ok, some, arith,
}
use squid_script.Base.Words.{to_le}
use squid_script.Protocol.Wire.{DecodeError}
use squid_script.Protocol.Fields.{
  FieldValue, bytes, string, bool, i64, u32, u64, nested, Fields, end, field, u16_max, bool_byte,
  field_type, add_field_len, fields_len_from, encoded_field_value_len,
}

unfoldable mutual
  pub fields_size : Fields → ℕ
  fields_size end = 0
  fields_size (field tag value rest) = 4 + (value_size value + fields_size rest)

  pub value_size : FieldValue → ℕ
  value_size (bytes value) = length value
  value_size (string value) = length value
  value_size (bool value) = 1
  value_size (i64 value) = 8
  value_size (u64 value) = 8
  value_size (u32 value) = 4
  value_size (nested fields) = fields_size fields

unfoldable mutual
  pub fields_bytes : Fields → List ℕ
  fields_bytes end = []
  fields_bytes (field tag value rest) =
      tag
      ∷ field_type value
      ∷ (to_le 2 (value_size value) ++ (value_bytes value ++ fields_bytes rest))

  pub value_bytes : FieldValue → List ℕ
  value_bytes (bytes value) = value
  value_bytes (string value) = value
  value_bytes (bool value) = bool_byte value ∷ []
  value_bytes (i64 value) = to_le 8 value
  value_bytes (u64 value) = to_le 8 value
  value_bytes (u32 value) = to_le 4 value
  value_bytes (nested fields) = fields_bytes fields

-- Every value's size, nested ones included, fits the 16-bit length of its header.
abbrev mutual
  pub SizesFit : Fields → Type 0
  SizesFit end = Unit {0}
  SizesFit (field tag value rest) = (value_size value ≤ u16_max) × ValueFits value × SizesFit rest

  pub ValueFits : FieldValue → Type 0
  ValueFits (bytes value) = Unit {0}
  ValueFits (string value) = Unit {0}
  ValueFits (bool value) = Unit {0}
  ValueFits (i64 value) = Unit {0}
  ValueFits (u64 value) = Unit {0}
  ValueFits (u32 value) = Unit {0}
  ValueFits (nested fields) = SizesFit fields

mutual
  unfolding fields_size fields_bytes

  pub length-fields_bytes : (fs : Fields) → length (fields_bytes fs) ≡ fields_size fs
  length-fields_bytes end = refl
  length-fields_bytes (field tag value rest) = omega (
    arith,
    length-append (value_bytes value) (fields_bytes rest),
    length-value_bytes value,
    length-fields_bytes rest,
  )

  pub length-value_bytes : (v : FieldValue) → length (value_bytes v) ≡ value_size v
  length-value_bytes (bytes value) = refl
  length-value_bytes (string value) = refl
  length-value_bytes (bool value) = refl
  length-value_bytes (i64 value) = refl
  length-value_bytes (u64 value) = refl
  length-value_bytes (u32 value) = refl
  length-value_bytes (nested fields) = length-fields_bytes fields

add_field_len-eq :
    (max len value_len : ℕ)
    → len + (4 + value_len) ≤ max
    → add_field_len max len value_len ≡ some (len + (4 + value_len))
unfolding add_field_len
add_field_len-eq max len value_len h = ground arith

mutual
  unfolding fields_size fields_len_from

  pub fields_len_from-eq :
      (max len : ℕ) (fs : Fields)
      → SizesFit fs
      → len + fields_size fs ≤ max
      → fields_len_from max len fs ≡ ok (len + fields_size fs)
  fields_len_from-eq max len end fit h = ap ok (omega arith)
  fields_len_from-eq max len (field tag value rest) (small, vfit, rfit) h = ground (
    arith,
    encoded_field_value_len-eq max value vfit (omega arith),
    add_field_len-eq max len (value_size value) (omega arith),
    fields_len_from-eq max (len + (4 + value_size value)) rest rfit (omega arith),
  )

  pub encoded_field_value_len-eq :
      (max : ℕ) (v : FieldValue)
      → ValueFits v
      → value_size v + 8 ≤ max + 8
      → encoded_field_value_len max v ≡ ok (value_size v)
  encoded_field_value_len-eq max (bytes value) fit h = refl
  encoded_field_value_len-eq max (string value) fit h = refl
  encoded_field_value_len-eq max (bool value) fit h = refl
  encoded_field_value_len-eq max (i64 value) fit h = refl
  encoded_field_value_len-eq max (u64 value) fit h = refl
  encoded_field_value_len-eq max (u32 value) fit h = refl
  encoded_field_value_len-eq max (nested fields) fit h =
      fields_len_from-eq max 0 fields fit (omega arith) ∙ ap ok (omega arith)

add_field_len-inv :
    (max len value_len sum : ℕ) (e : DecodeError)
    → ok_or (add_field_len max len value_len) e ≡ ok sum
    → (sum ≡ len + (4 + value_len)) × (sum ≤ max)
unfolding add_field_len
add_field_len-inv max len value_len sum e h = ground arith

mutual
  unfolding fields_size fields_len_from

  pub fields_len_from-inv :
      (max len n : ℕ) (fs : Fields)
      → len ≤ max
      → fields_len_from max len fs ≡ ok n
      → SizesFit fs × (n ≡ len + fields_size fs) × (n ≤ max)
  fields_len_from-inv max len n end h e = (tt, ground arith, ground arith)
  fields_len_from-inv max len n (field tag value rest) h e =
      let (value_len, ve, k) = >>=-eq-ok (encoded_field_value_len max value) _ e in
      let (_, small, k') = >>=-eq-ok (guard (leb value_len u16_max) _) _ k in
      let (len', added, k'') = >>=-eq-ok (ok_or (add_field_len max len value_len) _) _ k' in
      let sum = add_field_len-inv max len value_len len' _ added in
      let (vfit, veq) = encoded_field_value_len-inv max value_len value ve in
      let (rfit, req, bound) = fields_len_from-inv max len' n rest (sum.1) k'' in
      ((ground arith, vfit, rfit), omega arith, bound)

  pub encoded_field_value_len-inv :
      (max n : ℕ) (v : FieldValue)
      → encoded_field_value_len max v ≡ ok n
      → ValueFits v × (n ≡ value_size v)
  encoded_field_value_len-inv max n (bytes value) e = (tt, ground arith)
  encoded_field_value_len-inv max n (string value) e = (tt, ground arith)
  encoded_field_value_len-inv max n (bool value) e = (tt, ground arith)
  encoded_field_value_len-inv max n (i64 value) e = (tt, ground arith)
  encoded_field_value_len-inv max n (u64 value) e = (tt, ground arith)
  encoded_field_value_len-inv max n (u32 value) e = (tt, ground arith)
  encoded_field_value_len-inv max n (nested fields) e =
      let (fit, eq, _) = fields_len_from-inv max 0 n fields (omega arith) e in (fit, omega arith)
