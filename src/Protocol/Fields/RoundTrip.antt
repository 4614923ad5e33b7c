-- ===== src/Protocol/Fields/RoundTrip.antt =====
-- compiler/rust/crates/squid-device-protocol/src/lib.rs: `decode_fields` on what the layout writes.
use squid_script.Base.{
  ℕ, zero, suc, ◌^◌, ◌≤◌, ◌<◌, ◌≡◌, refl, ◌∙◌, true, false, List, [], ◌∷◌, ◌++◌, length,
  length-append, take-append, drop-append, leb, ==-refl, Result, ok, ◌>>=◌, arith,
}
use squid_script.Base.Words.{to_le, from_le, from_le-to_le, length-to_le}
use squid_script.Base.Utf8.{is_utf8}
use squid_script.Protocol.Wire.{DecodeError}
use squid_script.Protocol.Fields.{
  FieldValue, bytes, string, bool, i64, u32, u64, nested, Fields, end, field, u16_max, field_type,
  decode_field_value, decode_fields_from, decode_fields, decode_integer,
}
use squid_script.Protocol.Fields.Layout.{
  fields_size, value_size, fields_bytes, value_bytes, SizesFit, ValueFits, length-value_bytes,
  length-fields_bytes,
}

-- What the types of the source guarantee: strings are UTF-8 and integers have their width.
abbrev mutual
  pub FieldsTyped : Fields → Type 0
  FieldsTyped end = Unit {0}
  FieldsTyped (field tag value rest) = ValueTyped value × FieldsTyped rest

  pub ValueTyped : FieldValue → Type 0
  ValueTyped (bytes value) = Unit {0}
  ValueTyped (string value) = is_utf8 value ≡ true
  ValueTyped (bool value) = Unit {0}
  ValueTyped (i64 value) = value < 256 ^ 8
  ValueTyped (u64 value) = value < 256 ^ 8
  ValueTyped (u32 value) = value < 256 ^ 4
  ValueTyped (nested fields) = FieldsTyped fields

decode_fields_from_step :
    (fuel tag type : ℕ) (value rest : List ℕ)
    → length value ≤ u16_max
    → decode_fields_from (suc fuel) (tag ∷ type ∷ (to_le 2 (length value) ++ (value ++ rest))) ≡ (
        decode_field_value (decode_fields_from fuel) type value >>= λ v.
        decode_fields_from fuel rest >>= λ more. ok (field tag v more))
unfolding decode_fields_from
decode_fields_from_step fuel tag type value rest h =
    let len : from_le (to_le 2 (length value)) ≡ length value =
      from_le-to_le 2 (length value) (omega arith) in
    let fits : leb (length value) (length (value ++ rest)) ≡ true =
      ground (arith, length-append value rest) in
    rw (len, fits, take-append, drop-append)

decode_integer-eq :
    (n v : ℕ) (make : ℕ → FieldValue)
    → v < 256 ^ n
    → decode_integer n make (to_le n v) ≡ ok (make v)
unfolding decode_integer
decode_integer-eq n v make h = rw (length-to_le, from_le-to_le n v h, ==-refl)

-- A record's fields are read back by `decode`.
abbrev Reads : (List ℕ → Result DecodeError Fields) → FieldValue → Type 0
Reads decode (nested fields) = decode (fields_bytes fields) ≡ ok fields
Reads decode _ = Unit {0}

decode_field_value-eq :
    (decode : List ℕ → Result DecodeError Fields) (v : FieldValue)
    → ValueTyped v
    → Reads decode v
    → decode_field_value decode (field_type v) (value_bytes v) ≡ ok v
unfolding decode_field_value field_type value_bytes
decode_field_value-eq decode (bytes value) typed reads = refl
decode_field_value-eq decode (string value) typed reads = rw typed
decode_field_value-eq decode (bool true) typed reads = refl
decode_field_value-eq decode (bool false) typed reads = refl
decode_field_value-eq decode (i64 value) typed reads = decode_integer-eq 8 value i64 typed
decode_field_value-eq decode (u64 value) typed reads = decode_integer-eq 8 value u64 typed
decode_field_value-eq decode (u32 value) typed reads = decode_integer-eq 4 value u32 typed
decode_field_value-eq decode (nested fields) typed reads = rw reads

decode_end : (fuel : ℕ) → decode_fields_from fuel [] ≡ ok end
unfolding decode_fields_from
decode_end zero = refl
decode_end (suc fuel) = refl

mutual
  unfolding fields_bytes fields_size

  decode_fields_from-fields_bytes :
      (fs : Fields) (fuel : ℕ)
      → fields_size fs ≤ fuel
      → SizesFit fs
      → FieldsTyped fs
      → decode_fields_from fuel (fields_bytes fs) ≡ ok fs
  decode_fields_from-fields_bytes end fuel h fit typed = decode_end fuel
  decode_fields_from-fields_bytes (field tag value rest) zero h fit typed = absurd (omega arith)
  decode_fields_from-fields_bytes (field tag value rest) (suc fuel) h (small, vfit, rfit) (vt, rt) =
      let step =
        decode_fields_from_step fuel tag (field_type value) (value_bytes value) (fields_bytes rest)
          (omega (arith, length-value_bytes value)) in
      let first =
        decode_field_value-eq (decode_fields_from fuel) value vt
          (reads value fuel (omega arith) vfit vt) in
      let others = decode_fields_from-fields_bytes rest fuel (omega arith) rfit rt in
      rw (length-value_bytes value) at step ∙ rw (first, others)

  reads :
      (v : FieldValue) (fuel : ℕ)
      → value_size v ≤ fuel
      → ValueFits v
      → ValueTyped v
      → Reads (decode_fields_from fuel) v
  reads (bytes value) fuel h fit typed = tt
  reads (nested fields) fuel h fit typed = decode_fields_from-fields_bytes fields fuel h fit typed
  reads _ fuel h fit typed = tt

-- Decoding the bytes of well-typed fields that fit the wire gives these fields back.
pub decode_fields-fields_bytes :
    (fs : Fields) → SizesFit fs → FieldsTyped fs → decode_fields (fields_bytes fs) ≡ ok fs
unfolding decode_fields
decode_fields-fields_bytes fs fit typed =
    decode_fields_from-fields_bytes fs (length (fields_bytes fs))
      (omega (arith, length-fields_bytes fs)) fit typed
