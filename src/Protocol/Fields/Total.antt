-- ===== src/Protocol/Fields/Total.antt =====
-- compiler/rust/crates/squid-device-protocol/src/lib.rs: `decode_fields` on any input, and its fuel.
use squid_script.Base.{
  ℕ, zero, suc, ◌≤◌, List, [], ◌∷◌, length, length-take, length-drop, take, drop, leb, ◌==◌, Result,
  Settles, Settles-bind, Settles-if, Settles-guard, arith,
}
use squid_script.Base.Words.{from_le}
use squid_script.Base.Utf8.{is_utf8}
use squid_script.Protocol.Wire.{DecodeError, truncated_field}
use squid_script.Protocol.Fields.{
  FieldValue, Fields, decode_field_value, decode_fields_from, decode_fields, decode_bool,
  decode_integer, i64, u64, u32,
}

decode_bool-Settles : (value : List ℕ) → Settles (decode_bool value)
unfolding decode_bool
decode_bool-Settles [] = tt
decode_bool-Settles (b ∷ []) = Settles-if (b == 0) _ _ tt (Settles-if (b == 1) _ _ tt tt)
decode_bool-Settles (b ∷ c ∷ value) = tt

decode_integer-Settles :
    (n : ℕ) (make : ℕ → FieldValue) (value : List ℕ) → Settles (decode_integer n make value)
unfolding decode_integer
decode_integer-Settles n make value = Settles-if (length value == n) _ _ tt tt

decode_field_value-Settles :
    (decode : List ℕ → Result DecodeError Fields) (type : ℕ) (value : List ℕ)
    → Settles (decode value)
    → Settles (decode_field_value decode type value)
unfolding decode_field_value
decode_field_value-Settles decode type value h = Settles-if (type == 0) _ _ tt (
    Settles-if (type == 1) _ _ (Settles-if (is_utf8 value) _ _ tt tt) (
      Settles-if (type == 3) _ _ (decode_bool-Settles value) (
        Settles-if (type == 4) _ _ (decode_integer-Settles 8 i64 value) (
          Settles-if (type == 5) _ _ (decode_integer-Settles 8 u64 value) (
            Settles-if (type == 6) _ _ (decode_integer-Settles 4 u32 value)
              (Settles-if (type == 32) _ _ (Settles-bind (decode value) _ h (λ fs e. tt)) tt))))))

decode_fields_from-Settles :
    (fuel : ℕ) (payload : List ℕ)
    → length payload ≤ fuel
    → Settles (decode_fields_from fuel payload)
unfolding decode_fields_from
decode_fields_from-Settles zero [] h = tt
decode_fields_from-Settles (suc fuel) [] h = tt
decode_fields_from-Settles zero (a ∷ payload) h = absurd (omega arith)
decode_fields_from-Settles (suc fuel) (a ∷ []) h = tt
decode_fields_from-Settles (suc fuel) (a ∷ b ∷ []) h = tt
decode_fields_from-Settles (suc fuel) (a ∷ b ∷ c ∷ []) h = tt
decode_fields_from-Settles (suc fuel) (a ∷ type ∷ l₀ ∷ l₁ ∷ payload) h =
    let len = from_le (l₀ ∷ l₁ ∷ []) in
    Settles-guard (leb len (length payload)) truncated_field _ λ fits. rw fits (
      Settles-bind (decode_field_value (decode_fields_from fuel) type (take len payload)) _
        (decode_field_value-Settles (decode_fields_from fuel) type (take len payload) (
          decode_fields_from-Settles fuel (take len payload)
            (omega (arith, length-take len payload))))
        λ v _.
          Settles-bind (decode_fields_from fuel (drop len payload)) _
            (decode_fields_from-Settles fuel (drop len payload)
              (omega (arith, length-drop len payload)))
            λ fs _. tt)

-- On every payload `decode_fields` returns fields or an error: it does not panic, and the payload's
-- length is fuel enough for nested records of any depth.
pub decode_fields-Settles : (payload : List ℕ) → Settles (decode_fields payload)
unfolding decode_fields
decode_fields-Settles payload = decode_fields_from-Settles (length payload) payload (omega arith)
