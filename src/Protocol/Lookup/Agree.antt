-- ===== src/Protocol/Lookup/Agree.antt =====
-- compiler/rust/crates/squid-device-protocol/src/lib.rs: the device's search in the bytes of a
-- payload beside the host's list of fields.
use squid_script.Base.{
  leb, true, ℕ, zero, suc, ◌≤◌, ◌≡◌, refl, ◌∙◌, false, ◌&&◌, Option, none, some, List, ◌∷◌, ◌++◌,
  length, length-append, take-append, drop-append, ltb, ◌==◌, if◌then◌else◌, ok, arith,
}
use squid_script.Base.Words.{to_le, from_le, from_le-to_le}
use squid_script.Protocol.Fields.{Fields, end, field, field_type, u16_max}
use squid_script.Protocol.Fields.Layout.{
  fields_size, fields_bytes, value_bytes, SizesFit, length-value_bytes, length-fields_bytes,
}
use squid_script.Protocol.Lookup.{find_field_from, find_field}

-- The value's bytes of the first field with the tag and type.
unfoldable pub lookup_field : ℕ → ℕ → Fields → Option (List ℕ)
lookup_field tag type end = none
lookup_field tag type (field t value rest) =
    if t == tag && field_type value == type
    then some (value_bytes value)
    else lookup_field tag type rest

find_field_from_step :
    (fuel tag type t ty : ℕ) (value rest : List ℕ)
    → length value ≤ u16_max
    → find_field_from (suc fuel) tag type (t ∷ ty ∷ (to_le 2 (length value) ++ (value ++ rest)))
      ≡ (if t == tag && ty == type then ok (some value) else find_field_from fuel tag type rest)
unfolding find_field_from
find_field_from_step fuel tag type t ty value rest h =
    let len : from_le (to_le 2 (length value)) ≡ length value =
      from_le-to_le 2 (length value) (omega arith) in
    let fits : ltb (length (value ++ rest)) (length value) ≡ false =
      ground (arith, length-append value rest) in
    let inside : leb (length value) (length (value ++ rest)) ≡ true =
      ground (arith, length-append value rest) in
    rw (len, fits, inside, take-append, drop-append)

find_field_from-fields_bytes :
    (fs : Fields) (fuel tag type : ℕ)
    → fields_size fs ≤ fuel
    → SizesFit fs
    → find_field_from fuel tag type (fields_bytes fs) ≡ ok (lookup_field tag type fs)
unfolding fields_bytes fields_size lookup_field
find_field_from-fields_bytes end zero tag type h fit = unfold find_field_from in refl
find_field_from-fields_bytes end (suc fuel) tag type h fit = unfold find_field_from in refl
find_field_from-fields_bytes (field t value rest) zero tag type h fit = absurd (omega arith)
find_field_from-fields_bytes (field t value rest) (suc fuel) tag type h (small, vfit, rfit) =
    let step =
      find_field_from_step fuel tag type t (field_type value) (value_bytes value)
        (fields_bytes rest) (omega (arith, length-value_bytes value)) in
    let others = find_field_from-fields_bytes rest fuel tag type (omega arith) rfit in
    rw (length-value_bytes value) at step ∙ ground arith

-- On the bytes of fields that fit the wire, the device finds the first field of the tag and type, and
-- reports that there is none exactly if the list has none.
pub find_field-fields_bytes :
    (fs : Fields) (tag type : ℕ)
    → SizesFit fs
    → find_field tag type (fields_bytes fs) ≡ ok (lookup_field tag type fs)
unfolding find_field
find_field-fields_bytes fs tag type fit =
    find_field_from-fields_bytes fs (length (fields_bytes fs)) tag type
      (omega (arith, length-fields_bytes fs)) fit
