-- ===== src/Protocol/Responses/Writes.antt =====
-- compiler/rust/crates/squid-device-protocol/src/lib.rs: what the device's writers put into a slice, as
-- the layout of a list of fields.
use squid_script.Base.{
  ℕ, ◌+◌, ◌≤◌, ◌≡◌, refl, ap, Bool, true, List, [], ◌∷◌, ◌++◌, length, length-drop, drop, drop_past,
  leb, ok, arith,
}
use squid_script.Base.Words.{to_le}
use squid_script.Protocol.Fields.{
  string, bool, u64, Fields, end, field, u16_max, bool_byte, field_type,
}
use squid_script.Protocol.Fields.Layout.{fields_size, fields_bytes, SizesFit}
use squid_script.Protocol.Frame.Encode.{checked_add-eq}
use squid_script.Protocol.Responses.{
  tlv_len, write_tlv_header, write_string_tlv, write_bool_tlv, write_u64_tlv, hello_len,
  write_hello, lines_len_from, write_lines,
}

pub write_tlv_header-eq :
    (out : List ℕ) (tag type n : ℕ)
    → n ≤ u16_max
    → 4 + n ≤ length out
    → write_tlv_header out tag type n ≡ ok (tag ∷ type ∷ to_le 2 n)
unfolding write_tlv_header
write_tlv_header-eq out tag type n small room =
    let a : leb n u16_max ≡ true = ground arith in
    let b : leb (4 + n) (length out) ≡ true = ground arith in rw (a, b)

pub tlv_len-eq : (n : ℕ) → n ≤ u16_max → tlv_len n ≡ ok (4 + n)
unfolding tlv_len
tlv_len-eq n small = ground arith

pub write_string_tlv-eq :
    (out : List ℕ) (tag : ℕ) (value : List ℕ)
    → length value ≤ u16_max
    → 4 + length value ≤ length out
    → write_string_tlv out tag value
      ≡ ok ((tag ∷ 1 ∷ to_le 2 (length value)) ++ value, drop (4 + length value) out)
unfolding write_string_tlv
write_string_tlv-eq out tag value small room =
    rw (write_tlv_header-eq out tag 1 (length value) small room)

pub write_u64_tlv-eq :
    (out : List ℕ) (tag value : ℕ)
    → 12 ≤ length out
    → write_u64_tlv out tag value ≡ ok ((tag ∷ 5 ∷ to_le 2 8) ++ to_le 8 value, drop 12 out)
unfolding write_u64_tlv
write_u64_tlv-eq out tag value room = rw (write_tlv_header-eq out tag 5 8 (omega arith) room)

pub write_bool_tlv-eq :
    (out : List ℕ) (tag : ℕ) (value : Bool)
    → 5 ≤ length out
    → write_bool_tlv out tag value
      ≡ ok ((tag ∷ 3 ∷ to_le 2 1) ++ (bool_byte value ∷ []), drop 5 out)
unfolding write_bool_tlv
write_bool_tlv-eq out tag value room = rw (write_tlv_header-eq out tag 3 1 (omega arith) room)

-- The fields of a response of lines.
unfoldable pub line_fields : List (List ℕ) → Fields
line_fields [] = end
line_fields (line ∷ lines) = field 1 (string line) (line_fields lines)

pub lines_len_from-eq :
    (max capacity len total : ℕ) (lines : List (List ℕ))
    → SizesFit (line_fields lines)
    → total ≡ len + fields_size (line_fields lines)
    → total ≤ max
    → lines_len_from max capacity len lines ≡ ok total
unfolding lines_len_from line_fields fields_size
lines_len_from-eq max capacity len total [] fit e room = ap ok (omega arith)
lines_len_from-eq max capacity len total (line ∷ lines) (small, _, fit) e room = rw (
  tlv_len-eq (length line) small,
  checked_add-eq max len (4 + length line) (omega arith),
  lines_len_from-eq max capacity (len + (4 + length line)) total lines fit (omega arith) room,
)

pub write_lines-eq :
    (lines : List (List ℕ)) (payload : List ℕ)
    → SizesFit (line_fields lines)
    → length payload ≡ fields_size (line_fields lines)
    → write_lines lines payload ≡ ok (fields_bytes (line_fields lines))
unfolding write_lines line_fields fields_size fields_bytes field_type
write_lines-eq [] [] fit e = refl
write_lines-eq [] (b ∷ payload) fit e = absurd (omega arith)
write_lines-eq (line ∷ lines) payload (small, _, fit) e = rw (
  write_string_tlv-eq payload 1 line small (omega arith),
  write_lines-eq lines (drop (4 + length line) payload) fit
      (omega (arith, length-drop (4 + length line) payload)),
)

-- The fields of a hello response.
unfoldable pub hello_fields : List ℕ → List ℕ → Bool → ℕ → Fields
hello_fields target firmware diagnostic budget =
    field 1 (string target)
      (field 2 (string firmware) (field 3 (bool diagnostic) (field 4 (u64 budget) end)))

pub hello_len-eq :
    (max capacity : ℕ) (target firmware : List ℕ) (diagnostic : Bool) (budget : ℕ)
    → length target ≤ u16_max
    → length firmware ≤ u16_max
    → fields_size (hello_fields target firmware diagnostic budget) ≤ max
    → hello_len max capacity target firmware
      ≡ ok (fields_size (hello_fields target firmware diagnostic budget))
unfolding hello_len hello_fields fields_size
hello_len-eq max capacity target firmware diagnostic budget a b room =
    rw
      (
        tlv_len-eq (length target) a,
        tlv_len-eq (length firmware) b,
        checked_add-eq max (4 + length target) (4 + length firmware) (omega arith),
        checked_add-eq max (4 + length target + (4 + length firmware)) 5 (omega arith),
        checked_add-eq max (4 + length target + (4 + length firmware) + 5) 12 (omega arith),
      )
      (ap ok (omega arith))

pub write_hello-eq :
    (target firmware : List ℕ) (diagnostic : Bool) (budget : ℕ) (payload : List ℕ)
    → length target ≤ u16_max
    → length firmware ≤ u16_max
    → length payload ≡ fields_size (hello_fields target firmware diagnostic budget)
    → write_hello target firmware diagnostic budget payload
      ≡ ok (fields_bytes (hello_fields target firmware diagnostic budget))
unfolding write_hello hello_fields fields_size fields_bytes field_type
write_hello-eq target firmware diagnostic budget payload a b e =
    let p₁ = drop (4 + length target) payload in
    let n₁ = length-drop (4 + length target) payload in
    let p₂ = drop (4 + length firmware) p₁ in
    let n₂ = length-drop (4 + length firmware) p₁ in
    let p₃ = drop 5 p₂ in
    let n₃ = length-drop 5 p₂ in
    let last : drop 12 p₃ ≡ [] = drop_past 12 p₃ (omega arith) in
    rw (
      write_string_tlv-eq payload 1 target a (omega arith),
      write_string_tlv-eq p₁ 2 firmware b (omega arith),
      write_bool_tlv-eq p₂ 3 diagnostic (omega arith),
      write_u64_tlv-eq p₃ 4 budget (omega arith),
      last,
    )
