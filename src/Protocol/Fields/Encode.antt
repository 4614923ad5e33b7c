-- ===== src/Protocol/Fields/Encode.antt =====
-- compiler/rust/crates/squid-device-protocol/src/lib.rs: `encoded_fields_len` and
-- `encode_fields_into` against the layout.
use squid_script.Base.{
  ℕ, ◌+◌, ◌≤◌, ◌≡◌, ◌↔◌, refl, sym, ap, ◌∙◌, true, List, [], ◌∷◌, ◌++◌, append-nil, append_assoc,
  length, length-take, length-drop, take, drop, drop-drop, drop_all, leb, ok, ◌>>=◌, arith,
}
use squid_script.Base.Words.{to_le}
use native.Mathlib.Nat.{add_assoc}
use squid_script.Protocol.Fields.{
  FieldValue, bytes, string, bool, i64, u32, u64, nested, Fields, end, field, encoded_fields_len,
  copy_from_slice, set_first, encode_fields_into, encode_field_value_into,
}
use squid_script.Protocol.Fields.Layout.{
  fields_size, value_size, fields_bytes, value_bytes, SizesFit, ValueFits, fields_len_from-eq,
  fields_len_from-inv, encoded_field_value_len-eq,
}

-- `encoded_fields_len` succeeds exactly when every value fits its 16-bit length and the total fits a
-- usize, and then returns the total.
pub encoded_fields_len_iff :
    (max n : ℕ) (fs : Fields)
    → (encoded_fields_len max fs ≡ ok n) ↔ (SizesFit fs × (n ≡ fields_size fs) × (n ≤ max))
unfolding encoded_fields_len
encoded_fields_len_iff max n fs = (
  λ e.
      let (fit, eq, bound) = fields_len_from-inv max 0 n fs (omega arith) e in
      (fit, omega arith, bound),
  λ (fit, eq, bound). fields_len_from-eq max 0 fs fit (omega arith) ∙ ap ok (omega arith),
)

copy_from_slice-eq :
    (out value : List ℕ) → length out ≡ length value → copy_from_slice out value ≡ ok value
unfolding copy_from_slice
copy_from_slice-eq out value h = ground arith

set_first-eq : (out : List ℕ) (b : ℕ) → length out ≡ 1 → set_first out b ≡ ok (b ∷ [])
unfolding set_first
set_first-eq [] b h = absurd (omega arith)
set_first-eq (x ∷ []) b h = refl
set_first-eq (x ∷ y ∷ out) b h = absurd (omega arith)

mutual
  unfolding encode_fields_into fields_bytes fields_size

  pub encode_fields_into-eq :
      (max : ℕ) (fs : Fields) (out : List ℕ)
      → SizesFit fs
      → fields_size fs ≤ max
      → fields_size fs ≤ length out
      → encode_fields_into max fs out ≡ ok (fields_bytes fs ++ drop (fields_size fs) out)
  encode_fields_into-eq max end out fit h room = refl
  encode_fields_into-eq max (field tag value rest) out (small, vfit, rfit) h room =
      let size = value_size value in
      let len = encoded_field_value_len-eq max value vfit (omega arith) in
      let fits : leb (4 + size) (length out) ≡ true = ground arith in
      let first =
        encode_field_value_into-eq max value (take size (drop 4 out)) vfit (omega arith)
          (omega (arith, length-take size (drop 4 out), length-drop 4 out)) in
      let others =
        encode_fields_into-eq max rest (drop (4 + size) out) rfit (omega arith)
          (omega (arith, length-drop (4 + size) out)) in
      rw (len, ◌>>=◌, fits, first, others) (simp (drop-drop, append_assoc, add_assoc))

  encode_field_value_into-eq :
      (max : ℕ) (v : FieldValue) (out : List ℕ)
      → ValueFits v
      → value_size v ≤ max
      → length out ≡ value_size v
      → encode_field_value_into max v out ≡ ok (value_bytes v)
  encode_field_value_into-eq max (bytes value) out fit h e = copy_from_slice-eq out value e
  encode_field_value_into-eq max (string value) out fit h e = copy_from_slice-eq out value e
  encode_field_value_into-eq max (bool value) out fit h e = set_first-eq out _ e
  encode_field_value_into-eq max (i64 value) out fit h e = copy_from_slice-eq out (to_le 8 value) e
  encode_field_value_into-eq max (u64 value) out fit h e = copy_from_slice-eq out (to_le 8 value) e
  encode_field_value_into-eq max (u32 value) out fit h e = copy_from_slice-eq out (to_le 4 value) e
  encode_field_value_into-eq max (nested fields) out fit h e =
      encode_fields_into-eq max fields out fit h (omega arith)
      ∙ ap ok (ap (λ t. fields_bytes fields ++ t) (rw (sym e) (drop_all out)) ∙ append-nil _)

-- A slice of just the fields' size is filled.
pub encode_fields_into-exact :
    (max : ℕ) (fs : Fields) (out : List ℕ)
    → SizesFit fs
    → fields_size fs ≤ max
    → length out ≡ fields_size fs
    → encode_fields_into max fs out ≡ ok (fields_bytes fs)
encode_fields_into-exact max fs out fit h e =
    encode_fields_into-eq max fs out fit h (omega arith)
    ∙ ap ok (ap (λ t. fields_bytes fs ++ t) (rw (sym e) (drop_all out)) ∙ append-nil _)
