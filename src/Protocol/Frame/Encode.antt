-- ===== src/Protocol/Frame/Encode.antt =====
-- compiler/rust/crates/squid-device-protocol/src/lib.rs: `encode_frame_into` and `encode_frame` on
-- every frame, against the layout of its fields.
use squid_script.Base.{
  ℕ, ◌+◌, ◌-◌, ◌≤◌, ◌<◌, ◌≡◌, ◌↔◌, refl, true, List, ◌++◌, append-nil, length, drop, slice,
  replicate, length-replicate, length-take, length-drop, drop_past, some, none, leb, if◌then◌else◌,
  Result, ok, err, panic, stuck, guard, ok_or, Settles, Settles-bind, guard-Settles, ok_or-Settles,
  Bool-cases, inl, inr, arith,
}
use squid_script.Protocol.Wire.{
  DecodeError, output_too_small, kind_code, opcode_code, status_code, header_len,
}
use squid_script.Protocol.Fields.{
  Fields, end, field, FieldValue, bytes, nested, checked_add, add_field_len, encoded_fields_len,
  fields_len_from, encoded_field_value_len, u16_max,
}
use squid_script.Protocol.Fields.Layout.{fields_size, fields_bytes, SizesFit}
use squid_script.Protocol.Fields.Encode.{encoded_fields_len_iff, encode_fields_into-exact}
use squid_script.Protocol.Frame.{Frame, header, encoded_frame_len, encode_frame_into, encode_frame}

-- The bytes of a frame on the wire.
unfoldable pub frame_bytes : (List ℕ → ℕ) → Frame → List ℕ
frame_bytes hash frame =
    header (kind_code frame.kind) (opcode_code frame.opcode) (status_code frame.status)
      frame.sequence (fields_size frame.fields) (hash (fields_bytes frame.fields))
      (fields_bytes frame.fields)

-- Every value fits its 16-bit length, and the frame a usize.
pub record Encodable (max : ℕ) (frame : Frame) : Type 0 where
  pub sizes : SizesFit frame.fields
  pub total : header_len + fields_size frame.fields ≤ max

pub checked_add-eq : (max a b : ℕ) → a + b ≤ max → checked_add max a b ≡ some (a + b)
unfolding checked_add
checked_add-eq max a b h = ground arith

checked_add-none : (max a b : ℕ) → max < a + b → checked_add max a b ≡ none
unfolding checked_add
checked_add-none max a b h = ground arith

pub slice_exact :
    (size : ℕ) (out : List ℕ) → 20 + size ≤ length out → length (slice 20 (20 + size) out) ≡ size
slice_exact size out h =
    omega (arith, length-take (20 + size - 20) (drop 20 out), length-drop 20 out)

module _ (hash : List ℕ → ℕ) (max : ℕ) (frame : Frame) where
  -- An encodable frame is written whole at the front of a buffer with room for it, and what lies
  -- behind it stays; a smaller buffer is refused with the size that is needed.
  pub encode_frame_into-eq :
      (out : List ℕ)
      → Encodable max frame
      → encode_frame_into hash max frame out ≡ (
          if leb (header_len + fields_size frame.fields) (length out)
          then ok (
            header_len + fields_size frame.fields,
            frame_bytes hash frame ++ drop (header_len + fields_size frame.fields) out,
          )
          else err (output_too_small (header_len + fields_size frame.fields) (length out)))
  unfolding encode_frame_into frame_bytes
  encode_frame_into-eq out e =
      let size = fields_size frame.fields in
      let len = (encoded_fields_len_iff max size frame.fields).1 (e.sizes, refl, omega arith) in
      let needed = checked_add-eq max header_len size (omega arith) in
      elim (Bool-cases (leb (header_len + size) (length out))) [
        | inl room ↦ rw (
          len,
          needed,
          room,
          encode_fields_into-exact max frame.fields (slice header_len (header_len + size) out)
              e.sizes (omega arith) (slice_exact size out (ground arith)),
        )
        | inr small ↦ rw (len, needed, small)
      ]

  encoded_frame_len-eq :
      Encodable max frame
      → encoded_frame_len hash max frame ≡ ok (header_len + fields_size frame.fields)
  unfolding encoded_frame_len
  encoded_frame_len-eq e =
      let size = fields_size frame.fields in
      let len = (encoded_fields_len_iff max size frame.fields).1 (e.sizes, refl, omega arith) in
      rw (len, checked_add-eq max header_len size (omega arith))

  -- `encode_frame` returns the frame's bytes.
  pub encode_frame-eq :
      Encodable max frame → encode_frame hash max frame ≡ ok (frame_bytes hash frame)
  unfolding encode_frame
  encode_frame-eq e =
      let size = fields_size frame.fields in
      let zeros : List ℕ = replicate (header_len + size) 0 in
      let full = length-replicate {A = ℕ} (header_len + size) 0 in
      let room : leb (header_len + size) (length zeros) ≡ true = rw full (ground arith) in
      let rest = drop_past (header_len + size) zeros (omega arith) in
      rw (encoded_frame_len-eq e, encode_frame_into-eq zeros e, room, rest, append-nil)

mutual
  unfolding fields_len_from

  fields_len_from-Settles : (max len : ℕ) (fs : Fields) → Settles (fields_len_from max len fs)
  fields_len_from-Settles max len end = tt
  fields_len_from-Settles max len (field tag value rest) =
      Settles-bind (encoded_field_value_len max value) _ (encoded_field_value_len-Settles max value)
        λ n _.
          Settles-bind (guard (leb n u16_max) (output_too_small n u16_max)) _ (guard-Settles _ _)
            λ _ _.
              Settles-bind (ok_or (add_field_len max len n) (output_too_small max 0)) _
                (ok_or-Settles (add_field_len max len n) _)
                λ len' _. fields_len_from-Settles max len' rest

  encoded_field_value_len-Settles :
      (max : ℕ) (v : FieldValue) → Settles (encoded_field_value_len max v)
  encoded_field_value_len-Settles max (bytes value) = tt
  encoded_field_value_len-Settles max (nested fields) = fields_len_from-Settles max 0 fields
  encoded_field_value_len-Settles max _ = tt

encoded_fields_len-Settles : (max : ℕ) (fs : Fields) → Settles (encoded_fields_len max fs)
unfolding encoded_fields_len
encoded_fields_len-Settles max fs = fields_len_from-Settles max 0 fs

encode_frame_panics :
    (hash : List ℕ → ℕ) (max : ℕ) (frame : Frame)
    → ¬ Encodable max frame
    → (r : Result DecodeError ℕ) → encoded_fields_len max frame.fields ≡ r
    → encode_frame hash max frame ≡ panic
unfolding encode_frame encoded_frame_len
encode_frame_panics hash max frame no_fit (ok n) e =
    let (fit, eq, bound) = (encoded_fields_len_iff max n frame.fields).0 e in
    elim (Bool-cases (leb (header_len + n) max)) [
      | inl room ↦ absurd (no_fit (record { sizes = fit; total = ground arith }))
      | inr over ↦ rw (e, checked_add-none max header_len n (ground arith))
    ]
encode_frame_panics hash max frame no_fit (err x) e = rw e
encode_frame_panics hash max frame no_fit panic e = rw e
encode_frame_panics hash max frame no_fit stuck e =
    absurd (rw e at (encoded_fields_len-Settles max frame.fields))

-- `encode_frame` panics exactly on the frames that are not encodable: those with a value, at any
-- depth, of more than 65535 bytes, or with a total that exceeds a usize.
pub encode_frame-panic_iff :
    (hash : List ℕ → ℕ) (max : ℕ) (frame : Frame)
    → (encode_frame hash max frame ≡ panic) ↔ ¬ Encodable max frame
encode_frame-panic_iff hash max frame = (
  λ p e. cc (encode_frame-eq hash max frame e),
  λ no_fit. encode_frame_panics hash max frame no_fit _ refl,
)
