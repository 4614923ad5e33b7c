-- ===== src/Protocol/Frame.antt =====
-- compiler/rust/crates/squid-device-protocol/src/lib.rs: a frame, its encoder into a buffer, its
-- decoder, and the device's own decoder of requests.
-- `hash` stands for `crc32fast::hash`, which is another package; `max` is `usize::MAX` of the target.
-- A `usize` sum that is not checked wraps, as it does in a release build. What a buffer holds after an
-- error of `encode_frame_into` is left out.

use squid_script.Base.{
  ℕ, suc, ◌+◌, ◌-◌, ◌%◌, Bool, true, false, Option, none, some, List, [], ◌∷◌, ◌++◌, length, take,
  drop, slice, replicate, bytes_eq, leb, ltb, ◌==◌, not, ◌||◌, if◌then◌else◌, Result, ok, panic,
  ◌>>=◌, ◌>>◌, guard, ok_or, expect, index,
}
use mathlib.Core.Option
pub mod Encode
pub mod Decode
pub mod Stream
use squid_script.Base.Words.{to_le, from_le}
use squid_script.Protocol.Wire.{
  FrameKind, request, response, Opcode, Status, ok_status, kind_code, kind_from, opcode_code,
  opcode_from, status_code, status_from, DecodeError, truncated_header, bad_magic, payload_crc,
  length_mismatch, output_too_small, magic, header_len,
}
use squid_script.Protocol.Fields.{
  Fields, checked_add, encoded_fields_len, encode_fields_into, decode_fields,
}

pub record Frame : Type 0 where
  pub kind : FrameKind
  pub opcode : Opcode
  pub status : Status
  pub sequence : ℕ
  pub fields : Fields

-- `Frame::request`
abbrev pub request_frame : Opcode → ℕ → Fields → Frame
request_frame opcode sequence fields = record {
  kind = request;
  opcode = opcode;
  status = ok_status;
  sequence = sequence;
  fields = fields;
}

-- `Frame::response`
abbrev pub response_frame : Opcode → Status → ℕ → Fields → Frame
response_frame opcode status sequence fields = record {
  kind = response;
  opcode = opcode;
  status = status;
  sequence = sequence;
  fields = fields;
}

-- The request that the device reads without a copy of its payload.
pub record DeviceRequest : Type 0 where
  pub opcode : Opcode
  pub sequence : ℕ
  pub payload : List ℕ

abbrev pub usize_add : ℕ → ℕ → ℕ → ℕ
usize_add max a b = (a + b) % suc max

-- The first twenty bytes.
abbrev pub header : ℕ → ℕ → ℕ → ℕ → ℕ → ℕ → List ℕ → List ℕ
header kind opcode status sequence payload_len crc rest =
    magic
    ++ (kind
        ∷ opcode
        ∷ status
        ∷ 0
        ∷ (to_le 4 sequence ++ (to_le 4 payload_len ++ (to_le 4 crc ++ rest))))

-- `is_request` is what `FrameKind` compares equal to `Request` on.
abbrev pub is_request : FrameKind → Bool
is_request request = true
is_request _ = false

-- `windows(4).position(|window| window == MAGIC)`
unfoldable pub find_magic : List ℕ → Option ℕ
find_magic [] = none
find_magic (b ∷ rest) =
    if bytes_eq (take 4 (b ∷ rest)) magic then some 0 else Option.map suc (find_magic rest)

-- `&bytes[start..end]` panics when the range is reversed or out of bounds.
unfoldable pub slice_at : ℕ → ℕ → List ℕ → Result DecodeError (List ℕ)
slice_at start end bytes =
    if ltb end start || ltb (length bytes) end then panic else ok (slice start end bytes)

module _ (hash : List ℕ → ℕ) (max : ℕ) where
  unfoldable pub encoded_frame_len : Frame → Result DecodeError ℕ
  encoded_frame_len frame = do
    payload_len ← encoded_fields_len max frame.fields
    ok_or (checked_add max header_len payload_len) (output_too_small max 0)

  -- The bytes written and the new contents of `out`.
  unfoldable pub encode_frame_into : Frame → List ℕ → Result DecodeError (ℕ × List ℕ)
  encode_frame_into frame out = do
    payload_len ← encoded_fields_len max frame.fields
    needed ← ok_or (checked_add max header_len payload_len) (output_too_small max (length out))
    guard (leb needed (length out)) (output_too_small needed (length out))
    payload ← encode_fields_into max frame.fields (slice header_len needed out)
    ok (
      needed,
      header (kind_code frame.kind) (opcode_code frame.opcode) (status_code frame.status)
          frame.sequence payload_len (hash payload) (payload ++ drop needed out),
    )

  unfoldable pub encode_frame : Frame → Result DecodeError (List ℕ)
  encode_frame frame = do
    needed ← expect (encoded_frame_len frame)
    (_, out) ← expect (encode_frame_into frame (replicate needed 0))
    ok out

  unfoldable pub decode_frame : List ℕ → Result DecodeError Frame
  decode_frame bytes = do
    guard (not (ltb (length bytes) header_len)) truncated_header
    guard (bytes_eq (take 4 bytes) magic) bad_magic
    kind ← kind_from (← index bytes 4)
    opcode ← opcode_from (← index bytes 5)
    status ← status_from (← index bytes 6)
    let sequence = from_le (slice 8 12 bytes)
    let payload_len = from_le (slice 12 16 bytes)
    let crc = from_le (slice 16 20 bytes)
    let expected = usize_add max header_len payload_len
    guard (length bytes == expected) (length_mismatch expected (length bytes))
    let payload = drop header_len bytes
    guard (hash payload == crc) payload_crc
    fields ← decode_fields payload
    ok (record {
      kind = kind;
      opcode = opcode;
      status = status;
      sequence = sequence;
      fields = fields;
    })

  unfoldable pub decode_frame_from_stream : List ℕ → Result DecodeError Frame
  decode_frame_from_stream bytes = do
    start ← ok_or (find_magic bytes) bad_magic
    guard (not (ltb (length bytes - start) header_len)) truncated_header
    let payload_len = from_le (slice (start + 12) (start + 16) bytes)
    let end = usize_add max (start + header_len) payload_len
    guard (not (ltb (length bytes) end))
        (length_mismatch (usize_add max header_len payload_len) (length bytes - start))
    frame ← slice_at start end bytes
    decode_frame frame

  -- `DeviceRequest::decode`
  unfoldable pub decode_request : List ℕ → Result DecodeError DeviceRequest
  decode_request bytes = do
    guard (not (ltb (length bytes) header_len)) truncated_header
    guard (bytes_eq (take 4 bytes) magic) bad_magic
    kind ← kind_from (← index bytes 4)
    guard (is_request kind) bad_magic
    opcode ← opcode_from (← index bytes 5)
    _ ← status_from (← index bytes 6)
    let sequence = from_le (slice 8 12 bytes)
    let payload_len = from_le (slice 12 16 bytes)
    let crc = from_le (slice 16 20 bytes)
    let expected = usize_add max header_len payload_len
    guard (length bytes == expected) (length_mismatch expected (length bytes))
    let payload = drop header_len bytes
    guard (hash payload == crc) payload_crc
    ok (record { opcode = opcode; sequence = sequence; payload = payload })
