-- ===== src/Protocol/Frame/Stream.antt =====
-- compiler/rust/crates/squid-device-protocol/src/lib.rs: `decode_frame_from_stream` on a frame among
-- other output.
use squid_script.Base.{
  ℕ, ◌+◌, ◌-◌, ◌^◌, ◌≤◌, ◌<◌, ◌≡◌, ◌≢◌, refl, false, some, List, [], ◌∷◌, ◌++◌, All, length,
  length-append, drop, slice, take-append, drop-append, slice-append, ltb, ◌==◌, ok, arith,
}
use squid_script.Base.Words.{from_le, from_le-to_le}
use squid_script.Protocol.Wire.{magic, header_len}
use squid_script.Protocol.Fields.Layout.{fields_size}
use squid_script.Protocol.Frame.{Frame, find_magic, slice_at, decode_frame_from_stream}
use squid_script.Protocol.Frame.Encode.{Encodable, frame_bytes}
use squid_script.Protocol.Frame.Decode.{
  IsWire, length-frame_bytes, usize_add-eq, decode_frame-frame_bytes,
}

find_magic-append :
    (junk rest : List ℕ)
    → All (λ b. b ≢ 0x53) junk
    → find_magic (junk ++ (magic ++ rest)) ≡ some (length junk)
unfolding find_magic
find_magic-append [] rest h = refl
find_magic-append (b ∷ junk) rest (hb, h) =
    let other : (b == 0x53) ≡ false = ground arith in rw (other, find_magic-append junk rest h)

slice_at-append :
    (xs ys zs : List ℕ) (end : ℕ)
    → end ≡ length xs + length ys
    → slice_at (length xs) end (xs ++ (ys ++ zs)) ≡ ok ys
unfolding slice_at
slice_at-append xs ys zs end e =
    let size = length-append xs (ys ++ zs) in
    let size' = length-append ys zs in
    let forward : ltb end (length xs) ≡ false = ground arith in
    let inside : ltb (length (xs ++ (ys ++ zs))) end ≡ false = ground (arith, size, size') in
    let span : end - length xs ≡ length ys = omega arith in
    rw (forward, inside, span, drop-append, take-append)

-- A frame behind other bytes, none of them the letter `S`, is found and decoded, whatever follows it.
pub decode_frame_from_stream-append :
    (hash : List ℕ → ℕ) (hash-lt : (bytes : List ℕ) → hash bytes < 2 ^ 32) (max : ℕ)
    (junk rest : List ℕ) (frame : Frame)
    → All (λ b. b ≢ 0x53) junk
    → length junk + (header_len + fields_size frame.fields) ≤ max
    → Encodable max frame
    → IsWire frame
    → decode_frame_from_stream hash max (junk ++ (frame_bytes hash frame ++ rest)) ≡ ok frame
unfolding decode_frame_from_stream frame_bytes
decode_frame_from_stream-append hash hash-lt max junk rest frame quiet room e w =
    let size = fields_size frame.fields in
    let sent = frame_bytes hash frame in
    let n = length-frame_bytes hash frame in
    let whole = length-append junk (sent ++ rest) in
    let whole' = length-append sent rest in
    let start = find_magic-append junk (drop 4 (sent ++ rest)) quiet in
    let len : from_le (slice (length junk + 12) (length junk + 16) (junk ++ (sent ++ rest)))
        ≡ size =
      rw (slice-append junk (sent ++ rest) 12 16) (from_le-to_le 4 size w.len_fits) in
    let end = usize_add-eq max (length junk + header_len) size (omega arith) in
    let long : ltb (length (junk ++ (sent ++ rest)) - length junk) header_len ≡ false =
      ground (arith, whole, whole', n) in
    let inside : ltb (length (junk ++ (sent ++ rest))) (length junk + header_len + size) ≡ false =
      ground (arith, whole, whole', n) in
    let cut = slice_at-append junk sent rest (length junk + header_len + size) (omega arith) in
    rw (start, long, len, end, inside, cut, decode_frame-frame_bytes hash hash-lt max frame e w)
