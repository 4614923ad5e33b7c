-- ===== src/Protocol/Session/Resource.antt =====
-- compiler/rust/crates/squid-device-protocol/src/lib.rs: a refused `ResourceSession::begin`.
use squid_script.Base.{
  ℕ, ◌-◌, ◌≤◌, ◌<◌, ◌≡◌, true, false, List, [], ◌∷◌, length, leb, ltb, ◌==◌, ok, err, arith,
}
use squid_script.Protocol.Wire.{max_app_id_len, max_path_len, max_resource_bytes}
use squid_script.Protocol.Lookup.{path_too_long}
use squid_script.Protocol.Session.{
  ResourceSession, set_str, begin_with_limit, begin_resource, validate_chunk,
}

-- With a valid name and length, but a path that is too long, the request is refused and the transfer
-- stays active all the same: it takes any first chunk within the announced length.
pub begin_resource_long_path :
    (s : ResourceSession) (app_id path bytes : List ℕ) (total_len crc : ℕ)
    → 0 < length app_id
    → length app_id < max_app_id_len
    → 0 < total_len
    → total_len ≤ max_resource_bytes
    → max_path_len ≤ length path
    → length bytes ≤ total_len
    → ((begin_resource s app_id path total_len crc).1 ≡ err path_too_long)
      × ((begin_resource s app_id path total_len crc).0.transfer.active ≡ true)
      × (validate_chunk (begin_resource s app_id path total_len crc).0.transfer 0 bytes ≡ ok tt)
unfolding begin_resource begin_with_limit set_str validate_chunk
begin_resource_long_path s [] path bytes total_len crc some_byte short some_total small long room =
    absurd (omega arith)
begin_resource_long_path s (b ∷ app_id) [] bytes total_len crc some_byte short some_total small long
      room =
    absurd (omega arith)
begin_resource_long_path s (b ∷ app_id) (p ∷ path) bytes total_len crc some_byte short some_total
      small long room =
    let fits : leb max_app_id_len (length (b ∷ app_id)) ≡ false = ground arith in
    let over : leb max_path_len (length (p ∷ path)) ≡ true = ground arith in
    let positive : (total_len == 0) ≡ false = ground arith in
    let within : ltb max_resource_bytes total_len ≡ false = ground arith in
    let first : leb (length bytes) (total_len - 0) ≡ true = ground arith in
    (
      rw (positive, within, fits, over),
      rw (positive, within, fits, over),
      rw (positive, within, fits, over, first),
    )
