-- ===== src/Protocol/Requests/Budget.antt =====
-- compiler/rust/crates/squid-device-protocol/src/lib.rs: the size of a chunk request against the frame
-- budget that a device announces.
use squid_script.Base.{ℕ, ◌+◌, ◌≤◌, ◌≡◌, Bool, List, length, ok, arith}
use squid_script.Protocol.Fields.{u16_max}
use squid_script.Protocol.Fields.Layout.{fields_size, value_size}
use squid_script.Protocol.Frame.{encode_frame}
use squid_script.Protocol.Frame.Encode.{Encodable, frame_bytes, encode_frame-eq}
use squid_script.Protocol.Frame.Decode.{length-frame_bytes}
use squid_script.Protocol.Requests.{
  transfer_chunk_payload_for_frame_budget, transfer_chunk_fields,
  app_install_chunk_request_with_ack,
}

chunk_size :
    (offset : ℕ) (content : List ℕ) (ack : Bool)
    → fields_size (transfer_chunk_fields offset content ack) ≡ length content + 21
unfolding transfer_chunk_fields fields_size
chunk_size offset content ack = omega arith

-- A chunk of at most the payload that is computed from a frame budget of 45 bytes or more, and that
-- fits its 16-bit length, is encoded, and the frame stays four bytes or more below the budget.
pub app_install_chunk_budget :
    (hash : List ℕ → ℕ) (max budget sequence offset : ℕ) (content : List ℕ) (ack : Bool)
    → 45 ≤ budget
    → length content ≤ transfer_chunk_payload_for_frame_budget budget
    → length content ≤ u16_max
    → budget ≤ max
    → (sent : List ℕ) × (encode_frame hash max
          (app_install_chunk_request_with_ack sequence offset content ack)
        ≡ ok sent)
      × (length sent ≡ length content + 41)
      × (length sent + 4 ≤ budget)
unfolding transfer_chunk_payload_for_frame_budget app_install_chunk_request_with_ack
    transfer_chunk_fields value_size
app_install_chunk_budget hash max budget sequence offset content ack some_budget fits small within =
    let frame = app_install_chunk_request_with_ack sequence offset content ack in
    let size : fields_size frame.fields ≡ length content + 21 = chunk_size offset content ack in
    let able : Encodable max frame = record {
      sizes = (omega arith, tt, (omega arith, tt, (omega arith, tt, tt)));
      total = omega arith;
    } in
    (
      frame_bytes hash frame,
      encode_frame-eq hash max frame able,
      omega (arith, length-frame_bytes hash frame),
      omega (arith, length-frame_bytes hash frame),
    )
