-- ===== src/Protocol/Session/Transfer.antt =====
-- compiler/rust/crates/squid-device-protocol/src/lib.rs: a transfer session and the bytes that it
-- stands for, by their number and their running CRC.
use squid_script.Base.{
  ℕ, ◌≤◌, ◌≡◌, ◌≢◌, ◌↔◌, refl, true, List, [], ◌++◌, length, length-append, ok, arith,
}
use squid_script.Protocol.Crc.{crc32_update, crc_start, crc32, crc32_update-append}
use squid_script.Protocol.Session.{
  TransferSession, cleared, begin_with_limit, validate_chunk, complete_chunk, validate_commit,
}

-- `received` bytes of `total_len` have come, and they were `content`.
pub record Holds (s : TransferSession) (content : List ℕ) : Type 0 where
  pub crc : s.running_crc ≡ crc32_update crc_start content
  pub count : s.received ≡ length content
  pub within : s.received ≤ s.total_len

pub cleared-Holds : Holds cleared []
unfolding crc32_update
cleared-Holds = record { crc = refl; count = refl; within = omega arith }

pub begin-Holds :
    (s : TransferSession) (app_id : List ℕ) (total_len crc limit : ℕ)
    → (begin_with_limit s app_id total_len crc limit).1 ≡ ok tt
    → Holds (begin_with_limit s app_id total_len crc limit).0 []
unfolding begin_with_limit crc32_update
begin-Holds s app_id total_len crc limit h = ground arith

fits_iff :
    (s : TransferSession) (content bytes : List ℕ)
    → Holds s content
    → (validate_chunk s s.received bytes ≡ ok tt)
      ↔ ((s.active ≡ true) × (length (content ++ bytes) ≤ s.total_len))
unfolding validate_chunk
fits_iff s content bytes h =
    let size = length-append content bytes in (λ e. ground arith, λ (on, room). ground arith)

-- For a session that holds `content`: a chunk is taken exactly if the session is active and the total
-- is not exceeded; then the session holds `content` and the chunk, and otherwise it is unchanged.
pub complete_chunk-Holds :
    (s : TransferSession) (content bytes : List ℕ)
    → Holds s content
    → (((complete_chunk s bytes).1 ≡ ok tt)
        ↔ ((s.active ≡ true) × (length (content ++ bytes) ≤ s.total_len)))
      × ((complete_chunk s bytes).1 ≡ ok tt → Holds (complete_chunk s bytes).0 (content ++ bytes))
      × ((complete_chunk s bytes).1 ≢ ok tt → (complete_chunk s bytes).0 ≡ s)
unfolding complete_chunk
complete_chunk-Holds s content bytes h =
    let size = length-append content bytes in
    let crc = crc32_update-append crc_start content bytes in
    ((λ e. ground arith, λ (on, room). ground arith), λ e. ground arith, λ e. ground arith)

-- For a session that holds `content`, a commit is accepted exactly if the session is active, the
-- announced number of bytes has come, and they have the announced CRC-32.
pub validate_commit_iff :
    (s : TransferSession) (content : List ℕ)
    → Holds s content
    → (validate_commit s ≡ ok tt)
      ↔ ((s.active ≡ true) × (length content ≡ s.total_len) × (crc32 content ≡ s.expected_crc))
unfolding validate_commit crc32
validate_commit_iff s content h = (λ e. ground arith, λ (on, whole, crc). ground arith)

-- What the transfer announced stays as it is.
pub complete_chunk_frame :
    (s : TransferSession) (bytes : List ℕ)
    → ((complete_chunk s bytes).0.active ≡ s.active)
      × ((complete_chunk s bytes).0.total_len ≡ s.total_len)
      × ((complete_chunk s bytes).0.expected_crc ≡ s.expected_crc)
unfolding complete_chunk
complete_chunk_frame s bytes = (ground arith, ground arith, ground arith)
