-- ===== src/Protocol/Session/Upload.antt =====
-- compiler/rust/crates/squid-device-protocol/src/lib.rs: a whole upload, from `begin` over its chunks
-- to the commit.
use squid_script.Base.{
  ℕ, ◌≤◌, ◌<◌, ◌≡◌, ◌↔◌, refl, sym, ap, ◌∙◌, true, false, List, [], ◌∷◌, ◌++◌, append-nil,
  append_assoc, length, length-append, leb, ltb, ◌==◌, ok, and_then, arith,
}
use squid_script.Protocol.Wire.{max_app_id_len}
use squid_script.Protocol.Crc.{crc32}
use squid_script.Protocol.Session.{
  TransferSession, Step, set_str, begin_with_limit, complete_chunk, validate_commit,
}
use squid_script.Protocol.Session.Transfer.{
  Holds, begin-Holds, complete_chunk-Holds, complete_chunk_frame, validate_commit_iff,
}

-- The chunks of an upload, one after another, until one is refused.
pub upload : TransferSession → List (List ℕ) → Step TransferSession
upload s [] = (s, ok tt)
upload s (chunk ∷ chunks) =
    let (s', r) = complete_chunk s chunk in and_then r s' λ _. upload s' chunks

abbrev pub joined : List (List ℕ) → List ℕ
joined [] = []
joined (chunk ∷ chunks) = chunk ++ joined chunks

-- The session holds `content`, and is active with the announced length and CRC.
pub record Expects (s : TransferSession) (content : List ℕ) (total_len crc : ℕ) : Type 0 where
  pub holds : Holds s content
  pub on : s.active ≡ true
  pub total : s.total_len ≡ total_len
  pub check : s.expected_crc ≡ crc

pub begin-Expects :
    (s : TransferSession) (app_id : List ℕ) (total_len crc limit : ℕ)
    → 0 < length app_id
    → length app_id < max_app_id_len
    → 0 < total_len
    → total_len ≤ limit
    → ((begin_with_limit s app_id total_len crc limit).1 ≡ ok tt)
      × Expects (begin_with_limit s app_id total_len crc limit).0 [] total_len crc
unfolding begin_with_limit set_str
begin-Expects s [] total_len crc limit some_byte short some_total small = absurd (omega arith)
begin-Expects s (b ∷ app_id) total_len crc limit some_byte short some_total small =
    let fits : leb max_app_id_len (length (b ∷ app_id)) ≡ false = ground arith in
    let positive : (total_len == 0) ≡ false = ground arith in
    let within : ltb limit total_len ≡ false = ground arith in
    let done : (begin_with_limit s (b ∷ app_id) total_len crc limit).1 ≡ ok tt =
      rw (positive, within, fits) in
    (
      done,
      record {
        holds = begin-Holds s (b ∷ app_id) total_len crc limit done;
        on = rw (positive, within, fits);
        total = rw (positive, within, fits);
        check = rw (positive, within, fits);
      },
    )

upload-Expects :
    (s : TransferSession) (content : List ℕ) (total_len crc : ℕ) (chunks : List (List ℕ))
    → Expects s content total_len crc
    → length (content ++ joined chunks) ≤ total_len
    → ((upload s chunks).1 ≡ ok tt)
      × Expects (upload s chunks).0 (content ++ joined chunks) total_len crc
unfolding upload
upload-Expects s content total_len crc [] e h = (refl, rw append-nil e)
upload-Expects s content total_len crc (chunk ∷ chunks) e h =
    let assoc = append_assoc content chunk (joined chunks) in
    let size = length-append (content ++ chunk) (joined chunks) in
    let same = ap length assoc in
    let (taken, keep, _) = complete_chunk-Holds s content chunk e.holds in
    let first = taken.1 (e.on, omega arith) in
    let (on, total, check) = complete_chunk_frame s chunk in
    let next : Expects (complete_chunk s chunk).0 (content ++ chunk) total_len crc = record {
      holds = keep first;
      on = on ∙ e.on;
      total = total ∙ e.total;
      check = check ∙ e.check;
    } in
    rw first (
      rw (← assoc) (
        upload-Expects (complete_chunk s chunk).0 (content ++ chunk) total_len crc chunks next
          (omega arith)))

-- An upload with a valid name and length, in whatever chunks that do not exceed it, is taken chunk by
-- chunk, and its commit is accepted exactly if the chunks joined have the announced length and CRC-32.
pub upload-commit :
    (s : TransferSession) (app_id : List ℕ) (total_len crc limit : ℕ) (chunks : List (List ℕ))
    → 0 < length app_id
    → length app_id < max_app_id_len
    → 0 < total_len
    → total_len ≤ limit
    → length (joined chunks) ≤ total_len
    → ((begin_with_limit s app_id total_len crc limit).1 ≡ ok tt)
      × ((upload (begin_with_limit s app_id total_len crc limit).0 chunks).1 ≡ ok tt)
      × ((validate_commit (upload (begin_with_limit s app_id total_len crc limit).0 chunks).0
            ≡ ok tt)
          ↔ ((length (joined chunks) ≡ total_len) × (crc32 (joined chunks) ≡ crc)))
upload-commit s app_id total_len crc limit chunks some_byte short some_total small room =
    let (begun, e) = begin-Expects s app_id total_len crc limit some_byte short some_total small in
    let (taken, f) = upload-Expects _ [] total_len crc chunks e room in
    let verdict = validate_commit_iff _ (joined chunks) f.holds in
    (
      begun,
      taken,
      (
        λ c. let (_, len, sum) = verdict.0 c in (len ∙ f.total, sum ∙ f.check),
        λ (len, sum). verdict.1 (f.on, len ∙ sym f.total, sum ∙ sym f.check),
      ),
    )
