-- ===== src/Protocol/Session/Tests.antt =====
-- compiler/rust/crates/squid-device-protocol/src/lib.rs: the theorems on the sessions at concrete
-- inputs.
use squid_script.Base.{
  ◌%◌, ◌^◌, ◌<◌, ◌+◌, ℕ, ◌≤◌, ◌≡◌, ◌≢◌, ◌↔◌, refl, true, List, [], ◌∷◌, ◌++◌, length, replicate, ok,
  err, ◌>>=◌, arith,
}
use squid_script.Base.Utf8.{is_utf8}
use squid_script.Protocol.Wire.{temp_run_begin, temp_run_commit}
use squid_script.Protocol.Crc.{crc32}
use squid_script.Protocol.Frame.{DeviceRequest, encode_frame, decode_request}
use squid_script.Protocol.Requests.{app_install_begin_request}
use squid_script.Protocol.Requests.Delivery.{app_install_begin_delivered}
use squid_script.Protocol.Lookup.{path_too_long}
use squid_script.Protocol.Session.{
  begin_install, ProtocolSessions, cleared, cleared_resource, no_sessions, set_str, as_str,
  begin_with_limit, begin_resource, validate_chunk, complete_chunk, validate_commit, next_action,
  complete, temp_run_begun,
}
use squid_script.Protocol.Session.Strings.{as_str-set_str}
use squid_script.Protocol.Session.Transfer.{
  Holds, cleared-Holds, complete_chunk-Holds, validate_commit_iff,
}
use squid_script.Protocol.Session.Upload.{Expects, upload, joined, upload-commit}
use squid_script.Protocol.Session.Reach.{Reach, start, after, asked, reported, Reach-IsValid}
use squid_script.Protocol.Session.Valid.{IsValid}
use squid_script.Protocol.Session.Resource.{begin_resource_long_path}

abbrev usize_max : ℕ
usize_max = 18446744073709551615

-- "demo"
abbrev demo : List ℕ
demo = 0x64 ∷ 0x65 ∷ 0x6d ∷ 0x6f ∷ []

demo_text : is_utf8 demo ≡ true
unfolding is_utf8
demo_text = refl

-- The payload that begins an upload of three bytes under the name "demo".
abbrev begin_demo : DeviceRequest
begin_demo = record {
  opcode = temp_run_begin;
  sequence = 1;
  payload =
      1 ∷ 1 ∷ 4 ∷ 0 ∷ 0x64 ∷ 0x65 ∷ 0x6d ∷ 0x6f ∷ 2 ∷ 5 ∷ 8 ∷ 0 ∷ 3 ∷ 0 ∷ 0 ∷ 0 ∷ 0 ∷ 0 ∷ 0 ∷ 0 ∷ 3
      ∷ 5 ∷ 8 ∷ 0 ∷ 9 ∷ 0 ∷ 0 ∷ 0 ∷ 0 ∷ 0 ∷ 0 ∷ 0 ∷ [];
}

abbrev commit_demo : DeviceRequest
commit_demo = record { opcode = temp_run_commit; sequence = 2; payload = [] }

-- The sessions after the request, and after the host's report of the staging path.
asked_demo : ProtocolSessions
asked_demo = (next_action usize_max no_sessions begin_demo).0

begun_demo : ProtocolSessions
begun_demo = (complete asked_demo (temp_run_begun demo)).0

begun_demo-Reach : Reach usize_max begun_demo
unfolding asked_demo begun_demo
begun_demo-Reach =
    after (after start (asked no_sessions begin_demo))
      (reported asked_demo (temp_run_begun demo) demo_text)

Reach-IsValid_example : IsValid begun_demo
Reach-IsValid_example = Reach-IsValid usize_max begun_demo-Reach

upload-commit_example :
    ((begin_with_limit cleared demo 3 891568578 65536).1 ≡ ok tt)
    × ((upload
          (begin_with_limit cleared demo 3 891568578 65536).0
          ((0x61 ∷ []) ∷ (0x62 ∷ 0x63 ∷ []) ∷ [])).1
        ≡ ok tt)
    × ((validate_commit
            (upload
              (begin_with_limit cleared demo 3 891568578 65536).0
              ((0x61 ∷ []) ∷ (0x62 ∷ 0x63 ∷ []) ∷ [])).0
          ≡ ok tt)
        ↔ ((length (joined ((0x61 ∷ []) ∷ (0x62 ∷ 0x63 ∷ []) ∷ [])) ≡ 3)
            × (crc32 (joined ((0x61 ∷ []) ∷ (0x62 ∷ 0x63 ∷ []) ∷ [])) ≡ 891568578)))
upload-commit_example =
    upload-commit cleared demo 3 891568578 65536 ((0x61 ∷ []) ∷ (0x62 ∷ 0x63 ∷ []) ∷ [])
      (omega arith) (omega arith) (omega arith) (omega arith) (omega arith)

complete_chunk-Holds_example :
    (((complete_chunk cleared demo).1 ≡ ok tt)
      ↔ ((cleared.active ≡ true) × (length ([] ++ demo) ≤ cleared.total_len)))
    × ((complete_chunk cleared demo).1 ≡ ok tt → Holds (complete_chunk cleared demo).0 ([] ++ demo))
    × ((complete_chunk cleared demo).1 ≢ ok tt → (complete_chunk cleared demo).0 ≡ cleared)
complete_chunk-Holds_example = complete_chunk-Holds cleared [] demo cleared-Holds

validate_commit_iff_example : (validate_commit cleared ≡ ok tt) ↔ (
    (cleared.active ≡ true)
    × (length {A = ℕ} [] ≡ cleared.total_len)
    × (crc32 [] ≡ cleared.expected_crc))
validate_commit_iff_example = validate_commit_iff cleared [] cleared-Holds

as_str-set_str_example : (set_str 40 demo >>= as_str) ≡ ok demo
as_str-set_str_example = as_str-set_str 40 demo (omega arith) (omega arith) demo_text

-- A path of 128 bytes.
abbrev long_path : List ℕ
long_path = replicate 128 0x61

begin_resource_long_path_example :
    ((begin_resource cleared_resource demo long_path 10 0).1 ≡ err path_too_long)
    × ((begin_resource cleared_resource demo long_path 10 0).0.transfer.active ≡ true)
    × (validate_chunk (begin_resource cleared_resource demo long_path 10 0).0.transfer 0 demo
        ≡ ok tt)
begin_resource_long_path_example =
    begin_resource_long_path cleared_resource demo long_path demo 10 0 (omega arith) (omega arith)
      (omega arith) (omega arith) (omega arith) (omega arith)

abbrev sum : List ℕ → ℕ
sum [] = 0
sum (b ∷ bs) = b + sum bs

abbrev sum_hash : List ℕ → ℕ
sum_hash bs = sum bs % 2 ^ 32

sum_hash-lt : (bs : List ℕ) → sum_hash bs < 2 ^ 32
sum_hash-lt bs = omega arith

app_install_begin_delivered_example :
    (sent : List ℕ) × (request : DeviceRequest) × (encode_frame sum_hash usize_max
        (app_install_begin_request 7 demo 3 891568578)
      ≡ ok sent)
    × (decode_request sum_hash usize_max sent ≡ ok request)
    × ((next_action usize_max no_sessions request).1 ≡ ok (begin_install demo 3))
    × Expects (next_action usize_max no_sessions request).0.install [] 3 891568578
app_install_begin_delivered_example =
    app_install_begin_delivered sum_hash sum_hash-lt usize_max no_sessions 7 demo 3 891568578
      demo_text (omega arith) (omega arith) (omega arith) (omega arith) (omega arith) (omega arith)
      (omega arith)
