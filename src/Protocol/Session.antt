-- ===== src/Protocol/Session.antt =====
-- compiler/rust/crates/squid-device-protocol/src/lib.rs: `TransferSession`, `ResourceSession` and
-- `ProtocolSessions`, the device's state machines of uploads. A method that takes `&mut self`
-- returns the new state beside its result, on errors too. `max` is `usize::MAX` of the target.
pub mod Strings
pub mod Transfer
pub mod Upload
pub mod Valid
pub mod Reach
pub mod Safe
pub mod Resource
mod Tests
use squid_script.Base.{
  ℕ, ◌+◌, ◌-◌, ◌^◌, Bool, true, false, ◌&&◌, ◌||◌, List, ◌++◌, length, take, replicate, is_empty,
  leb, ltb, ◌==◌, if◌then◌else◌, Result, ok, err, panic, ◌>>=◌, ◌>>◌, guard, ok_or, and_then,
}
use squid_script.Base.Utf8.{is_utf8}
use squid_script.Protocol.Wire.{
  Opcode, app_install_begin, app_install_chunk, app_install_commit, temp_run_begin, temp_run_chunk,
  temp_run_commit, resource_install_begin, resource_install_chunk, resource_install_commit,
  max_app_id_len, max_path_len, max_app_bytes, max_resource_bytes,
}
use squid_script.Protocol.Crc.{crc32_update, crc_start, crc_not}
use squid_script.Protocol.Frame.{DeviceRequest}
use squid_script.Protocol.Lookup.{
  SessionError, invalid_request, missing_field, app_id_too_long, path_too_long, too_large, inactive,
  offset_error, bounds, crc_error, string_field, bytes_field, u64_field, chunk_offset,
}

pub data HostAction : Type 0 where
  begin_install : (app_id : List ℕ) (total_len : ℕ) → HostAction
  write_install_chunk : (staging_path : List ℕ) (offset : ℕ) (bytes : List ℕ) → HostAction
  commit_install : (app_id staging_path : List ℕ) → HostAction
  begin_temp_run : (app_id : List ℕ) (total_len : ℕ) → HostAction
  write_temp_run_chunk : (staging_path : List ℕ) (offset : ℕ) (bytes : List ℕ) → HostAction
  commit_temp_run : (app_id staging_path : List ℕ) (total_len : ℕ) → HostAction
  begin_resource_install : (app_id resource_path : List ℕ) (total_len : ℕ) → HostAction
  write_resource_chunk : (staging_path : List ℕ) (offset : ℕ) (bytes : List ℕ) → HostAction
  commit_resource_install : (app_id resource_path staging_path : List ℕ) → HostAction

-- An array of `N` bytes and how many of them are in use.
pub record FixedStr : Type 0 where
  pub bytes : List ℕ
  pub len : ℕ

abbrev pub empty_str : ℕ → FixedStr
empty_str n = record { bytes = replicate n 0; len = 0 }

-- The new string; a refused one leaves the old.
unfoldable pub set_str : ℕ → List ℕ → Result SessionError FixedStr
set_str n value =
    if is_empty value || leb n (length value)
    then err (if n == max_app_id_len then app_id_too_long else path_too_long)
    else ok (record { bytes = value ++ replicate (n - length value) 0; len = length value })

-- `as_str` panics if the length is out of bounds or the bytes are no UTF-8.
unfoldable pub as_str : FixedStr → Result SessionError (List ℕ)
as_str s =
    if leb s.len (length s.bytes) && is_utf8 (take s.len s.bytes)
    then ok (take s.len s.bytes)
    else panic

pub record TransferSession : Type 0 where
  pub active : Bool
  pub app_id : FixedStr
  pub total_len : ℕ
  pub received : ℕ
  pub expected_crc : ℕ
  pub running_crc : ℕ
  pub staging_path : FixedStr

-- `TransferSession::default`, which `clear` restores.
abbrev pub cleared : TransferSession
cleared = record {
  active = false;
  app_id = empty_str max_app_id_len;
  total_len = 0;
  received = 0;
  expected_crc = 0;
  running_crc = crc_start;
  staging_path = empty_str max_path_len;
}

unfoldable pub validate_transfer_len : ℕ → ℕ → Result SessionError (Unit {0})
validate_transfer_len total_len max_bytes =
    if total_len == 0
    then err invalid_request
    else if ltb max_bytes total_len
    then err too_large
    else ok tt

abbrev pub Step : Type 0 → Type 0
Step S = S × Result SessionError (Unit {0})

unfoldable pub begin_with_limit : TransferSession → List ℕ → ℕ → ℕ → ℕ → Step TransferSession
unfolding validate_transfer_len
begin_with_limit s app_id total_len expected_crc max_bytes =
    and_then (validate_transfer_len total_len max_bytes) s λ _.
      and_then (set_str max_app_id_len app_id) cleared λ id. (
        record cleared {
          app_id = id;
          total_len = total_len;
          expected_crc = expected_crc;
          running_crc = crc_start;
          active = true;
        },
        ok tt,
      )

-- `TransferSession::begin`
abbrev pub begin : TransferSession → List ℕ → ℕ → ℕ → Step TransferSession
begin s app_id total_len expected_crc =
    begin_with_limit s app_id total_len expected_crc max_app_bytes

unfoldable pub complete_begin : TransferSession → List ℕ → Step TransferSession
complete_begin s staging_path = and_then (guard s.active inactive) s λ _.
    and_then (set_str max_path_len staging_path) s λ path. (record s { staging_path = path }, ok tt)

unfoldable pub validate_chunk : TransferSession → ℕ → List ℕ → Result SessionError (Unit {0})
validate_chunk s offset bytes = do
  guard s.active inactive
  guard (offset == s.received) offset_error
  guard (leb (length bytes) (s.total_len - s.received)) bounds

unfoldable pub complete_chunk : TransferSession → List ℕ → Step TransferSession
unfolding validate_chunk
complete_chunk s bytes = and_then (validate_chunk s s.received bytes) s λ _. (
  record s { running_crc = crc32_update s.running_crc bytes; received = s.received + length bytes },
  ok tt,
)

unfoldable pub crc_matches : TransferSession → Bool
crc_matches s = crc_not s.running_crc == s.expected_crc

unfoldable pub validate_commit : TransferSession → Result SessionError (Unit {0})
unfolding crc_matches
validate_commit s = do
  guard s.active inactive
  guard (s.received == s.total_len) bounds
  guard (crc_matches s) crc_error

pub record ResourceSession : Type 0 where
  pub transfer : TransferSession
  pub resource_path : FixedStr

abbrev pub cleared_resource : ResourceSession
cleared_resource = record { transfer = cleared; resource_path = empty_str max_path_len }

-- `ResourceSession::begin`
unfoldable pub begin_resource : ResourceSession → List ℕ → List ℕ → ℕ → ℕ → Step ResourceSession
begin_resource s app_id resource_path total_len expected_crc =
    let (transfer, begun) =
      begin_with_limit cleared app_id total_len expected_crc max_resource_bytes in
    let s' : ResourceSession = record cleared_resource { transfer = transfer } in
    and_then begun s' λ _.
      and_then (set_str max_path_len resource_path) s'
        λ path. (record s' { resource_path = path }, ok tt)

pub record ProtocolSessions : Type 0 where
  pub install : TransferSession
  pub temp_run : TransferSession
  pub resource : ResourceSession

-- What `begin_install` reads from its request.
pub record BeginInstall : Type 0 where
  pub app_id : List ℕ
  pub total_len : ℕ
  pub crc : ℕ

unfoldable pub begin_install_fields : ℕ → List ℕ → Result SessionError BeginInstall
begin_install_fields max payload = do
  app_id ← ok_or (← string_field payload 1) missing_field
  total_len ← ok_or (← u64_field payload 2) missing_field
  crc ← ok_or (← u64_field payload 3) missing_field
  guard (ltb crc (2 ^ 32)) invalid_request
  guard (leb total_len max) too_large
  ok (record { app_id = app_id; total_len = total_len; crc = crc })

-- `ProtocolSessions::begin_install`
unfoldable pub begin_install_request :
    ℕ → ProtocolSessions → DeviceRequest → Bool → ProtocolSessions × Result SessionError HostAction
begin_install_request max s request is_temp_run =
    and_then (begin_install_fields max request.payload) s λ f.
      if is_temp_run
      then (let (t, begun) = begin s.temp_run f.app_id f.total_len f.crc in
          (record s { temp_run = t }, (begun >> ok (begin_temp_run f.app_id f.total_len))))
      else (let (t, begun) = begin s.install f.app_id f.total_len f.crc in
          (record s { install = t }, (begun >> ok (begin_install f.app_id f.total_len))))

unfoldable pub install_chunk :
    ℕ → ProtocolSessions → DeviceRequest → Bool → Result SessionError HostAction
install_chunk max s request is_temp_run = do
  offset ← chunk_offset max request.payload
  bytes ← ok_or (← bytes_field request.payload 2) missing_field
  let session = if is_temp_run then s.temp_run else s.install
  validate_chunk session offset bytes
  staging_path ← as_str session.staging_path
  ok (
      if is_temp_run
      then write_temp_run_chunk staging_path offset bytes
      else write_install_chunk staging_path offset bytes)

-- `ProtocolSessions::commit_install`
unfoldable pub commit_install_request : ProtocolSessions → Result SessionError HostAction
commit_install_request s = do
  validate_commit s.install
  app_id ← as_str s.install.app_id
  staging_path ← as_str s.install.staging_path
  ok (commit_install app_id staging_path)

-- `ProtocolSessions::commit_temp_run`
unfoldable pub commit_temp_run_request : ProtocolSessions → Result SessionError HostAction
commit_temp_run_request s = do
  validate_commit s.temp_run
  app_id ← as_str s.temp_run.app_id
  staging_path ← as_str s.temp_run.staging_path
  ok (commit_temp_run app_id staging_path s.temp_run.total_len)

-- What `begin_resource` reads from its request.
pub record BeginResource : Type 0 where
  pub app_id : List ℕ
  pub resource_path : List ℕ
  pub total_len : ℕ
  pub crc : ℕ

unfoldable pub begin_resource_fields : ℕ → List ℕ → Result SessionError BeginResource
begin_resource_fields max payload = do
  app_id ← ok_or (← string_field payload 1) missing_field
  resource_path ← ok_or (← string_field payload 2) missing_field
  total_len ← ok_or (← u64_field payload 3) missing_field
  crc ← ok_or (← u64_field payload 4) missing_field
  guard (ltb crc (2 ^ 32)) invalid_request
  guard (leb total_len max) too_large
  ok (record { app_id = app_id; resource_path = resource_path; total_len = total_len; crc = crc })

-- `ProtocolSessions::begin_resource`
unfoldable pub begin_resource_request :
    ℕ → ProtocolSessions → DeviceRequest → ProtocolSessions × Result SessionError HostAction
begin_resource_request max s request = and_then (begin_resource_fields max request.payload) s λ f.
    let (r, begun) = begin_resource s.resource f.app_id f.resource_path f.total_len f.crc in
    (
      record s { resource = r },
      (begun >> ok (begin_resource_install f.app_id f.resource_path f.total_len)),
    )

unfoldable pub resource_chunk :
    ℕ → ProtocolSessions → DeviceRequest → Result SessionError HostAction
resource_chunk max s request = do
  offset ← chunk_offset max request.payload
  bytes ← ok_or (← bytes_field request.payload 2) missing_field
  validate_chunk s.resource.transfer offset bytes
  staging_path ← as_str s.resource.transfer.staging_path
  ok (write_resource_chunk staging_path offset bytes)

-- `ProtocolSessions::commit_resource`
unfoldable pub commit_resource_request : ProtocolSessions → Result SessionError HostAction
commit_resource_request s = do
  validate_commit s.resource.transfer
  app_id ← as_str s.resource.transfer.app_id
  resource_path ← as_str s.resource.resource_path
  staging_path ← as_str s.resource.transfer.staging_path
  ok (commit_resource_install app_id resource_path staging_path)

-- The cases of `next_action`, by the request's opcode.
unfoldable pub next_action_for :
    Opcode
    → ℕ
    → ProtocolSessions
    → DeviceRequest
    → ProtocolSessions × Result SessionError HostAction
next_action_for app_install_begin max s request = begin_install_request max s request false
next_action_for temp_run_begin max s request = begin_install_request max s request true
next_action_for app_install_chunk max s request = (s, install_chunk max s request false)
next_action_for temp_run_chunk max s request = (s, install_chunk max s request true)
next_action_for app_install_commit max s request = (s, commit_install_request s)
next_action_for temp_run_commit max s request = (s, commit_temp_run_request s)
next_action_for resource_install_begin max s request = begin_resource_request max s request
next_action_for resource_install_chunk max s request = (s, resource_chunk max s request)
next_action_for resource_install_commit max s request = (s, commit_resource_request s)
next_action_for _ max s request = (s, err invalid_request)

unfoldable pub next_action :
    ℕ → ProtocolSessions → DeviceRequest → ProtocolSessions × Result SessionError HostAction
unfolding next_action_for
next_action max s request = next_action_for request.opcode max s request

-- The host's reports that it has carried an action out.
pub data Completion : Type 0 where
  install_begun temp_run_begun resource_begun : (staging_path : List ℕ) → Completion
  install_chunk_written temp_run_chunk_written resource_chunk_written :
      (bytes : List ℕ) → Completion
  install_committed temp_run_committed resource_committed : Completion

-- `complete_begin_install` and its eight fellows.
unfoldable pub complete : ProtocolSessions → Completion → Step ProtocolSessions
complete s (install_begun path) =
    let (t, r) = complete_begin s.install path in (record s { install = t }, r)
complete s (install_chunk_written bytes) =
    let (t, r) = complete_chunk s.install bytes in (record s { install = t }, r)
complete s install_committed = (record s { install = cleared }, ok tt)
complete s (temp_run_begun path) =
    let (t, r) = complete_begin s.temp_run path in (record s { temp_run = t }, r)
complete s (temp_run_chunk_written bytes) =
    let (t, r) = complete_chunk s.temp_run bytes in (record s { temp_run = t }, r)
complete s temp_run_committed = (record s { temp_run = cleared }, ok tt)
complete s (resource_begun path) =
    let (t, r) = complete_begin s.resource.transfer path in
    (record s { resource = record (s.resource) { transfer = t } }, r)
complete s (resource_chunk_written bytes) =
    let (t, r) = complete_chunk s.resource.transfer bytes in
    (record s { resource = record (s.resource) { transfer = t } }, r)
complete s resource_committed = (record s { resource = cleared_resource }, ok tt)

abbrev pub no_sessions : ProtocolSessions
no_sessions = record { install = cleared; temp_run = cleared; resource = cleared_resource }
