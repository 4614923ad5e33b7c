-- ===== src/Protocol/Session/Valid.antt =====
-- compiler/rust/crates/squid-device-protocol/src/lib.rs: well-formed sessions, operation by operation.
use squid_script.Base.{
  ℕ, ◌≤◌, ◌≡◌, sym, ap, ◌∙◌, Bool, true, false, List, Result, ok, ◌>>=◌, guard, ok_or,
  and_then_state, >>=-eq-ok, arith,
}
use squid_script.Base.Utf8.{is_utf8}
use squid_script.Protocol.Wire.{
  Opcode, app_install_begin, temp_run_begin, resource_install_begin, max_app_id_len, max_path_len,
  max_resource_bytes,
}
use squid_script.Protocol.Frame.{DeviceRequest}
use squid_script.Protocol.Lookup.{SessionError, missing_field, inactive, string_field}
use squid_script.Protocol.Session.{
  TransferSession, ResourceSession, ProtocolSessions, cleared, cleared_resource, set_str,
  validate_transfer_len, begin_with_limit, complete_begin, complete_chunk, begin_resource,
  BeginInstall, begin_install_fields, BeginResource, begin_resource_fields, begin_install_request,
  begin_resource_request, next_action_for, complete, Completion, install_begun, temp_run_begun,
  resource_begun, install_chunk_written, temp_run_chunk_written, resource_chunk_written,
  install_committed, temp_run_committed, resource_committed,
}
use squid_script.Protocol.Session.Strings.{IsStr, empty_str-IsStr, set_str-IsStr}

-- A session's strings are strings, and it has not received more than was announced.
pub record IsTransfer (s : TransferSession) : Type 0 where
  pub app_id : IsStr s.app_id
  pub staging_path : IsStr s.staging_path
  pub within : s.received ≤ s.total_len

pub record IsResource (s : ResourceSession) : Type 0 where
  pub transfer : IsTransfer s.transfer
  pub resource_path : IsStr s.resource_path

pub record IsValid (s : ProtocolSessions) : Type 0 where
  pub install : IsTransfer s.install
  pub temp_run : IsTransfer s.temp_run
  pub resource : IsResource s.resource

-- The paths that the host reports are strings, as their type in the source says.
abbrev pub IsCompletion : Completion → Type 0
IsCompletion (install_begun path) = is_utf8 path ≡ true
IsCompletion (temp_run_begun path) = is_utf8 path ≡ true
IsCompletion (resource_begun path) = is_utf8 path ≡ true
IsCompletion _ = Unit {0}

pub cleared-IsTransfer : IsTransfer cleared
cleared-IsTransfer = record {
  app_id = empty_str-IsStr max_app_id_len;
  staging_path = empty_str-IsStr max_path_len;
  within = omega arith;
}

pub cleared_resource-IsResource : IsResource cleared_resource
cleared_resource-IsResource = record {
  transfer = cleared-IsTransfer;
  resource_path = empty_str-IsStr max_path_len;
}

begin-IsTransfer :
    (s : TransferSession) (app_id : List ℕ) (total_len crc limit : ℕ)
    → is_utf8 app_id ≡ true
    → IsTransfer s
    → IsTransfer (begin_with_limit s app_id total_len crc limit).0
unfolding begin_with_limit
begin-IsTransfer s app_id total_len crc limit utf8 v =
    and_then_state IsTransfer (validate_transfer_len total_len limit) s _ v λ _ _.
      and_then_state IsTransfer (set_str max_app_id_len app_id) cleared _ cleared-IsTransfer λ id e.
        record {
          app_id = set_str-IsStr max_app_id_len app_id id utf8 e;
          staging_path = empty_str-IsStr max_path_len;
          within = omega arith;
        }

complete_begin-IsTransfer :
    (s : TransferSession) (path : List ℕ)
    → is_utf8 path ≡ true
    → IsTransfer s
    → IsTransfer (complete_begin s path).0
unfolding complete_begin
complete_begin-IsTransfer s path utf8 v =
    and_then_state IsTransfer (guard s.active inactive) s _ v λ _ _.
      and_then_state IsTransfer (set_str max_path_len path) s _ v λ p e. record {
        app_id = v.app_id;
        staging_path = set_str-IsStr max_path_len path p utf8 e;
        within = v.within;
      }

complete_chunk-IsTransfer :
    (s : TransferSession) (bytes : List ℕ) → IsTransfer s → IsTransfer (complete_chunk s bytes).0
unfolding complete_chunk
complete_chunk-IsTransfer s bytes v = ground arith

begin_resource-IsResource :
    (s : ResourceSession) (app_id path : List ℕ) (total_len crc : ℕ)
    → is_utf8 app_id ≡ true
    → is_utf8 path ≡ true
    → IsResource (begin_resource s app_id path total_len crc).0
unfolding begin_resource
begin_resource-IsResource s app_id path total_len crc utf8 utf8' =
    let (t, begun) = begin_with_limit cleared app_id total_len crc max_resource_bytes in
    let r : ResourceSession = record cleared_resource { transfer = t } in
    let valid : IsResource r = record {
      transfer =
          begin-IsTransfer cleared app_id total_len crc max_resource_bytes utf8 cleared-IsTransfer;
      resource_path = empty_str-IsStr max_path_len;
    } in
    and_then_state IsResource begun r _ valid λ _ _.
      and_then_state IsResource (set_str max_path_len path) r _ valid λ p e. record {
        transfer = valid.transfer;
        resource_path = set_str-IsStr max_path_len path p utf8' e;
      }

string_field-utf8 :
    (payload value : List ℕ) (tag : ℕ) (e : SessionError)
    → (string_field payload tag >>= λ o. ok_or o e) ≡ ok value
    → is_utf8 value ≡ true
unfolding string_field
string_field-utf8 payload value tag e h = ground arith

-- A string that a request must have, and what is made of it.
required_string-inv :
    {B : Type 0} (payload : List ℕ) (tag : ℕ) (e : SessionError)
    (k : List ℕ → Result SessionError B) {b : B}
    → (string_field payload tag >>= λ o. ok_or o e >>= k) ≡ ok b
    → (value : List ℕ) × (is_utf8 value ≡ true) × (k value ≡ ok b)
required_string-inv payload tag e k h =
    let (o, found, rest) = >>=-eq-ok (string_field payload tag) _ h in
    let (value, here, rest') = >>=-eq-ok (ok_or o e) _ rest in
    (
      value,
      string_field-utf8 payload value tag e (ap (λ r. r >>= λ o. ok_or o e) found ∙ here),
      rest',
    )

begin_install_fields-utf8 :
    (max : ℕ) (payload : List ℕ) (f : BeginInstall)
    → begin_install_fields max payload ≡ ok f
    → is_utf8 f.app_id ≡ true
unfolding begin_install_fields
begin_install_fields-utf8 max payload f h =
    let (app_id, utf8, k) = required_string-inv payload 1 missing_field _ h in
    let same : app_id ≡ f.app_id = ground arith in ap is_utf8 (sym same) ∙ utf8

begin_resource_fields-utf8 :
    (max : ℕ) (payload : List ℕ) (f : BeginResource)
    → begin_resource_fields max payload ≡ ok f
    → (is_utf8 f.app_id ≡ true) × (is_utf8 f.resource_path ≡ true)
unfolding begin_resource_fields
begin_resource_fields-utf8 max payload f h =
    let (app_id, utf8, k) = required_string-inv payload 1 missing_field _ h in
    let (path, utf8', k') = required_string-inv payload 2 missing_field _ k in
    let same : app_id ≡ f.app_id = ground arith in
    let same' : path ≡ f.resource_path = ground arith in
    (ap is_utf8 (sym same) ∙ utf8, ap is_utf8 (sym same') ∙ utf8')

begin_install_request-IsValid :
    (max : ℕ) (s : ProtocolSessions) (request : DeviceRequest) (is_temp_run : Bool)
    → IsValid s
    → IsValid (begin_install_request max s request is_temp_run).0
unfolding begin_install_request
begin_install_request-IsValid max s request true v =
    and_then_state IsValid (begin_install_fields max request.payload) s _ v λ f e. record {
      install = v.install;
      temp_run =
          begin-IsTransfer s.temp_run f.app_id f.total_len f.crc _
            (begin_install_fields-utf8 max request.payload f e) v.temp_run;
      resource = v.resource;
    }
begin_install_request-IsValid max s request false v =
    and_then_state IsValid (begin_install_fields max request.payload) s _ v λ f e. record {
      install =
          begin-IsTransfer s.install f.app_id f.total_len f.crc _
            (begin_install_fields-utf8 max request.payload f e) v.install;
      temp_run = v.temp_run;
      resource = v.resource;
    }

begin_resource_request-IsValid :
    (max : ℕ) (s : ProtocolSessions) (request : DeviceRequest)
    → IsValid s
    → IsValid (begin_resource_request max s request).0
unfolding begin_resource_request
begin_resource_request-IsValid max s request v =
    and_then_state IsValid (begin_resource_fields max request.payload) s _ v λ f e.
      let (utf8, utf8') = begin_resource_fields-utf8 max request.payload f e in
      record {
        install = v.install;
        temp_run = v.temp_run;
        resource =
            begin_resource-IsResource s.resource f.app_id f.resource_path f.total_len f.crc utf8
              utf8';
      }

pub next_action-IsValid :
    (o : Opcode) (max : ℕ) (s : ProtocolSessions) (request : DeviceRequest)
    → IsValid s
    → IsValid (next_action_for o max s request).0
unfolding next_action_for
next_action-IsValid app_install_begin max s request v =
    begin_install_request-IsValid max s request false v
next_action-IsValid temp_run_begin max s request v =
    begin_install_request-IsValid max s request true v
next_action-IsValid resource_install_begin max s request v =
    begin_resource_request-IsValid max s request v
next_action-IsValid _ max s request v = v

pub complete-IsValid :
    (s : ProtocolSessions) (c : Completion) → IsCompletion c → IsValid s → IsValid (complete s c).0
unfolding complete
complete-IsValid s (install_begun path) h v = record {
  install = complete_begin-IsTransfer s.install path h v.install;
  temp_run = v.temp_run;
  resource = v.resource;
}
complete-IsValid s (install_chunk_written bytes) h v = record {
  install = complete_chunk-IsTransfer s.install bytes v.install;
  temp_run = v.temp_run;
  resource = v.resource;
}
complete-IsValid s install_committed h v = record {
  install = cleared-IsTransfer;
  temp_run = v.temp_run;
  resource = v.resource;
}
complete-IsValid s (temp_run_begun path) h v = record {
  install = v.install;
  temp_run = complete_begin-IsTransfer s.temp_run path h v.temp_run;
  resource = v.resource;
}
complete-IsValid s (temp_run_chunk_written bytes) h v = record {
  install = v.install;
  temp_run = complete_chunk-IsTransfer s.temp_run bytes v.temp_run;
  resource = v.resource;
}
complete-IsValid s temp_run_committed h v = record {
  install = v.install;
  temp_run = cleared-IsTransfer;
  resource = v.resource;
}
complete-IsValid s (resource_begun path) h v = record {
  install = v.install;
  temp_run = v.temp_run;
  resource = record {
    transfer = complete_begin-IsTransfer s.resource.transfer path h v.resource.transfer;
    resource_path = v.resource.resource_path;
  };
}
complete-IsValid s (resource_chunk_written bytes) h v = record {
  install = v.install;
  temp_run = v.temp_run;
  resource = record {
    transfer = complete_chunk-IsTransfer s.resource.transfer bytes v.resource.transfer;
    resource_path = v.resource.resource_path;
  };
}
complete-IsValid s resource_committed h v = record {
  install = v.install;
  temp_run = v.temp_run;
  resource = cleared_resource-IsResource;
}
