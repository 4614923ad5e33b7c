-- ===== src/Protocol/Session/Reach.antt =====
-- compiler/rust/crates/squid-device-protocol/src/lib.rs: the states that `ProtocolSessions` reaches
-- from requests and completions in any order.
use squid_script.Base.{ℕ}
use squid_script.Protocol.Frame.{DeviceRequest}
use squid_script.Protocol.Session.{ProtocolSessions, no_sessions, next_action, complete, Completion}
use squid_script.Protocol.Session.Valid.{
  IsValid, IsCompletion, cleared-IsTransfer, cleared_resource-IsResource, next_action-IsValid,
  complete-IsValid,
}

-- A request or a completion, whether it succeeds or fails.
pub data Step (max : ℕ) : ProtocolSessions → ProtocolSessions → Type 0 where
  asked :
      (s : ProtocolSessions) (request : DeviceRequest) → Step max s (next_action max s request).0
  reported : (s : ProtocolSessions) (c : Completion) → IsCompletion c → Step max s (complete s c).0

pub data Reach (max : ℕ) : ProtocolSessions → Type 0 where
  start : Reach max no_sessions
  after : {s t : ProtocolSessions} → Reach max s → Step max s t → Reach max t

-- From no sessions, whatever requests and completions come, a session's strings are strings and no
-- session has received more than its upload announced.
pub Reach-IsValid : (max : ℕ) {s : ProtocolSessions} → Reach max s → IsValid s
unfolding next_action
Reach-IsValid max start = record {
  install = cleared-IsTransfer;
  temp_run = cleared-IsTransfer;
  resource = cleared_resource-IsResource;
}
Reach-IsValid max (after r (asked s request)) =
    next_action-IsValid request.opcode max s request (Reach-IsValid max r)
Reach-IsValid max (after r (reported s c h)) = complete-IsValid s c h (Reach-IsValid max r)
