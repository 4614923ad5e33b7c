-- ===== src/Protocol/Session/Safe.antt =====
-- compiler/rust/crates/squid-device-protocol/src/lib.rs: `next_action` and the panics below it.
use squid_script.Protocol.Session.Reach.{Reach}
