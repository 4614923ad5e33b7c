-- ===== src/Protocol.antt =====
-- compiler/rust/crates/squid-device-protocol/src/lib.rs: the protocol between host and device. Wire and
-- Codes: the header's codes. Fields and Frame: payloads and frames. Requests and Replies: the host's
-- side. Lookup, Session and Responses: the device's. Crc: the checksum of an upload.
pub mod Wire
pub mod Codes
pub mod Fields
pub mod Frame
pub mod Crc
pub mod Lookup
pub mod Session
pub mod Requests
pub mod Responses
pub mod Replies
mod Tests
