-- ===== src/Lib.antt =====
-- SquidScript: the bytecode VM that a firmware and a simulator embed, from the file of a program to
-- the dispatch of its events, and the protocol by which a host installs programs on a device.
--
-- The program has a compiler (compiler/rust/crates/squidc-core, squidc-cli), a bytecode VM
-- (squidvm-core) and the protocol between a host's tools and a device (squid-device-protocol). The
-- host builds a request, encodes it as a frame with TLV fields, and sends it; the device decodes the
-- frame without copying, searches its payload, and lets `ProtocolSessions` decide on an action; the
-- firmware carries it out, reports its completion, and answers with a response that the host reads
-- back. An installed file is parsed into a `Program` or, where memory is short, into a `ProgramIndex`
-- by a reader. `ChunkedVm` runs the handler of an event over the index: it loads the code of a frame
-- when it needs it, at once or by a storage request that suspends the frame, and its strings,
-- records and lists live in pools of fixed size.
--
-- compiler/rust/crates/squid-device-protocol/src/lib.rs:
--   Protocol/Wire, Codes    FrameKind, Opcode, Status, DecodeError, the limits
--   Protocol/Fields         encoded_fields_len, encode_fields_into, decode_fields and what they call.
--                           Layout: their meaning without buffers. Encode, RoundTrip, Total: proofs.
--   Protocol/Frame          Frame, encode_frame(_into), decode_frame(_from_stream),
--                           DeviceRequest::decode. Encode, Decode, Stream: proofs.
--   Protocol/Requests       the request builders. Budget: the chunk size of a frame budget. Delivery: from
--                           the host's request to the device's session.
--   Protocol/Lookup         RawFields, string_field, bytes_field, u64_field. Agree, Total: proofs.
--   Protocol/Crc            crc32_update
--   Protocol/Session        TransferSession, ResourceSession, ProtocolSessions. A method on `&mut self`
--                           returns the new state beside its result. Transfer, Upload: what a session
--                           stands for. Valid, Reach: the invariant and the step relation. Safe: panics.
--   Protocol/Responses      the device's encoders of responses. Writes, Entries, Frames: proofs.
--   Protocol/Replies        the host's readers of responses. Delivery: from device to host.
-- compiler/rust/crates/squidvm-limits/src/lib.rs:
--   Vm/Limits               the limits; those of one part stand beside it
-- compiler/rust/crates/squidvm-core/src/chunk.rs:
--   Vm/Cache                ChunkCache. Swap, Holders, Evict, Insert, Running: proofs.
-- compiler/rust/crates/squidvm-core/src/value.rs, error.rs, bytecode.rs:
--   Vm/Values               Value, VmError, read_value, read_u16 and its fellows. Reads: lemmas.
-- compiler/rust/crates/squidvm-core/src/state.rs and compiler/rust/crates/squidc-core/src/sqbc.rs:
--   Vm/State                parse_state and the compiler's encode_state_section. Section, Typed: proofs.
--   Vm/Record               encode_state_record, apply_state_record
-- compiler/rust/crates/squidvm-core/src/program.rs, model.rs, reader.rs:
--   Vm/Sqbc                 the header and the sections of a file
--   Vm/Tables               the tables of strings, functions, handlers, timers and screens. Entries: proofs.
--   Vm/Names                the checks of string ids and of unique names. Unique: proofs.
--   Vm/Program              Program::parse and its lookups. WellFormed, Find: proofs. Tests: a file.
--   Vm/ProgramIndex         ProgramIndex, from a program or a reader. Readers: the readers of one
--                           entry. Pool: proofs on its strings.
-- compiler/rust/crates/squidvm-core/src/strings.rs:
--   Vm/Strings              StringInterner. Acyclic, Interns: slices refer to earlier strings. Tests: runs.
-- compiler/rust/crates/squidvm-core/src/vm.rs, host.rs:
--   Vm/FieldNames, Heap     RuntimeFieldName, RuntimeRecords, RuntimeLists
--   Vm/Services             the calls on the host's services, and the records that answer them
--   Vm/Machine              ChunkedVm, its frames, storage requests, and the host
--   Vm/Exec                 the stack, the frames, chunk loading. Triples: the machine's invariant and
--                           what an operation keeps of it. Safe: what each operation keeps.
--   Vm/Instructions         an arm of execute_resume_frames each, and call_builtin_resumable. Safe: proofs.
--                           Overflow: sums of i32.
--   Vm/Builtins             call_builtin. Operands: how a builtin takes its operands and calls the host.
--                           Records: the records it builds of an answer, under the names of Names. Display,
--                           App, Wifi, Content: the builtins of a kind each. Safe, and a child Safe of
--                           these: proofs.
--   Vm/Dispatch             the loop, dispatch_resumable_with_payload, resume_storage,
--                           resume_immediate_storage. Budget: the loop. Event: an event. Tests: runs.
--   Vm/Views                state_value, set_state_value and the other views of the state
--   Vm/Memory               Vm::new and its host
-- Base holds the shared names, lists over the native numbers, the result type and UTF-8.
--
-- Conventions: a byte is a number below 256 by the types of the source, a string the list of its
-- UTF-8 bytes, an i64 its 64-bit pattern, an i32 its 32-bit pattern, compared after a shift of 2^31.
-- `usize::MAX` is a parameter, `max`; a sum that the source does not check wraps, as in a build
-- without overflow checks, and `checked_add` fails beyond it. This holds of `+` and `-` on i32 as well,
-- where docs/language_spec.md asks for an error. A panic is a result of its own; a slice past the end of
-- a list and a write past the end of an array panic. An array with a count is the list of the entries
-- that count; the arrays of locals and of state keep their full length. `crc32fast::hash` is another
-- package and a parameter, `hash`, of which is used that it returns 32 bits. The host of the VM, a trait,
-- is a record `Host` of calls on a state, its services among them, of which is used that they return, and
-- that the name of an access point lies within its array, as `WifiAccessPoint::new` makes it.
-- Vm/Instructions takes `call_builtin` as a parameter, `builtin`; Vm/Dispatch puts Vm/Builtins' in.
--
-- Fuel: `decode_fields_from` and `find_field_from` consume the four bytes of a field's header in
-- each round at least, so the payload's length is enough. `ref_str_from` follows slices, which refer
-- to earlier strings, so two more than the number of strings is enough. Each round of
-- `execute_resume_frames` counts an instruction or drops a frame, so `loop_fuel`, two for each
-- instruction of an event, which may push a frame, and one for each frame, is enough. Out of fuel is
-- a result of its own.
--
-- Not modelled: the loop of `ChunkedVm::dispatch` around storage requests that the host carries out at
-- once; initialisation in place; the host's answers themselves, TraceSink's defaults and the Wi-Fi
-- backend of the simulator; the contents of a buffer after the error of an encoder or of a read; the
-- responses for resources, state, lifecycle and errors; the command line's field parser; the compiler
-- but for its state section; the C interface, the firmware and the simulator.

pub mod Base
pub mod Protocol
pub mod Vm
