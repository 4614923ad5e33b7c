-- ===== src/Vm/Limits.antt =====
-- compiler/rust/crates/squidvm-limits/src/lib.rs: the limits that the compiler and the VM share.
use squid_script.Base.{ℕ}

abbrev pub max_strings : ℕ
max_strings = 128

abbrev pub max_functions : ℕ
max_functions = 16

abbrev pub max_handlers : ℕ
max_handlers = 16

abbrev pub max_triggers : ℕ
max_triggers = 16

abbrev pub max_device_bindings : ℕ
max_device_bindings = 8

abbrev pub max_screens : ℕ
max_screens = 16

abbrev pub max_locals : ℕ
max_locals = 16

abbrev pub max_stack : ℕ
max_stack = 16

abbrev pub max_call_depth : ℕ
max_call_depth = 4

abbrev pub max_instructions_per_event : ℕ
max_instructions_per_event = 1000

abbrev pub max_app_file_bytes : ℕ
max_app_file_bytes = 8192

abbrev pub max_program_string_bytes : ℕ
max_program_string_bytes = 1536

abbrev pub max_code_chunk_bytes : ℕ
max_code_chunk_bytes = 640
