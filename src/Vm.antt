-- ===== src/Vm.antt =====
-- compiler/rust/crates/squidvm-core: the bytecode VM, from the limits and the file of a program to the
-- dispatch of its events.
pub mod Cache
pub mod Values
pub mod State
pub mod Limits
pub mod Sqbc
pub mod Tables
pub mod Names
pub mod Program
pub mod ProgramIndex
pub mod Strings
pub mod Record
pub mod FieldNames
pub mod Heap
pub mod Services
pub mod Machine
pub mod Exec
pub mod Instructions
pub mod Builtins
pub mod Dispatch
pub mod Views
pub mod Memory
