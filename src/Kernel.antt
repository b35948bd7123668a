-- ===== src/Kernel.antt =====
-- The kernel's entry and its boot-time parts: kernel/main.c and what it sets up.
pub mod Boot
pub mod Print
pub mod Cpu
pub mod Gdt
pub mod Digits
pub mod Reads
pub mod Printed
pub mod Kinds
pub mod Formats
pub mod Panic
pub mod Serial
pub mod Sent
pub mod System
pub mod Wire
pub mod Prints
pub mod Messages
pub mod Main
pub mod Outcome
pub mod Starts
pub mod Memory
pub mod Proceeds
pub mod Ending
pub mod Runs
pub mod Idle
pub mod Faults
mod Tests
mod RunTests
