-- ===== src/Loader.antt =====
-- bootloader/uefi/main.c, the UEFI loader, over a firmware that is a parameter. `Calls` has the calls
-- of the firmware and the way a fatal error ends; the other modules have the steps of `efi_main` and
-- what is proved of them.
pub mod Calls
pub mod Load
pub mod Loaded
pub mod Discover
pub mod Buffers
pub mod Rsdp
pub mod Exit
pub mod Main
pub mod Quiet
pub mod Room
pub mod Trace
pub mod Left
pub mod Grows
pub mod Handoff
pub mod Memory
pub mod Sample
mod Tests
