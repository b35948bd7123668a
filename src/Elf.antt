-- ===== src/Elf.antt =====
-- bootloader/uefi/elf.c and elf.h, the validation of a kernel image. `Format` has the structures,
-- `Plan` the function `elf_plan_load`, the other modules what is proved of it.
pub mod Format
pub mod Plan
pub mod Segments
pub mod Accepted
pub mod ReadsInside
pub mod Sample
mod Tests
