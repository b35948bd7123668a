-- ===== src/Reloc.antt =====
-- bootloader/uefi/reloc.c and reloc.h: the loader relocates itself. `Apply` has the definitions, the
-- other modules what is proved of them.
pub mod Apply
pub mod Inside
pub mod Reads
pub mod Applied
mod Tests
