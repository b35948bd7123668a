-- ===== src/Boots.antt =====
-- bootloader/uefi/main.c and kernel/main.c: the loader, and the kernel that it jumps to.
pub mod Handed
mod Tests
