-- ===== src/Acpi.antt =====
-- bootloader/uefi/acpi.c and acpi.h: the validation of the RSDP, the root of the ACPI tables.
pub mod Rsdp
pub mod Validates
pub mod Sample
mod Tests
