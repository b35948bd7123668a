-- ===== src/Acpi/Tests.antt =====
-- bootloader/uefi/acpi.c: runs, and the theorem at a root pointer of ACPI 2.0.
use sypas.Base.{◌≡◌, refl, ◌↔◌, Memory, u16_at, u32_at, ◌==◌, if◌then◌else◌}
use sypas.Acpi.Rsdp.{
  rsdp_ok, rsdp_null, extended_checksum, equal_from, equal_signature, sum_from, checksum_ok,
  validate_rsdp,
}
use sypas.Acpi.Sample.{tables}
use sypas.Acpi.Validates.{IsRsdp, validate_rsdp-IsRsdp}

program : Unit {0}
unfolding equal_from equal_signature sum_from checksum_ok validate_rsdp u16_at u32_at
program = tt

validate_rsdp-tables : validate_rsdp tables 0xe0000 ≡ rsdp_ok
unfolding program
validate_rsdp-tables = refl

validate_rsdp_null : validate_rsdp tables 0 ≡ rsdp_null
unfolding program
validate_rsdp_null = refl

-- A changed byte behind the first 20 is found by the extended sum alone.
abbrev damaged : Memory
damaged i = if i == 0xe0018 then 1 else tables i

validate_rsdp-damaged : validate_rsdp damaged 0xe0000 ≡ extended_checksum
unfolding program
validate_rsdp-damaged = refl

validate_rsdp-IsRsdp_example : (validate_rsdp tables 0xe0000 ≡ rsdp_ok) ↔ IsRsdp tables 0xe0000
validate_rsdp-IsRsdp_example = validate_rsdp-IsRsdp tables 0xe0000
