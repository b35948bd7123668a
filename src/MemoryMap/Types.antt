-- ===== src/MemoryMap/Types.antt =====
-- bootloader/uefi/memory_map.h and efi.h: the descriptors of the firmware, the status codes and the
-- classification of memory types.
use sypas.Base.{ℕ, ◌==◌, ◌||◌, if◌then◌else◌, List}
use sypas.BootProto.MemType

-- `EFI_MEMORY_DESCRIPTOR`; `extension` is what a stride of more than 40 bytes puts behind it.
pub record Descriptor : Type 0 where
  pub type : ℕ
  pub pad : ℕ
  pub physical_start : ℕ
  pub virtual_start : ℕ
  pub number_of_pages : ℕ
  pub attribute : ℕ
  pub extension : List ℕ

-- `sypas_map_diagnostic_t`
pub record Diagnostic : Type 0 where
  pub descriptor_index : ℕ
  pub base : ℕ
  pub end : ℕ
  pub previous_end : ℕ

-- `sypas_map_status_t` but SYPAS_MAP_OK. `out_of_fuel` is no status: it says that the search for
-- segments had more rounds than the fuel. The diagnostic, which is all zero otherwise, goes with the
-- one status that sets it.
pub data MapError : Type 0 where
  descriptor_size descriptor_alignment zero_length address_alignment address_overflow : MapError
  output_full output_overflow kernel_not_tagged out_of_fuel : MapError
  range_overlap : (diagnostic : Diagnostic) → MapError

-- `efi_to_sypas_memtype`, by the numbers of `EFI_MEMORY_TYPE`.
unfoldable pub efi_to_sypas_memtype : ℕ → ℕ
efi_to_sypas_memtype type =
    if type == 7
    then MemType.usable
    else if type == 1 || type == 2
    then MemType.loader
    else if type == 3 || type == 4 || type == 5 || type == 6
    then MemType.firmware
    else if type == 9
    then MemType.acpi_reclaim
    else if type == 10
    then MemType.acpi_nvs
    else if type == 11 || type == 12
    then MemType.mmio
    else MemType.reserved
