-- ===== src/BootProto/Info.antt =====
-- bootloader/protocols/sypas_bootproto.h: the structure that the loader hands to the kernel.
use sypas.Base.{ℕ, List}

-- `sypas_bootinfo_t`; `cmdline` is its 256 characters.
pub record BootInfo : Type 0 where
  pub magic : ℕ
  pub version_major : ℕ
  pub version_minor : ℕ
  pub size : ℕ
  pub memmap : ℕ
  pub memmap_count : ℕ
  pub fb_base : ℕ
  pub fb_width : ℕ
  pub fb_height : ℕ
  pub fb_pitch : ℕ
  pub fb_format : ℕ
  pub acpi_rsdp : ℕ
  pub efi_system_table : ℕ
  pub kernel_phys_base : ℕ
  pub kernel_size : ℕ
  pub stack_base : ℕ
  pub stack_size : ℕ
  pub cmdline : List ℕ

abbrev pub boot_magic : ℕ
boot_magic = 0x3150425341505953

abbrev pub boot_version_major : ℕ
boot_version_major = 1

abbrev pub boot_version_minor : ℕ
boot_version_minor = 0

abbrev pub bootinfo_v1_0_size : ℕ
bootinfo_v1_0_size = 360
