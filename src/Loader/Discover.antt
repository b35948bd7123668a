-- ===== src/Loader/Discover.antt =====
-- bootloader/uefi/main.c: `guid_eq`, `find_acpi_rsdp` and `fill_framebuffer`.
use sypas.Base.{
  ℕ, ◌+◌, ◌*◌, ◌%◌, ◌^◌, Bool, true, false, ◌==◌, ◌&&◌, ◌||◌, if◌then◌else◌, List, [], ◌∷◌, Memory,
}
use sypas.BootProto.Info.{BootInfo}
use sypas.Acpi.Rsdp.{RsdpStatus, rsdp_ok, validate_rsdp}
use sypas.Loader.Calls.{Firmware, locate_protocol, M, ◌>>=◌, pure, call, value_of, efi_error}

-- `EFI_GUID`, as the two 64-bit words that `guid_eq` reads of its 16 bytes.
pub record Guid : Type 0 where
  pub low : ℕ
  pub high : ℕ

unfoldable pub guid_eq : Guid → Guid → Bool
guid_eq a b = a.low == b.low && a.high == b.high

abbrev pub acpi_20 : Guid
acpi_20 = record { low = 0x8868e871 + 0xe4f1 * 2 ^ 32 + 0x11d3 * 2 ^ 48; high = 0x81883cc7800022bc }

abbrev pub acpi_10 : Guid
acpi_10 = record { low = 0xeb9d2d30 + 0x2d88 * 2 ^ 32 + 0x11d3 * 2 ^ 48; high = 0x4dc13f279000169a }

-- `EFI_CONFIGURATION_TABLE`
pub record ConfigTable : Type 0 where
  pub vendor_guid : Guid
  pub vendor_table : ℕ

abbrev pub is_ok : RsdpStatus → Bool
is_ok rsdp_ok = true
is_ok status = false

-- Whether a table has the GUID and validates.
unfoldable pub offers : Memory → Guid → ConfigTable → Bool
offers m guid ct = guid_eq ct.vendor_guid guid && is_ok (validate_rsdp m ct.vendor_table)

-- The loop over the tables; `v1` is the last table of ACPI 1.0 that validated.
unfoldable pub find_from : Memory → List ConfigTable → ℕ → ℕ
find_from m [] v1 = v1
find_from m (ct ∷ cts) v1 =
    let next = if offers m acpi_10 ct then ct.vendor_table else v1 in
    elim (offers m acpi_20 ct) [ true ↦ ct.vendor_table | false ↦ find_from m cts next ]

unfoldable pub find_acpi_rsdp : Memory → List ConfigTable → ℕ
find_acpi_rsdp m tables = find_from m tables 0

-- The mode of the graphics output: the fields of `EFI_GRAPHICS_OUTPUT_PROTOCOL_MODE` and of its `Info`
-- that the loader reads.
pub record GraphicsMode : Type 0 where
  pub pixel_format : ℕ
  pub horizontal_resolution : ℕ
  pub vertical_resolution : ℕ
  pub pixels_per_scan_line : ℕ
  pub frame_buffer_base : ℕ

-- A format but 0 (RGB) and 1 (BGR) leaves the other fields alone.
unfoldable pub set_mode : GraphicsMode → BootInfo → BootInfo
set_mode mi bi =
    if mi.pixel_format == 1 || mi.pixel_format == 0
    then record bi {
      fb_format = if mi.pixel_format == 1 then 1 else 2;
      fb_base = mi.frame_buffer_base;
      fb_width = mi.horizontal_resolution;
      fb_height = mi.vertical_resolution;
      fb_pitch = (mi.pixels_per_scan_line * 4) % 2 ^ 32;
    }
    else record bi { fb_format = 0 }

unfoldable pub fill_framebuffer : Firmware → GraphicsMode → BootInfo → M BootInfo
fill_framebuffer fw mi bi = do
  st ← call fw locate_protocol
  gop ← value_of fw
  pure (if efi_error st || gop == 0 then record bi { fb_format = 0 } else set_mode mi bi)
