-- ===== src/BootProto/MemType.antt =====
-- bootloader/protocols/sypas_bootproto.h: `enum sypas_mem_type`, 32-bit codes in the map.
use sypas.Base.{ℕ}

abbrev pub usable : ℕ
usable = 1

abbrev pub reserved : ℕ
reserved = 2

abbrev pub acpi_reclaim : ℕ
acpi_reclaim = 3

abbrev pub acpi_nvs : ℕ
acpi_nvs = 4

abbrev pub mmio : ℕ
mmio = 5

abbrev pub loader : ℕ
loader = 6

abbrev pub kernel : ℕ
kernel = 7

abbrev pub firmware : ℕ
firmware = 8
