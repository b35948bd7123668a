-- ===== src/Loader/Main.antt =====
-- bootloader/uefi/main.c: `efi_main`.
use sypas.Base.{
  ℕ, zero, suc, ◌+◌, ◌*◌, ◌%◌, ◌^◌, true, not, ◌==◌, ◌||◌, List, [], ◌∷◌, length, ok, Memory, sub64,
}
use sypas.BootProto.{MemmapEntry}
use sypas.BootProto.Info.{
  BootInfo, boot_magic, boot_version_major, boot_version_minor, bootinfo_v1_0_size,
}
use sypas.Elf.Format.{LoadPlan}
use sypas.Loader.Calls.{
  Firmware, output_string, set_watchdog_timer, free_pool, allocate_pages, get_memory_map,
  bootinfo_alloc, stack_alloc, size_query, M, ◌>>=◌, ◌>>◌, pure, call, value_of, map_of, efi_error,
  efi_buffer_too_small, die_if,
}
use sypas.Loader.Load.{read_kernel_file, load_kernel_elf}
use sypas.Loader.Discover.{ConfigTable, find_acpi_rsdp, GraphicsMode, fill_framebuffer}
use sypas.Loader.Buffers.{MapBuffer, grow_from}
use sypas.Loader.Exit.{exit_from, output_of}

-- The firmware, and what its tables in memory say.
pub record Platform : Type 0 where
  pub firmware : Firmware
  pub system_table : ℕ
  pub tables : List ConfigTable
  pub graphics : GraphicsMode

-- The jump to the kernel: where to, the stack pointer, and the structure that the first argument
-- points to, with the memory map that its `memmap` points to.
pub record Jump : Type 0 where
  pub entry : ℕ
  pub stack_top : ℕ
  pub bootinfo : BootInfo
  pub entries : List MemmapEntry

abbrev pub zeros : ℕ → List ℕ
zeros zero = []
zeros (suc n) = 0 ∷ zeros n

-- What is known before the framebuffer and the memory map; the rest is cleared.
unfoldable pub new_bootinfo : Platform → LoadPlan → ℕ → Memory → BootInfo
new_bootinfo p plan stack_base m = record {
  magic = boot_magic;
  version_major = boot_version_major;
  version_minor = boot_version_minor;
  size = bootinfo_v1_0_size;
  memmap = 0;
  memmap_count = 0;
  fb_base = 0;
  fb_width = 0;
  fb_height = 0;
  fb_pitch = 0;
  fb_format = 0;
  acpi_rsdp = find_acpi_rsdp m p.tables;
  efi_system_table = p.system_table;
  kernel_phys_base = plan.phys_base;
  kernel_size = sub64 plan.phys_end plan.phys_base;
  stack_base = stack_base;
  stack_size = 16 * 4096;
  cmdline = zeros 256;
}

abbrev pub memory_of : M Memory
memory_of w = (ok w.mem, w)

-- The second part of `efi_main`: the allocations, and the structure but for the memory map.
unfoldable pub fill_bootinfo : Platform → LoadPlan → M BootInfo
fill_bootinfo p plan = do
  st ← call p.firmware (allocate_pages 0 1 0)
  die_if (efi_error st) bootinfo_alloc st
  st ← call p.firmware (allocate_pages 0 16 0)
  die_if (efi_error st) stack_alloc st
  stack_base ← value_of p.firmware
  m ← memory_of
  fill_framebuffer p.firmware p.graphics (new_bootinfo p plan stack_base m)

-- The third part: the size of the map, and the buffers.
unfoldable pub map_buffers : Firmware → M MapBuffer
map_buffers fw = do
  st ← call fw (get_memory_map 0)
  answer ← map_of fw
  die_if (not (st == efi_buffer_too_small) || answer.descriptor_size == 0) size_query st
  grow_from 4 fw answer.descriptor_size answer.size

-- The fourth and the fifth.
unfoldable pub hand_over : ℕ → Firmware → LoadPlan → BootInfo → MapBuffer → M Jump
hand_over fuel fw plan bi b = do
  entries ← exit_from 4 fuel fw plan b true
  pure (record {
    entry = plan.entry;
    stack_top = (bi.stack_base + bi.stack_size) % 2 ^ 64;
    bootinfo = record bi { memmap = output_of b; memmap_count = length entries };
    entries = entries;
  })

-- The first part: the kernel is read and loaded.
unfoldable pub load_kernel : Firmware → M LoadPlan
load_kernel fw = do
  _ ← call fw output_string
  _ ← call fw set_watchdog_timer
  (file, fsize) ← read_kernel_file fw
  _ ← call fw output_string
  plan ← load_kernel_elf fw file fsize
  _ ← call fw (free_pool file)
  pure plan

unfoldable pub efi_main : ℕ → Platform → M Jump
efi_main fuel p = do
  plan ← load_kernel p.firmware
  bi ← fill_bootinfo p plan
  b ← map_buffers p.firmware
  _ ← call p.firmware output_string
  hand_over fuel p.firmware plan bi b
