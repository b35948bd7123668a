-- ===== src/Kernel/Messages.antt =====
-- kernel/main.c: what `kmain` prints, as the calls of `kprintf`, and the messages of the panics of
-- kernel/main.c and kernel/mm/pmm.c.
use Prim.Native.String.{String}
use sypas.Base.{
  ℕ, ◌*◌, ◌/◌, Bool, ◌==◌, if◌then◌else◌, List, [], ◌∷◌, ◌++◌, some, codes, until_nul,
  bytes_of_words, add64,
}
use sypas.BootProto.{MemmapEntry}
use sypas.BootProto.MemType
use sypas.BootProto.Info.{BootInfo, boot_version_major, bootinfo_v1_0_size}
use sypas.Pmm.State.{Pmm}
use sypas.Pmm.Free.{
  Panic, no_usable_memory, no_room_for_bitmap, unaligned, out_of_range, double_free,
}
use sypas.Pmm.Init.{PmmStats, get_stats}
use sypas.Pmm.Selftest.{Failure, exhausted, duplicate, mismatch, leak, panicked, endless, st_pages}
use sypas.Kernel.Print.{Argument, word, text}
use sypas.Kernel.Boot.{BootPanic, null_bootinfo, bad_magic, unsupported_major, short_bootinfo}
use sypas.Kernel.Cpu.{CpuInfo}
use sypas.Kernel.Panic.{Call, line}

abbrev pub said : List ℕ → Argument
said cs = text (some cs)

-- A literal of the source.
abbrev literal : String → Argument
literal s = said (codes s)

abbrev flag : Bool → Argument
flag b = word (if b then 1 else 0)

abbrev pub memtype_name : ℕ → List ℕ
memtype_name t =
    if t == MemType.usable
    then codes "usable"
    else if t == MemType.reserved
    then codes "reserved"
    else if t == MemType.acpi_reclaim
    then codes "acpi-reclaim"
    else if t == MemType.acpi_nvs
    then codes "acpi-nvs"
    else if t == MemType.mmio
    then codes "mmio"
    else if t == MemType.loader
    then codes "loader"
    else if t == MemType.kernel
    then codes "kernel"
    else if t == MemType.firmware
    then codes "firmware"
    else codes "?"

abbrev pub greeting : List ℕ → Bool → List Call
greeting version serial_ok =
    line "\nSYPAS KERNEL %s\n" (said version ∷ [])
    ∷ line "============\n\nBooting SYPAS...\n\n" []
    ∷ (if serial_ok then line "[uart] COM1 115200 8N1, loopback self-test passed\n" [] ∷ [] else [])

abbrev pub boot_message : BootPanic → Call
boot_message null_bootinfo = line "boot: NULL bootinfo" []
boot_message (bad_magic magic) = line "boot: bad magic %lx" (word magic ∷ [])
boot_message (unsupported_major major) =
    line "boot: unsupported protocol major %u (kernel speaks %u)"
      (word major ∷ word boot_version_major ∷ [])
boot_message (short_bootinfo size) =
    line "boot: short bootinfo (%u bytes, need %u)" (word size ∷ word bootinfo_v1_0_size ∷ [])

-- `at` is the address of the structure.
abbrev pub boot_lines : ℕ → BootInfo → List Call
boot_lines at bi =
    line "[boot] SYPAS boot protocol v%u.%u, bootinfo at %p\n"
      (word bi.version_major ∷ word bi.version_minor ∷ word at ∷ [])
    ∷ line "[boot] kernel image: base=%lx size=%lu KiB, stack=%lx\n"
        (word bi.kernel_phys_base ∷ word (bi.kernel_size / 1024) ∷ word bi.stack_base ∷ [])
    ∷ (elim (until_nul bi.cmdline) [
      | [] ↦ []
      | c ∷ cs ↦ line "[boot] cmdline: %s\n" (said (c ∷ cs) ∷ []) ∷ []
    ])

abbrev string_of_words : List ℕ → List ℕ
string_of_words ws = until_nul (bytes_of_words ws)

abbrev brand_name : List ℕ → Argument
brand_name ws = said (elim (string_of_words ws) [ [] ↦ codes "unknown brand" | c ∷ cs ↦ c ∷ cs ])

abbrev pub cpu_lines : CpuInfo → List Call
cpu_lines cpu =
    line "[cpu ] %s (%s) family %u model %u stepping %u\n" (
      brand_name cpu.brand
      ∷ said (string_of_words cpu.vendor)
      ∷ word cpu.family
      ∷ word cpu.model
      ∷ word cpu.stepping
      ∷ [])
    ∷ line "[cpu ] features: tsc=%d apic=%d sse2=%d nx=%d 1g-pages=%d\n" (
        flag cpu.has_tsc
        ∷ flag cpu.has_apic
        ∷ flag cpu.has_sse2
        ∷ flag cpu.has_nx
        ∷ flag cpu.has_1gb_pages
        ∷ [])
    ∷ []

-- The loop over the map: the lines, and the sum of the usable lengths.
unfoldable pub map_lines : List MemmapEntry → List Call
map_lines [] = []
map_lines (e ∷ es) =
    line "[mem ]   %016lx +%12lx %s\n"
      (word e.base ∷ word e.length ∷ said (memtype_name e.type) ∷ [])
    ∷ map_lines es

unfoldable pub usable_sum : ℕ → List MemmapEntry → ℕ
usable_sum usable [] = usable
usable_sum usable (e ∷ es) =
    usable_sum (if e.type == MemType.usable then add64 usable e.length else usable) es

abbrev pub memory_lines : BootInfo → List MemmapEntry → List Call
memory_lines bi map =
    line "[mem ] boot memory map: %lu entries\n" (word bi.memmap_count ∷ [])
    ∷ (map_lines map
        ++ (line "[mem ] usable RAM: %lu MiB\n" (word (usable_sum 0 map / (1024 * 1024)) ∷ [])
            ∷ []))

abbrev pub stats_line : PmmStats → Call
stats_line st =
    line
      "[pmm ] bitmap allocator: %lu usable candidates, %lu allocator pages, %lu free, bitmap %lu KiB\n"
      (word st.usable_pages
        ∷ word st.allocator_pages
        ∷ word st.free_pages
        ∷ word (st.bitmap_bytes / 1024)
        ∷ [])

abbrev pub pmm_message : Panic → Call
pmm_message no_usable_memory = line "pmm: no usable memory in boot memory map" []
pmm_message (no_room_for_bitmap kib) =
    line "pmm: no region large enough for %lu KiB bitmap" (word kib ∷ [])
pmm_message (unaligned a) = line "pmm: free of unaligned address %lx" (word a ∷ [])
pmm_message (out_of_range a) = line "pmm: free of out-of-range address %lx" (word a ∷ [])
pmm_message (double_free a) = line "pmm: double free of page %lx" (word a ∷ [])

abbrev pub failure_lines : Failure → List Call
failure_lines (exhausted n) = line "[pmm ] selftest: exhausted at %d pages\n" (word n ∷ []) ∷ []
failure_lines (duplicate a) = line "[pmm ] selftest: duplicate page %lx\n" (word a ∷ []) ∷ []
failure_lines (mismatch a) = line "[pmm ] selftest: pattern mismatch at %lx\n" (word a ∷ []) ∷ []
failure_lines (leak before after) =
    line "[pmm ] selftest: leak: %lu -> %lu pages\n" (word before ∷ word after ∷ []) ∷ []
failure_lines (panicked p) = []
failure_lines endless = []

-- The cycles are measured by the processor.
abbrev pub selftest_line : ℕ → ℕ → Call
selftest_line alloc free =
    line
      "[pmm ] selftest: %u alloc+free OK, ~%lu cycles/alloc, ~%lu cycles/free (TSC, VM-measured)\n"
      (word st_pages ∷ word (alloc / st_pages) ∷ word (free / st_pages) ∷ [])

abbrev pub framebuffer_line : Bool → BootInfo → Call
framebuffer_line fb_ok bi =
    if fb_ok
    then line "[fb  ] %ux%u, pitch %u, %s, console on framebuffer + serial\n" (
        word bi.fb_width
        ∷ word bi.fb_height
        ∷ word bi.fb_pitch
        ∷ literal (if bi.fb_format == 1 then "xrgb8888" else "xbgr8888")
        ∷ [])
    else line "[fb  ] no usable linear framebuffer, serial console only\n" []

abbrev pub acpi_line : BootInfo → Call
acpi_line bi =
    line "[acpi] RSDP %s at %lx\n"
      (literal (if bi.acpi_rsdp == 0 then "NOT found" else "found") ∷ word bi.acpi_rsdp ∷ [])

abbrev pub timer_line : ℕ → Call
timer_line delta = line "[pit ] 100 Hz timer alive: %lu IRQs in 250 ms window\n" (word delta ∷ [])

abbrev pub banner : CpuInfo → ℕ → Bool → ℕ → List Call
banner cpu usable fb_ok ms =
    line "\nSYPAS\n=====\n\n" []
    ∷ line "Bootloader: OK   (SYPAS UEFI loader, boot protocol v1)\n" []
    ∷ line "CPU:        OK   (%s)\n" (said (string_of_words cpu.vendor) ∷ [])
    ∷ line "Memory:     OK   (%lu MiB usable, pmm self-test passed)\n"
        (word (usable / (1024 * 1024)) ∷ [])
    ∷ line "Interrupts: OK   (exceptions armed, PIT verified)\n" []
    ∷ line "Framebuffer:%s\n"
        (literal (if fb_ok then " OK  (GOP linear framebuffer)" else " ABSENT (serial only)") ∷ [])
    ∷ line "\nSYPAS kernel initialized in %lu ms (kernel-side, PIT-timed).\n" (word ms ∷ [])
    ∷ line "\nSYSTEM STATUS: RUNNING\n" []
    ∷ []

abbrev pub uptime_line : ℕ → Pmm → Call
uptime_line now p =
    line "[idle] uptime %lu s, free pages %lu\n"
      (word (now / 100) ∷ word (get_stats p).free_pages ∷ [])
