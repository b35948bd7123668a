-- ===== src/Lib.antt =====
-- SYPAS: the UEFI loader and the kernel, as a verification library.
--
-- The loader (bootloader/uefi) reads a kernel image, validates it and plans its segments
-- (bootloader/uefi/elf.c), and hands the kernel a memory map in the format of
-- bootloader/protocols/sypas_bootproto.h. The kernel (kernel/main.c) checks what it is given, sets its
-- page allocator up from that map (kernel/mm/pmm.c), then its console, interrupts and timer, and
-- comes to an idle loop or halts with a panic.
--
-- * Base holds the shared names: Boolean tests, lists under native indices, 64-bit words with their
--   wrap-around and the checked `add_ok` and `mul_ok`, bits of a byte, little-endian fields, memory
--   as a function from addresses to bytes, results with `do`.
-- * BootProto is bootloader/protocols/sypas_bootproto.h: the entries of the memory map, the
--   predicate `IsMap` that both sides rely on, and in Info the bootinfo structure.
-- * Pmm is kernel/mm/pmm.c. Bitmap has bit_set, bit_clear and bit_test; State the static variables
--   with the memory that holds the bitmap; Alloc pmm_alloc_page; Free pmm_free_page; Marks the loops
--   of pmm_init over the bitmap; Init pmm_init and pmm_get_stats. A panic is an error value. The
--   search of pmm_alloc_page has one round of fuel for each page and one more, which is enough since
--   each round adds at least one to `scanned`. The memory map is a list beside the memory, since the
--   loader keeps it in memory that the allocator never frees. History has the clients of the
--   allocator, as a list of calls and the addresses that they hold. Selftest is pmm_selftest, whose
--   pages and bitmap are of the same memory; the allocator that a failure leaves is not kept.
-- * Elf is bootloader/uefi/elf.c and elf.h. Format has the structures and reads them from the bytes
--   of the file, little end first; Plan is elf_plan_load; a status but ELF_OK is an error value.
--   The plan is a value only where the status is ELF_OK, as elf.h says.
-- * MemoryMap is bootloader/uefi/memory_map.c and memory_map.h. Types has the structures; Sort
--   sort_descriptors, where a copy of descriptor_size bytes is that of a whole item; Append append;
--   Split next_kernel_segment and the loop that splits a loader range, each round a step; Translate
--   sypas_translate_memory_map. The loop has fuel: one round for each segment that meets the range
--   and one more is enough, where no segment straddles the end of the range.
-- * Reloc is bootloader/uefi/reloc.c and reloc.h: sypas_reloc on the memory that holds the loader's
--   image, which the loop over the relocations changes while it reads them. A signed addend is the
--   64-bit word that holds it.
-- * Acpi is bootloader/uefi/acpi.c and acpi.h: sypas_acpi_validate_rsdp, on the memory that the
--   pointer leads to.
-- * Interrupts is kernel/arch/x86_64/pic.c, idt.c and pit.c over kernel/include/io.h. Pic has the accesses
--   to ports as a log and the hardware as a parameter, which answers a read from the log so far;
--   Idt has the gates, irq_install and isr_dispatch, with a panic as an error value. The stubs of
--   isr.S are a parameter, and a handler is a number in the log. Timer is pit.c, where a wait is a
--   list of how many timer interrupts come between two tests.
-- * Console is kernel/graphics/fbcon.c. Draw has the loops that write pixels, Cursor the static
--   variables, fbcon_init, fbcon_set_colors and fbcon_putc. The framebuffer is a function from the
--   index of a pixel, counted from fb_base, and the font is a parameter.
--
-- * Loader is bootloader/uefi/main.c with what it uses of efi.h. The firmware is a parameter: the
--   answer to a call is a function of the calls so far. Calls has them, and die and die_ascii, whose
--   endless Stall is one call and the end of the run; Load read_kernel_file and load_kernel_elf;
--   Discover find_acpi_rsdp and fill_framebuffer; Buffers the loop that sizes and allocates the
--   buffers for the memory map, 4 rounds; Exit the loop that ends in ExitBootServices, 4 rounds; Main
--   efi_main, up to the jump. The texts of outputs are left out. The bootinfo structure and the two
--   maps are values beside the memory: the loader alone writes them, in pages that the firmware has
--   allocated for it. The firmware puts the descriptors into the buffer, whole ones of the size that
--   it answers, with fewer bytes behind them. The translation's fuel is that of MemoryMap; a run out
--   of fuel is `endless`.
-- * Kernel is the rest of the kernel. Boot is the checks of kmain in kernel/main.c on the bootinfo
--   structure; Cpu cpu_identify of kernel/arch/x86_64/cpu.c, over the answers of CPUID; Gdt the
--   descriptors of gdt.c, without the instructions that load them; Serial
--   kernel/arch/x86_64/serial.c, over the log of port accesses. Print is kernel/debug/kprintf.c: a
--   number of so many bits is a word, the arguments are a list, and what C leaves open is an error
--   value. The loop of kvprintf has one round of fuel for each character and one more, which is
--   enough since each round takes one. A width beyond an int is such an error too. Kinds has the
--   kinds of arguments that a format asks for. System is the kernel's state, with the serial port and the
--   framebuffer console as sinks; Panic is kernel/debug/panic.c, as calls of kprintf; Messages are
--   the calls of kernel/main.c and pmm.c; Wire has what goes over the serial port; Main is kmain,
--   a part of it in each function, and Halt the ways in which it ends before its idle loop. The
--   memory map and the pixels are values beside the memory. Interrupts come in the waits of the
--   timer and of the idle loop: each wait is given as how many timer interrupts it takes, and the count goes up
--   where the handler that is dispatched is the timer's. The wait that tests the timer has no limit,
--   as in pit.c, where docs/kernel.md has a panic if no interrupts come. Ending
--   says what kmain relies on and how it may end. The panics of pmm.c and the prints of
--   pmm_selftest stand where kmain calls them. Faults has the exceptions, with the names of idt.c.
-- * Boots has the two together: kmain on what efi_main hands over. The kernel's entry in assembly,
--   which stands between the jump and kmain, is left out.
-- * A module Sample holds an input of tests that other modules use too.
--
-- Not modelled: assembly, the tools, and the fault injection of kernel/main.c, which is compiled for
-- a test alone. The cycles that rdtsc measures are parameters.
pub mod Base
pub mod BootProto
pub mod Pmm
pub mod Elf
pub mod MemoryMap
pub mod Reloc
pub mod Acpi
pub mod Interrupts
pub mod Console
pub mod Loader
pub mod Kernel
pub mod Boots
