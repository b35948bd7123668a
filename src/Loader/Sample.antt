-- ===== src/Loader/Sample.antt =====
-- bootloader/uefi/main.c: a small machine, and a run of the loader on it, where the firmware refuses
-- the first attempt to leave the boot services.
use sypas.Base.{
  ℕ, ◌+◌, ◌^◌, ◌≡◌, refl, arith, ap, ◌==◌, if◌then◌else◌, List, [], ◌∷◌, ok, u16_at, u32_at, u64_at,
  add_ok, mul_ok, take,
}
use sypas.Elf.Format.{ehdr_at, phdr_at, phdrs_at}
use sypas.Elf.Plan.{
  power_of_two, check_header, table_fits, check_policy, make_segment, overlaps, overlaps_any,
  add_segment, plan_entry, plan_entries, check_entry, finish, plan_load,
}
use sypas.MemoryMap.Types.{efi_to_sypas_memtype}
use sypas.MemoryMap.Sort.{shift, insert_at, sort_from, sort_descriptors}
use sypas.MemoryMap.Append.{push, append}
use sypas.MemoryMap.Split.{meets, pick, next_from, next_kernel_segment, split_round, split}
use sypas.MemoryMap.Translate.{
  expected_bytes, range_end, place_range, translate_from, bad_call, translate_sorted, translate,
}
use sypas.Elf.Sample.{image}
use sypas.MemoryMap.Types.{Descriptor}
use sypas.Loader.Calls.{
  Call, exit_boot_services, get_memory_map, get_info, read_file, allocate_pool, allocate_pages,
  locate_protocol, Firmware, World, die, die_ascii,
}
use sypas.Loader.Load.{
  lmemcpy, lmemset, receive, read_kernel_file, place_segment, load_segment, load_segments,
  load_kernel_elf,
}
use sypas.Loader.Discover.{fill_framebuffer, set_mode, find_acpi_rsdp, find_from, offers, guid_eq}
use sypas.Loader.Buffers.{
  grow_from, try_buffers, size_buffers, size_map, size_output, pages_for_size,
}
use sypas.Loader.Exit.{exit_from, exit_round, refuse_if, reject, leave}
use sypas.Loader.Main.{
  load_kernel, fill_bootinfo, new_bootinfo, map_buffers, hand_over, Platform, Jump, efi_main, zeros,
}
use sypas.Loader.Quiet.{attempts}
use sypas.Loader.Room.{IsWord}
use sypas.BootProto.{MemmapEntry}
use sypas.BootProto.MemType

abbrev pub descriptor : (type start pages : ℕ) → Descriptor
descriptor type start pages = record {
  type = type;
  pad = 0;
  physical_start = start;
  virtual_start = 0;
  number_of_pages = pages;
  attribute = 15;
  extension = 0 ∷ [];
}

abbrev pub machine_map : List Descriptor
machine_map = descriptor 7 0x200000 1024 ∷ descriptor 2 0x100000 1 ∷ []

abbrev pub status_of : List Call → ℕ
status_of (get_memory_map size ∷ cs) = if size == 0 then 2 ^ 63 + 5 else 0
status_of (exit_boot_services key ∷ cs) = if key == 0 then 2 ^ 63 + 2 else 0
status_of cs = 0

abbrev pub number_of : List Call → ℕ
number_of (get_info ∷ cs) = 128
number_of (read_file ∷ cs) = 128
number_of (allocate_pool n ∷ cs) = 0x400000
number_of (allocate_pages kind n address ∷ cs) =
    if n == 1 then 0x500000 else if n == 16 then 0x510000 else 0x600000
number_of (locate_protocol ∷ cs) = 0x700000
number_of cs = 0

abbrev pub machine : Firmware
machine = record {
  status = status_of;
  value = number_of;
  memory_map = λ cs. record {
    descriptors = machine_map;
    trailing = 0;
    size = 96;
    map_key = attempts cs;
    descriptor_size = 48;
  };
  contents = image;
}

abbrev pub platform : Platform
platform = record {
  firmware = machine;
  system_table = 0x80000;
  tables = [];
  graphics = record {
    pixel_format = 1;
    horizontal_resolution = 1024;
    vertical_resolution = 768;
    pixels_per_scan_line = 1024;
    frame_buffer_base = 0x80000000;
  };
}

abbrev pub start : World
start = record { calls = []; mem = λ a. 0 }

unfoldable pub program : Unit {0}
unfolding lmemcpy lmemset receive read_kernel_file place_segment load_segment load_segments
    load_kernel_elf die die_ascii load_kernel fill_bootinfo fill_framebuffer set_mode new_bootinfo
    find_acpi_rsdp find_from offers guid_eq map_buffers grow_from try_buffers size_buffers size_map
    size_output pages_for_size add_ok mul_ok hand_over exit_from exit_round refuse_if reject leave
    efi_main ehdr_at phdr_at phdrs_at u16_at u32_at u64_at power_of_two check_header table_fits
    check_policy make_segment overlaps overlaps_any add_segment plan_entry plan_entries check_entry
    finish plan_load efi_to_sypas_memtype shift insert_at sort_from sort_descriptors push append
    meets pick next_from next_kernel_segment split_round split expected_bytes range_end place_range
    translate_from bad_call translate_sorted translate
program = tt

abbrev pub last_calls : List Call
last_calls =
    exit_boot_services 1 ∷ get_memory_map 4096 ∷ exit_boot_services 0 ∷ get_memory_map 4096 ∷ []

abbrev pub entries : List MemmapEntry
entries =
    record { base = 0x100000; length = 0x1000; type = MemType.kernel; reserved = 0 }
    ∷ record { base = 0x200000; length = 0x400000; type = MemType.usable; reserved = 0 }
    ∷ []

abbrev pub jump : Jump
jump = record {
  entry = 0x100078;
  stack_top = 0x520000;
  bootinfo = record {
    magic = 0x3150425341505953;
    version_major = 1;
    version_minor = 0;
    size = 360;
    memmap = 0x601000;
    memmap_count = 2;
    fb_base = 0x80000000;
    fb_width = 1024;
    fb_height = 768;
    fb_pitch = 4096;
    fb_format = 1;
    acpi_rsdp = 0;
    efi_system_table = 0x80000;
    kernel_phys_base = 0x100000;
    kernel_size = 0x1000;
    stack_base = 0x510000;
    stack_size = 0x10000;
    cmdline = zeros 256;
  };
  entries = entries;
}

run_jumps : (efi_main 2 platform start).0 ≡ ok jump
unfolding program
run_jumps = refl

abbrev pub finished : World
finished = (efi_main 2 platform start).1

pub run_ends : efi_main 2 platform start ≡ (ok jump, finished)
run_ends = ap (λ r. (r, finished)) run_jumps

-- The first attempt fails, the second has the key of a second map.
run_calls : take 4 finished.calls ≡ last_calls
unfolding program
run_calls = refl

pub machine-IsWord : IsWord machine
machine-IsWord = record { sizes = λ cs. omega arith; strides = λ cs. omega arith }
