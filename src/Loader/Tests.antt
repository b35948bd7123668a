-- ===== src/Loader/Tests.antt =====
-- bootloader/uefi/main.c: the theorems at a run on a small machine.
use sypas.Base.{
  ℕ, ◌+◌, ◌^◌, ◌≡◌, refl, arith, ap, if◌then◌else◌, List, [], ◌∷◌, Memory, ok, IsBytes, All, ◌≤◌,
  inl, inr, none, some, leb, ◌-◌, Bool-cases,
}
use sypas.Elf.Format.{ehdr_at, phdrs_at}
use sypas.Elf.Sample.{image, image_plan, image-IsBytes}
use sypas.MemoryMap.Types.{Descriptor}
use sypas.Loader.Calls.{Call, World}
use sypas.Loader.Load.{load_kernel_elf}
use sypas.Loader.Discover.{find_acpi_rsdp, ConfigTable, acpi_10, acpi_20}
use sypas.Loader.Buffers.{Buffers, size_buffers}
use sypas.Loader.Quiet.{attempts}
use sypas.Loader.Trace.{Legal, efi_main-Legal}
use sypas.Loader.Handoff.{Handoff, efi_main-Handoff}
use sypas.Loader.Memory.{efi_main-usable}
use sypas.MemoryMap.Classified.{Spans}
use mathlib.Core.List.{Mem}
use sypas.Loader.Room.{IsRoomy, size_buffers-IsRoomy}
use sypas.Loader.Rsdp.{Found, find_acpi_rsdp-Found}
use sypas.Loader.Loaded.{Holds, Misses, load_kernel_elf-Holds}
use sypas.Elf.Accepted.{Accepted}
use sypas.Acpi.Sample.{tables}
use sypas.BootProto.MemType
use sypas.Loader.Sample.{
  machine, platform, start, program, jump, finished, run_ends, machine-IsWord,
}

efi_main-Handoff_example : Handoff 2 platform start jump finished
efi_main-Handoff_example = efi_main-Handoff 2 platform start machine-IsWord run_ends

efi_main-Legal_example : Legal machine finished.calls × (attempts finished.calls ≤ 4)
efi_main-Legal_example = efi_main-Legal 2 platform start refl

abbrev nothing : Memory
nothing a = 0

abbrev sizes : Buffers
sizes = record {
  mm_pages = 1;
  map_bytes = 4096;
  sypas_cap = 1138;
  sypas_pages = 7;
  total_pages = 8;
}

size_buffers_run : size_buffers 48 96 ≡ some sizes
unfolding program
size_buffers_run = refl

-- A stride of 0 and a map of almost 2 ^ 64 bytes are refused.
size_buffers_refuses : (size_buffers 0 96 ≡ none) × (size_buffers 48 (2 ^ 64 - 1000) ≡ none)
unfolding program
size_buffers_refuses = (refl, refl)

size_buffers-IsRoomy_example : IsRoomy 48 96 sizes
size_buffers-IsRoomy_example =
    size_buffers-IsRoomy 48 96 (omega arith) (omega arith) size_buffers_run

-- A table of another kind, one of ACPI 1.0 and one of ACPI 2.0.
abbrev config : List ConfigTable
config =
    record { vendor_guid = record { low = 1; high = 2 }; vendor_table = 0xd0000 }
    ∷ record { vendor_guid = acpi_10; vendor_table = 0xe0000 }
    ∷ record { vendor_guid = acpi_20; vendor_table = 0xe0000 }
    ∷ []

find_acpi_rsdp-Found_example : Found tables config 0 (find_acpi_rsdp tables config)
find_acpi_rsdp-Found_example = find_acpi_rsdp-Found tables config

-- The file at 4 MiB.
abbrev read : World
read = record { calls = []; mem = λ a. if leb 0x400000 a then image (a - 0x400000) else 0 }

read-IsBytes : IsBytes read.mem
read-IsBytes a = elim (Bool-cases (leb 0x400000 a)) [
  | inl e ↦ rw e (image-IsBytes (a - 0x400000))
  | inr e ↦ rw e (omega arith)
]

abbrev loaded : World
loaded = (load_kernel_elf machine 0x400000 128 read).1

load_succeeds : (load_kernel_elf machine 0x400000 128 read).0 ≡ ok image_plan
unfolding program
load_succeeds = refl

-- The first byte of the code, and one behind the file's part.
loaded_bytes : (loaded.mem 0x100078 ≡ 0xf4) × (loaded.mem 0x100080 ≡ 0)
unfolding program
loaded_bytes = (refl, refl)

load_kernel_elf-Holds_example :
    Accepted 128
      (ehdr_at (λ i. read.mem (0x400000 + i)))
      (phdrs_at
        (λ i. read.mem (0x400000 + i))
        (ehdr_at (λ i. read.mem (0x400000 + i))).e_phoff
        (ehdr_at (λ i. read.mem (0x400000 + i))).e_phnum)
      image_plan
    × All (Holds read.mem 0x400000 loaded.mem) image_plan.segs
    × ((a : ℕ) → All (Misses a) image_plan.segs → loaded.mem a ≡ read.mem a)
load_kernel_elf-Holds_example =
    load_kernel_elf-Holds machine 0x400000 128 read read-IsBytes
      (ap (λ r. (r, loaded)) load_succeeds) (inr (omega arith), tt)

efi_main-usable_example :
    (last : Call) × ((before : List Call) × ((d : Descriptor) × (finished.calls ≡ last ∷ before)
        × Mem d (machine.memory_map before).descriptors
        × (d.type ≡ 7)
        × Spans d 0x201000))
efi_main-usable_example =
    efi_main-usable 2 platform start
      (record { base = 0x200000; length = 0x400000; type = MemType.usable; reserved = 0 }) 0x201000
      machine-IsWord run_ends (inr (inl refl)) refl (omega arith) (omega arith)
