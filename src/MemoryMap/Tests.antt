-- ===== src/MemoryMap/Tests.antt =====
-- bootloader/uefi/memory_map.c: runs, and the theorems at a small map.
use sypas.Base.{
  Among, All, ◌+◌, ◌<◌, ◌≤◌, ℕ, ◌≡◌, refl, arith, List, [], ◌∷◌, some, ok, err, ◌≢◌, add_ok, mul_ok,
  inl, inr,
}
use mathlib.Core.List.{Mem, Perm}
use sypas.BootProto.{MemmapEntry, IsMap}
use sypas.Elf.Format.{Segment, LoadPlan}
use sypas.MemoryMap.Types.{Descriptor, efi_to_sypas_memtype, out_of_fuel, kernel_not_tagged}
use sypas.MemoryMap.Sort.{shift, insert_at, sort_from, sort_descriptors}
use sypas.MemoryMap.Sorted.{IsSorted, sort_descriptors-IsSorted}
use sypas.MemoryMap.Append.{push, append}
use sypas.MemoryMap.Split.{meets, pick, next_from, next_kernel_segment, Output, split_round, split}
use sypas.MemoryMap.SplitEnds.{Clear, split_ends, split-straddle}
use sypas.MemoryMap.Sound.{translate-IsMap}
use sypas.MemoryMap.Classified.{Source, Spans, translate-Source, translate-usable}
use sypas.MemoryMap.Translate.{
  expected_bytes, range_end, place_range, translate_from, MapInput, bad_call, translate_sorted,
  translate,
}

program : Unit {0}
unfolding efi_to_sypas_memtype shift insert_at sort_from sort_descriptors push append meets pick
    next_from next_kernel_segment split_round split expected_bytes range_end place_range
    translate_from bad_call translate_sorted translate add_ok mul_ok
program = tt

abbrev descriptor : ℕ → ℕ → ℕ → Descriptor
descriptor type start pages = record {
  type = type;
  pad = 0;
  physical_start = start;
  virtual_start = 0;
  number_of_pages = pages;
  attribute = 15;
  extension = [];
}

-- Conventional memory behind the loader's, in the firmware's order.
abbrev firmware_map : List Descriptor
firmware_map = descriptor 7 0x200000 16 ∷ descriptor 2 0x100000 256 ∷ descriptor 7 0x1000 8 ∷ []

abbrev pages : ℕ → ℕ → Segment
pages base end = record {
  paddr = base;
  page_base = base;
  page_end = end;
  offset = 0;
  filesz = 0;
  memsz = 1;
  flags = 4;
}

abbrev kernel_plan : List Segment → LoadPlan
kernel_plan segs = record {
  segs = segs;
  phys_base = 0x100000;
  phys_end = 0x200000;
  entry = 0x100000;
}

abbrev segments : List Segment
segments = pages 0x103000 0x104000 ∷ pages 0x100000 0x102000 ∷ []

abbrev input_of : List Segment → MapInput
input_of segs = record {
  efi_map = 0x5000;
  descriptors = firmware_map;
  trailing = 0;
  descriptor_size = 48;
  kernel = some (kernel_plan segs);
  out = 0x6000;
  out_capacity = 16;
  out_count = 0x7000;
}

abbrev translated : List MemmapEntry
translated =
    record { base = 0x1000; length = 0x8000; type = 1; reserved = 0 }
    ∷ record { base = 0x100000; length = 0x2000; type = 7; reserved = 0 }
    ∷ record { base = 0x102000; length = 0x1000; type = 6; reserved = 0 }
    ∷ record { base = 0x103000; length = 0x1000; type = 7; reserved = 0 }
    ∷ record { base = 0x104000; length = 0xfc000; type = 6; reserved = 0 }
    ∷ record { base = 0x200000; length = 0x10000; type = 1; reserved = 0 }
    ∷ []

translate-input : translate 3 (input_of segments) ≡ ok translated
unfolding program
translate-input = refl

-- A segment outside of the loader's memory.
translate_absent : translate 9 (input_of (pages 0x1000 0x2000 ∷ [])) ≡ err kernel_not_tagged
unfolding program
translate_absent = refl

-- A segment over the end of the loader's range: no fuel is enough.
translate_straddle : translate 9 (input_of (pages 0x1ff000 0x201000 ∷ [])) ≡ err out_of_fuel
unfolding program
translate_straddle = refl

sort_descriptors-IsSorted_example :
    IsSorted (sort_descriptors firmware_map) × Perm (sort_descriptors firmware_map) firmware_map
sort_descriptors-IsSorted_example = sort_descriptors-IsSorted firmware_map

abbrev empty_output : Output
empty_output = record { out = []; tagged = 0 }

segments_Clear : (s : Segment) → Among s segments → Clear 0x200000 s
segments_Clear s (inl e) = rw e (inl (omega arith))
segments_Clear s (inr (inl e)) = rw e (inl (omega arith))
segments_Clear s (inr (inr x)) = elim x [ ]

split_ends_example : split 3 16 segments 6 0x100000 0x200000 empty_output ≢ err out_of_fuel
split_ends_example =
    split_ends 3 16 segments 6 0x100000 0x200000 empty_output segments_Clear (omega arith)

abbrev straddling : Segment
straddling = pages 0x1ff000 0x201000

split-straddle_example :
    split 1000 16 (straddling ∷ []) 6 0x200000 0x200000 empty_output ≡ err out_of_fuel
split-straddle_example =
    split-straddle 1000 16 (straddling ∷ []) 6 0x200000 empty_output straddling (inl refl)
      (record { begins = omega arith; ends = omega arith }) (omega arith)

translate-IsMap_example : IsMap 0 translated
translate-IsMap_example = translate-IsMap 3 (input_of segments) translate-input

translate-Source_example :
    All
      (λ e. (a : ℕ) → e.base ≤ a → a < e.base + e.length → Source firmware_map segments e.type a)
      translated
translate-Source_example =
    translate-Source 3 (input_of segments) (kernel_plan segments) refl translate-input

translate-usable_example : (d : Descriptor) × (Mem d firmware_map × (d.type ≡ 7) × Spans d 0x1fff)
translate-usable_example =
    translate-usable 3 (input_of segments) (kernel_plan segments)
      (record { base = 0x1000; length = 0x8000; type = 1; reserved = 0 }) 0x1fff refl
      translate-input (inl refl) refl (omega arith) (omega arith)
