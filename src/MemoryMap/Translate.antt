-- ===== src/MemoryMap/Translate.antt =====
-- bootloader/uefi/memory_map.c: `sypas_translate_memory_map`.
use sypas.Base.{
  ℕ, ◌+◌, ◌*◌, ◌/◌, ◌%◌, Bool, not, ltb, leb, ◌==◌, ◌&&◌, ◌||◌, if◌then◌else◌, List, [], ◌∷◌,
  length, Option, none, some, Result, ok, err, add_ok, mul_ok, sub64,
}
use sypas.BootProto.{MemmapEntry}
use sypas.BootProto.MemType
use mathlib.Core.List.{reverse}
use sypas.Elf.Format.{Segment, LoadPlan}
use sypas.MemoryMap.Sort.{sort_descriptors}
use sypas.MemoryMap.Types.{
  Descriptor, MapError, efi_to_sypas_memtype, descriptor_size, descriptor_alignment, zero_length,
  address_alignment, address_overflow, range_overlap, kernel_not_tagged,
}
use sypas.MemoryMap.Append.{append}
use sypas.MemoryMap.Split.{Output, split}

-- The bytes of all segments, each of which must be a page-aligned range that is not empty.
unfoldable pub expected_bytes : ℕ → List Segment → Result MapError ℕ
expected_bytes sum [] = ok sum
expected_bytes sum (s ∷ segs) =
    if not (s.page_base % 4096 == 0) || not (s.page_end % 4096 == 0) || leb s.page_end s.page_base
    then err address_overflow
    else elim (add_ok sum (sub64 s.page_end s.page_base)) [
      | none ↦ err address_overflow
      | some bytes ↦ expected_bytes bytes segs
    ]

-- The end of a descriptor's range, once the range has been checked.
unfoldable pub range_end : ℕ → ℕ → ℕ → ℕ → Descriptor → Result MapError ℕ
range_end address size offset previous_end d =
    if not ((address + offset) % 8 == 0)
    then err descriptor_alignment
    else if d.number_of_pages == 0
    then err zero_length
    else if not (d.physical_start % 4096 == 0)
    then err address_alignment
    else elim (mul_ok d.number_of_pages 4096) [
      | none ↦ err address_overflow
      | some len ↦ elim (add_ok d.physical_start len) [
        | none ↦ err address_overflow
        | some end ↦
            if not (offset == 0) && ltb d.physical_start previous_end
            then err (
                range_overlap (record {
                  descriptor_index = offset / size;
                  base = d.physical_start;
                  end = end;
                  previous_end = previous_end;
                }))
            else ok end
      ]
    ]

-- The range of a descriptor, from its start to `end`, put into the output.
unfoldable pub place_range : ℕ → ℕ → List Segment → Descriptor → ℕ → Output → Result MapError Output
place_range fuel cap segs d end o =
    let type = efi_to_sypas_memtype d.type in
    let whole : Result MapError (Output × ℕ) = split fuel cap segs type d.physical_start end o in
    elim (if type == MemType.loader then whole else ok (o, d.physical_start)) [
      | err e ↦ err e
      | ok (o', cursor) ↦ elim (append cap o'.out cursor end type) [
        | err e ↦ err e
        | ok out ↦ ok (record o' { out = out })
      ]
    ]

-- The loop over the descriptors, each `size` bytes behind the one before.
unfoldable pub translate_from :
    ℕ → ℕ → List Segment → ℕ → ℕ → ℕ → ℕ → List Descriptor → Output → Result MapError Output
translate_from fuel cap segs address size offset previous_end [] o = ok o
translate_from fuel cap segs address size offset previous_end (d ∷ ds) o =
    elim (range_end address size offset previous_end d) [
      | err e ↦ err e
      | ok end ↦ elim (place_range fuel cap segs d end o) [
        | err e ↦ err e
        | ok o' ↦ translate_from fuel cap segs address size (offset + size) end ds o'
      ]
    ]

-- What the function is called with. An address 0 is a null pointer. The buffer holds whole
-- descriptors of `descriptor_size` bytes, and `trailing` bytes behind them, fewer than that.
pub record MapInput : Type 0 where
  pub efi_map : ℕ
  pub descriptors : List Descriptor
  pub trailing : ℕ
  pub descriptor_size : ℕ
  pub kernel : Option LoadPlan
  pub out : ℕ
  pub out_capacity : ℕ
  pub out_count : ℕ

abbrev pub map_size : MapInput → ℕ
map_size i = length i.descriptors * i.descriptor_size + i.trailing

-- The guards at the start, less that for a null plan.
unfoldable pub bad_call : MapInput → Bool
bad_call i =
    i.efi_map == 0
    || i.out == 0
    || i.out_count == 0
    || ltb i.descriptor_size 40
    || ltb 4096 i.descriptor_size
    || not (i.descriptor_size % 8 == 0)
    || not (map_size i % i.descriptor_size == 0)

unfoldable pub translate_sorted :
    ℕ → MapInput → List Segment → List Descriptor → Result MapError (List MemmapEntry)
translate_sorted fuel i segs ds = elim (expected_bytes 0 segs) [
  | err e ↦ err e
  | ok expected ↦
      elim (translate_from fuel i.out_capacity segs i.efi_map i.descriptor_size 0 0 ds
        (record { out = []; tagged = 0 })) [
          | err e ↦ err e
          | ok o ↦ if o.tagged == expected then ok (reverse o.out) else err kernel_not_tagged
        ]
]

-- The entries are `out[0..*out_count)`; they are written for the caller only at SYPAS_MAP_OK.
unfoldable pub translate : ℕ → MapInput → Result MapError (List MemmapEntry)
translate fuel i = elim (i.kernel) [
  | none ↦ err descriptor_size
  | some plan ↦
      if bad_call i
      then err descriptor_size
      else translate_sorted fuel i plan.segs (sort_descriptors i.descriptors)
]
