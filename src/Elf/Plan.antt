-- ===== src/Elf/Plan.antt =====
-- bootloader/uefi/elf.c: `elf_plan_load`.
use sypas.Base.{
  ℕ, ◌-◌, ◌*◌, ◌%◌, ◌^◌, Bool, true, false, not, ltb, leb, ◌==◌, if◌then◌else◌, ◌&&◌, ◌||◌, List,
  [], ◌∷◌, ◌++◌, length, Option, none, some, Result, ok, err, ◌>>=◌, Memory, add_ok, sub64,
  align_down, u64_max, bit_and,
}
use sypas.Elf.Format.{
  Ehdr, ehdr_at, Phdr, phdrs_at, Segment, LoadPlan, max_segments, max_kernel_span, ElfStatus,
  truncated, bad_magic, bad_class, bad_endian, bad_version, bad_machine, bad_type, bad_ehsize,
  bad_phentsize, phdr_bounds, seg_bounds, seg_sizes, seg_align, seg_vaddr, seg_flags, seg_overflow,
  seg_overlap, too_many_segs, no_segments, too_big, bad_entry,
}

unfoldable pub power_of_two : ℕ → Bool
power_of_two n = not (n == 0) && (bit_and n (n - 1) == 0)

-- The tests of the ELF header, in order.
unfoldable pub check_header : Ehdr → Option ElfStatus
check_header eh =
    if not (eh.e_magic == 0x464C457F)
    then some bad_magic
    else if not (eh.e_class == 2)
    then some bad_class
    else if not (eh.e_data == 1)
    then some bad_endian
    else if not (eh.e_iversion == 1) || not (eh.e_version == 1)
    then some bad_version
    else if not (eh.e_machine == 62)
    then some bad_machine
    else if not (eh.e_type == 2)
    then some bad_type
    else if not (eh.e_ehsize == 64)
    then some bad_ehsize
    else if not (eh.e_phentsize == 56)
    then some bad_phentsize
    else if eh.e_phnum == 0
    then some no_segments
    else none

-- Where the program header table ends, if it lies in the file.
unfoldable pub table_fits : Ehdr → ℕ → Bool
table_fits eh fsize = elim (add_ok eh.e_phoff ((eh.e_phnum * 56) % 2 ^ 64)) [
  | none ↦ false
  | some pht_end ↦ not (ltb fsize pht_end)
]

-- The policy that every PT_LOAD entry meets, also one of no bytes. `x & ~7` is `x` less its low
-- three bits, and PF_W | PF_X is 3.
unfoldable pub check_policy : Phdr → Option ElfStatus
check_policy ph =
    if ltb ph.p_memsz ph.p_filesz
    then some seg_sizes
    else if ltb 1 ph.p_align
        && (not (power_of_two ph.p_align)
            || not (bit_and (sub64 ph.p_vaddr ph.p_offset) (ph.p_align - 1) == 0))
    then some seg_align
    else if not (ph.p_vaddr == ph.p_paddr)
    then some seg_vaddr
    else if not (ph.p_flags - ph.p_flags % 8 == 0) || (ph.p_flags % 4 == 3)
    then some seg_flags
    else none

-- The segment of an entry, once its file range and its memory range have been checked.
unfoldable pub make_segment : ℕ → Phdr → Result ElfStatus Segment
make_segment fsize ph = elim (add_ok ph.p_offset ph.p_filesz) [
  | none ↦ err seg_overflow
  | some file_end ↦ elim (ltb fsize file_end) [
    | true ↦ err seg_bounds
    | false ↦ elim (add_ok ph.p_paddr ph.p_memsz) [
      | none ↦ err seg_overflow
      | some mem_end ↦ elim (add_ok mem_end 4095) [
        | none ↦ err seg_overflow
        | some page_end ↦ ok (record {
          paddr = ph.p_paddr;
          page_base = align_down ph.p_paddr;
          page_end = align_down page_end;
          offset = ph.p_offset;
          filesz = ph.p_filesz;
          memsz = ph.p_memsz;
          flags = ph.p_flags;
        })
      ]
    ]
  ]
]

-- Whether two segments share a page.
unfoldable pub overlaps : Segment → Segment → Bool
overlaps seg o = ltb seg.page_base o.page_end && ltb o.page_base seg.page_end

unfoldable pub overlaps_any : Segment → List Segment → Bool
overlaps_any seg [] = false
overlaps_any seg (o ∷ os) = overlaps seg o || overlaps_any seg os

unfoldable pub add_segment : LoadPlan → Segment → LoadPlan
add_segment plan seg = record plan {
  phys_base = if ltb seg.page_base plan.phys_base then seg.page_base else plan.phys_base;
  phys_end = if ltb plan.phys_end seg.page_end then seg.page_end else plan.phys_end;
  segs = plan.segs ++ seg ∷ [];
}

-- One entry of the table: the body of the loop.
unfoldable pub plan_entry : ℕ → LoadPlan → Phdr → Result ElfStatus LoadPlan
plan_entry fsize plan ph = if not (ph.p_type == 1) then ok plan else elim (check_policy ph) [
  | some status ↦ err status
  | none ↦
      if ph.p_memsz == 0
      then ok plan
      else if length plan.segs == max_segments
      then err too_many_segs
      else do
        seg ← make_segment fsize ph
        if overlaps_any seg plan.segs then err seg_overlap else ok (add_segment plan seg)
]

unfoldable pub plan_entries : ℕ → LoadPlan → List Phdr → Result ElfStatus LoadPlan
plan_entries fsize plan [] = ok plan
plan_entries fsize plan (ph ∷ phs) = elim (plan_entry fsize plan ph) [
  | ok plan' ↦ plan_entries fsize plan' phs
  | err e ↦ err e
]

-- The search for the segment that holds the entry point.
unfoldable pub check_entry : ℕ → List Segment → Option ElfStatus
check_entry entry [] = some bad_entry
check_entry entry (s ∷ segs) = elim (add_ok s.paddr s.filesz) [
  | none ↦ some seg_overflow
  | some file_end ↦ elim (not (s.flags % 2 == 0) && leb s.paddr entry && ltb entry file_end) [
    | true ↦ none
    | false ↦ check_entry entry segs
  ]
]

-- The plan as `elf_plan_load` starts it; `entry` is not yet written.
abbrev pub no_plan : LoadPlan
no_plan = record { entry = 0; phys_base = u64_max; phys_end = 0; segs = [] }

-- The tests after the loop.
unfoldable pub finish : ℕ → LoadPlan → Result ElfStatus LoadPlan
finish entry plan =
    if length plan.segs == 0
    then err no_segments
    else if ltb max_kernel_span (sub64 plan.phys_end plan.phys_base)
    then err too_big
    else elim (check_entry entry plan.segs) [
      | some status ↦ err status
      | none ↦ ok (record plan { entry = entry })
    ]

unfoldable pub plan_load : Memory → ℕ → Result ElfStatus LoadPlan
plan_load file fsize =
    let eh = ehdr_at file in
    if ltb fsize 64 then err truncated else elim (check_header eh) [
      | some status ↦ err status
      | none ↦ if not (table_fits eh fsize) then err phdr_bounds else do
        plan ← plan_entries fsize no_plan (phdrs_at file eh.e_phoff eh.e_phnum)
        finish eh.e_entry plan
    ]
