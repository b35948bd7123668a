-- ===== src/Elf/Accepted.antt =====
-- bootloader/uefi/elf.c: what an image that `elf_plan_load` accepts guarantees.
use sypas.Base.{
  ℕ, zero, suc, ◌+◌, ◌*◌, ◌%◌, ◌^◌, ◌≤◌, ◌<◌, ◌≡◌, ◌≢◌, refl, arith, true, ◌⊎◌, List, [], ◌∷◌,
  length, none, ok, Memory, IsBytes, add_ok, sub64, All, sym, subst, u16_at-lt, u32_at-lt,
  u64_at-lt,
}
use sypas.Elf.Format.{Ehdr, ehdr_at, Phdr, phdr_at, phdrs_at, Segment, LoadPlan, max_kernel_span}
use sypas.Elf.Plan.{check_header, table_fits, plan_entries, check_entry, no_plan, finish, plan_load}
use sypas.Elf.Segments.{
  IsPhdr, IsLoadable, Disjoint, Plans, Within, Passes, segments_of, plan_entries-Plans,
}

phdr_at-IsPhdr : (file : Memory) (a : ℕ) → IsBytes file → IsPhdr (phdr_at file a)
unfolding phdr_at
phdr_at-IsPhdr file a bytes = record {
  type_fits = u32_at-lt file a bytes;
  flags_fits = u32_at-lt file (a + 4) bytes;
  offset_fits = omega (arith, u64_at-lt file (a + 8) bytes);
  vaddr_fits = omega (arith, u64_at-lt file (a + 16) bytes);
  paddr_fits = omega (arith, u64_at-lt file (a + 24) bytes);
  filesz_fits = omega (arith, u64_at-lt file (a + 32) bytes);
  memsz_fits = omega (arith, u64_at-lt file (a + 40) bytes);
  align_fits = omega (arith, u64_at-lt file (a + 48) bytes);
}

phdrs_at-IsPhdr : (file : Memory) (a n : ℕ) → IsBytes file → All IsPhdr (phdrs_at file a n)
unfolding phdrs_at
phdrs_at-IsPhdr file a zero bytes = tt
phdrs_at-IsPhdr file a (suc n) bytes =
    (phdr_at-IsPhdr file a bytes, phdrs_at-IsPhdr file (a + 56) n bytes)

-- The entry point lies in the file-backed bytes of an executable segment.
abbrev pub HoldsEntry : ℕ → List Segment → Type 0
HoldsEntry entry [] = ⊥
HoldsEntry entry (s ∷ ss) =
    ((s.flags % 2 ≡ 1) × (s.paddr ≤ entry) × (entry < s.paddr + s.filesz)) ⊎ HoldsEntry entry ss

check_entry-none :
    (fsize entry : ℕ) (ss : List Segment)
    → All (IsLoadable fsize) ss
    → check_entry entry ss ≡ none
    → HoldsEntry entry ss
unfolding check_entry add_ok
check_entry-none fsize entry [] loads h = cc
check_entry-none fsize entry (s ∷ ss) (load, loads) h =
    ground (arith, load.ends, load.sizes, load.in_memory, check_entry-none fsize entry ss loads)

-- The header that an accepted image has.
pub record IsHeader (fsize : ℕ) (eh : Ehdr) : Type 0 where
  pub magic : eh.e_magic ≡ 0x464C457F
  pub class : eh.e_class ≡ 2
  pub little_endian : eh.e_data ≡ 1
  pub ident_version : eh.e_iversion ≡ 1
  pub version : eh.e_version ≡ 1
  pub machine : eh.e_machine ≡ 62
  pub executable : eh.e_type ≡ 2
  pub header_size : eh.e_ehsize ≡ 64
  pub entry_size : eh.e_phentsize ≡ 56
  pub entries : 0 < eh.e_phnum
  pub table_in_file : eh.e_phoff + eh.e_phnum * 56 ≤ fsize

-- The plan of an accepted image, over the table of its entries.
pub record Accepted (fsize : ℕ) (eh : Ehdr) (table : List Phdr) (plan : LoadPlan) : Type 0 where
  pub file_size : 64 ≤ fsize
  pub header : IsHeader fsize eh
  pub passes : All Passes table
  pub segments : plan.segs ≡ segments_of table
  pub some_segment : 0 < length plan.segs
  pub few : length plan.segs ≤ 16
  pub loadable : All (IsLoadable fsize) plan.segs
  pub disjoint : Disjoint plan.segs
  pub within : All (Within plan) plan.segs
  pub span : plan.phys_end ≤ plan.phys_base + max_kernel_span
  pub entry_at : plan.entry ≡ eh.e_entry
  pub entry_in : HoldsEntry plan.entry plan.segs

pub check_header-none :
    (eh : Ehdr) (fsize : ℕ)
    → eh.e_phnum < 2 ^ 16
    → eh.e_phoff < 2 ^ 64
    → check_header eh ≡ none
    → table_fits eh fsize ≡ true
    → IsHeader fsize eh
unfolding check_header table_fits add_ok
check_header-none eh fsize num off h k = ground arith

base-lt-end :
    (fsize : ℕ) (plan : LoadPlan)
    → All (IsLoadable fsize) plan.segs
    → All (Within plan) plan.segs
    → length plan.segs ≢ 0
    → plan.phys_base < plan.phys_end
base-lt-end fsize plan loads withins some_seg = go plan.segs loads withins some_seg
  where
    go :
        (ss : List Segment)
        → All (IsLoadable fsize) ss
        → All (Within plan) ss
        → length ss ≢ 0
        → plan.phys_base < plan.phys_end
    go [] l w n = absurd (n refl)
    go (s ∷ ss) (l, ls) (w, ws) n = omega arith

plan_load-ok :
    (file : Memory) (fsize : ℕ) {plan : LoadPlan}
    → plan_load file fsize ≡ ok plan
    → (64 ≤ fsize)
      × (check_header (ehdr_at file) ≡ none)
      × (table_fits (ehdr_at file) fsize ≡ true)
      × ((mid : LoadPlan) × (plan_entries fsize no_plan
              (phdrs_at file (ehdr_at file).e_phoff (ehdr_at file).e_phnum)
            ≡ ok mid)
          × (finish (ehdr_at file).e_entry mid ≡ ok plan))
unfolding plan_load
plan_load-ok file fsize h = ground arith

finish-ok :
    (entry : ℕ) (mid : LoadPlan) {plan : LoadPlan}
    → finish entry mid ≡ ok plan
    → (length mid.segs ≢ 0)
      × (sub64 mid.phys_end mid.phys_base ≤ max_kernel_span)
      × (check_entry entry mid.segs ≡ none)
      × (plan ≡ record mid { entry = entry })
unfolding finish
finish-ok entry mid h = ground arith

module _ (file : Memory) (fsize : ℕ) (bytes : IsBytes file) where
  abbrev pub eh : Ehdr
  eh = ehdr_at file

  pub eh_fits : (eh.e_phnum < 2 ^ 16) × (eh.e_phoff < 2 ^ 64)
  unfolding ehdr_at
  eh_fits = (u16_at-lt file 56 bytes, u64_at-lt file 32 bytes)

  -- Whatever the bytes of the file, an image that `elf_plan_load` accepts has the header of an
  -- x86-64 executable, its table lies in the file, and the plan has one segment for each PT_LOAD
  -- entry with some bytes, in order: at least one and at most 16, each with its bytes in the file and
  -- its pages in the address space, not writable and executable at once, no two with a page in common,
  -- all between `phys_base` and `phys_end`, which are at most 256 MiB apart. The entry point is the
  -- header's, and lies in the file-backed bytes of an executable segment.
  pub plan_load-Accepted :
      {plan : LoadPlan}
      → plan_load file fsize ≡ ok plan
      → Accepted fsize
          (ehdr_at file)
          (phdrs_at file (ehdr_at file).e_phoff (ehdr_at file).e_phnum)
          plan
  plan_load-Accepted {plan} h =
      let (size, head, fits, (mid, entries, done)) = plan_load-ok file fsize h in
      let (some_seg, span, found, e) = finish-ok eh.e_entry mid done in
      let (i, segs, passes) =
        plan_entries-Plans fsize no_plan (phdrs_at file eh.e_phoff eh.e_phnum)
          (phdrs_at-IsPhdr file eh.e_phoff eh.e_phnum bytes) start entries in
      let order = base-lt-end fsize mid i.loadable i.within some_seg in
      subst (Accepted fsize eh (phdrs_at file eh.e_phoff eh.e_phnum)) (sym e) (record {
        file_size = size;
        header = check_header-none eh fsize eh_fits.0 eh_fits.1 head fits;
        passes = passes;
        segments = segs;
        some_segment = omega arith;
        few = i.few;
        loadable = i.loadable;
        disjoint = i.disjoint;
        within = i.within;
        span = omega (arith, order, i.end_fits, span);
        entry_at = refl;
        entry_in = check_entry-none fsize eh.e_entry mid.segs i.loadable found;
      })
    where
      start : Plans fsize no_plan
      start = record {
        loadable = tt;
        disjoint = tt;
        few = omega arith;
        within = tt;
        end_fits = omega arith;
      }
