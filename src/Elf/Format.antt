-- ===== src/Elf/Format.antt =====
-- bootloader/uefi/elf.h: the structures on disk, the load plan and the status codes.
use sypas.Base.{ℕ, zero, suc, ◌+◌, ◌*◌, List, [], ◌∷◌, Memory, u8_at, u16_at, u32_at, u64_at}

-- `Elf64_Ehdr`, without its padding.
pub record Ehdr : Type 0 where
  pub e_magic : ℕ
  pub e_class : ℕ
  pub e_data : ℕ
  pub e_iversion : ℕ
  pub e_osabi : ℕ
  pub e_abiversion : ℕ
  pub e_type : ℕ
  pub e_machine : ℕ
  pub e_version : ℕ
  pub e_entry : ℕ
  pub e_phoff : ℕ
  pub e_shoff : ℕ
  pub e_flags : ℕ
  pub e_ehsize : ℕ
  pub e_phentsize : ℕ
  pub e_phnum : ℕ
  pub e_shentsize : ℕ
  pub e_shnum : ℕ
  pub e_shstrndx : ℕ

abbrev pub ehdr_size : ℕ
ehdr_size = 64

unfoldable pub ehdr_at : Memory → Ehdr
ehdr_at file = record {
  e_magic = u32_at file 0;
  e_class = u8_at file 4;
  e_data = u8_at file 5;
  e_iversion = u8_at file 6;
  e_osabi = u8_at file 7;
  e_abiversion = u8_at file 8;
  e_type = u16_at file 16;
  e_machine = u16_at file 18;
  e_version = u32_at file 20;
  e_entry = u64_at file 24;
  e_phoff = u64_at file 32;
  e_shoff = u64_at file 40;
  e_flags = u32_at file 48;
  e_ehsize = u16_at file 52;
  e_phentsize = u16_at file 54;
  e_phnum = u16_at file 56;
  e_shentsize = u16_at file 58;
  e_shnum = u16_at file 60;
  e_shstrndx = u16_at file 62;
}

-- `Elf64_Phdr`
pub record Phdr : Type 0 where
  pub p_type : ℕ
  pub p_flags : ℕ
  pub p_offset : ℕ
  pub p_vaddr : ℕ
  pub p_paddr : ℕ
  pub p_filesz : ℕ
  pub p_memsz : ℕ
  pub p_align : ℕ

abbrev pub phdr_size : ℕ
phdr_size = 56

unfoldable pub phdr_at : Memory → ℕ → Phdr
phdr_at file a = record {
  p_type = u32_at file a;
  p_flags = u32_at file (a + 4);
  p_offset = u64_at file (a + 8);
  p_vaddr = u64_at file (a + 16);
  p_paddr = u64_at file (a + 24);
  p_filesz = u64_at file (a + 32);
  p_memsz = u64_at file (a + 40);
  p_align = u64_at file (a + 48);
}

-- The table `ph[0..n)` at an offset of the file.
unfoldable pub phdrs_at : Memory → ℕ → ℕ → List Phdr
phdrs_at file a zero = []
phdrs_at file a (suc n) = phdr_at file a ∷ phdrs_at file (a + 56) n

-- `elf_segment_t`
pub record Segment : Type 0 where
  pub paddr : ℕ
  pub page_base : ℕ
  pub page_end : ℕ
  pub offset : ℕ
  pub filesz : ℕ
  pub memsz : ℕ
  pub flags : ℕ

-- `elf_load_plan_t`: `nsegs` is the length of the list.
pub record LoadPlan : Type 0 where
  pub entry : ℕ
  pub phys_base : ℕ
  pub phys_end : ℕ
  pub segs : List Segment

abbrev pub max_segments : ℕ
max_segments = 16

abbrev pub max_kernel_span : ℕ
max_kernel_span = 256 * 1024 * 1024

-- `elf_status_t` but ELF_OK, which is the `ok` of a result.
pub data ElfStatus : Type 0 where
  truncated bad_magic bad_class bad_endian bad_version bad_machine bad_type bad_ehsize : ElfStatus
  bad_phentsize phdr_bounds seg_bounds seg_sizes seg_align seg_vaddr seg_flags : ElfStatus
  seg_overflow seg_overlap too_many_segs no_segments too_big bad_entry : ElfStatus
