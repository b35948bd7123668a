-- ===== src/Elf/Sample.antt =====
-- A small kernel image for the tests, in the format that bootloader/uefi/elf.c reads.
use sypas.Base.{
  ℕ, zero, suc, ◌/◌, ◌%◌, List, [], ◌∷◌, ◌++◌, get_or, Memory, IsBytes, ◌<◌, arith, All,
}
use sypas.Elf.Format.{LoadPlan}

-- A field of `k` bytes, little end first.
abbrev pub le : ℕ → ℕ → List ℕ
le zero n = []
le (suc k) n = (n % 256) ∷ le k (n / 256)

-- One PT_LOAD entry: 8 bytes of the file and 8 of BSS, readable and executable.
abbrev pub image_of : (flags entry : ℕ) → List ℕ
image_of flags entry =
    le 4 0x464C457F
    ++ (2 ∷ 1 ∷ 1 ∷ 0 ∷ 0 ∷ le 7 0)
    ++ (le 2 2 ++ le 2 62 ++ le 4 1 ++ le 8 entry ++ le 8 64 ++ le 8 0 ++ le 4 0)
    ++ (le 2 64 ++ le 2 56 ++ le 2 1 ++ le 2 0 ++ le 2 0 ++ le 2 0)
    ++ (le 4 1
        ++ le 4 flags
        ++ le 8 120
        ++ le 8 0x100078
        ++ le 8 0x100078
        ++ le 8 8
        ++ le 8 16
        ++ le 8 4096)
    ++ le 8 0xf4

abbrev pub file_of : List ℕ → Memory
file_of bytes i = get_or bytes i 0

abbrev pub image : Memory
image = file_of (image_of 5 0x100078)

abbrev pub image_plan : LoadPlan
image_plan = record {
  entry = 0x100078;
  phys_base = 0x100000;
  phys_end = 0x101000;
  segs =
      record {
        paddr = 0x100078;
        page_base = 0x100000;
        page_end = 0x101000;
        offset = 120;
        filesz = 8;
        memsz = 16;
        flags = 5;
      }
      ∷ [];
}

get_or-lt : (xs : List ℕ) → All (λ x. x < 256) xs → (i : ℕ) → get_or xs i 0 < 256
get_or-lt [] h i = omega arith
get_or-lt (x ∷ xs) (p, h) zero = p
get_or-lt (x ∷ xs) (p, h) (suc i) = get_or-lt xs h i

pub image-IsBytes : IsBytes image
image-IsBytes = get_or-lt (image_of 5 0x100078) (omega arith)
