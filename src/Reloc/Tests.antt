-- ===== src/Reloc/Tests.antt =====
-- bootloader/uefi/reloc.c: runs, and the theorems at an image with two relocations.
use sypas.Base.{
  ℕ, ◌+◌, ◌≤◌, ◌<◌, ◌≡◌, refl, arith, Memory, IsBytes, u16_at, u32_at, u64_at, put_u64, add_ok, inl,
  inr, All, ltb, leb, lt→ltb, get_or, get_or-All, Bool-cases, List, [], ◌∷◌, ◌-◌, if◌then◌else◌,
}
use sypas.Reloc.Apply.{
  dyn_at, rela_at, add_signed_ok, note, read_dynamic, relocate, relocate_all, apply_table, reloc,
}
use sypas.Reloc.Inside.{reloc-Outside}
use sypas.Reloc.Reads.{SameResult, reloc-SameResult}
use sypas.Reloc.Applied.{Holds, table_of, rela_entries, reloc-Holds}

program : Unit {0}
unfolding u16_at u32_at u64_at put_u64 add_ok dyn_at rela_at add_signed_ok note read_dynamic
    relocate relocate_all apply_table reloc
program = tt

-- 112 bytes at 0x1000: two relocations, the dynamic table at 48, and the two targets.
abbrev bytes_of : List ℕ
bytes_of =
    96 ∷ 0 ∷ 0 ∷ 0 ∷ 0 ∷ 0 ∷ 0 ∷ 0 ∷ 8 ∷ 0 ∷ 0 ∷ 0 ∷ 0 ∷ 0 ∷ 0 ∷ 0 ∷ 16 ∷ 0 ∷ 0 ∷ 0 ∷ 0 ∷ 0 ∷ 0 ∷ 0
    ∷ 104 ∷ 0 ∷ 0 ∷ 0 ∷ 0 ∷ 0 ∷ 0 ∷ 0 ∷ 8 ∷ 0 ∷ 0 ∷ 0 ∷ 0 ∷ 0 ∷ 0 ∷ 0 ∷ 224 ∷ 255 ∷ 255 ∷ 255 ∷ 255
    ∷ 255 ∷ 255 ∷ 255 ∷ 7 ∷ 0 ∷ 0 ∷ 0 ∷ 0 ∷ 0 ∷ 0 ∷ 0 ∷ 0 ∷ 0 ∷ 0 ∷ 0 ∷ 0 ∷ 0 ∷ 0 ∷ 0 ∷ 8 ∷ 0 ∷ 0
    ∷ 0 ∷ 0 ∷ 0 ∷ 0 ∷ 0 ∷ 48 ∷ 0 ∷ 0 ∷ 0 ∷ 0 ∷ 0 ∷ 0 ∷ 0 ∷ 0 ∷ 0 ∷ 0 ∷ 0 ∷ 0 ∷ 0 ∷ 0 ∷ 0 ∷ 0 ∷ 0 ∷ 0
    ∷ 0 ∷ 0 ∷ 0 ∷ 0 ∷ 0 ∷ []

abbrev image : Memory
image i = if leb 0x1000 i then get_or bytes_of (i - 0x1000) 0 else 0

abbrev relocated : Memory
relocated = put_u64 (put_u64 image 0x1060 0x1010) 0x1068 0xfe0

reloc-image : reloc 0x1000 112 0x1030 image ≡ (0, relocated)
unfolding program
reloc-image = refl

-- An image that ends before the second target does.
reloc_cut : (reloc 0x1000 111 0x1030 image).0 ≡ 1
unfolding program
reloc_cut = refl

reloc-Outside_example : (reloc 0x1000 112 0x1030 image).1 0x1070 ≡ image 0x1070
reloc-Outside_example =
    reloc-Outside 0x1000 112 0x1030 image 0x1070 (omega arith) (inr (omega arith))

-- The same image with other bytes behind it.
abbrev longer : Memory
longer i = if ltb i 0x1070 then image i else 0xff

reloc-SameResult_example :
    SameResult 0x1000 112 (reloc 0x1000 112 0x1030 image) (reloc 0x1000 112 0x1030 longer)
reloc-SameResult_example =
    reloc-SameResult 0x1000 112 0x1030 image longer (omega arith)
      (λ i low high. rw (lt→ltb i 0x1070 high) refl)

image-IsBytes : IsBytes image
image-IsBytes i =
    let inside = get_or-All (λ x. x < 256) bytes_of 0 (omega arith) (omega arith) (i - 0x1000) in
    elim (Bool-cases (leb 0x1000 i)) [ inl e ↦ rw e inside | inr e ↦ rw e (omega arith) ]

reloc-Holds_example :
    ((table_of 0x1000 112 0x1030 image).rela + (table_of 0x1000 112 0x1030 image).relasz ≤ 112)
    × All (Holds 0x1000 relocated) (rela_entries 0x1000 (table_of 0x1000 112 0x1030 image) image)
unfolding program
reloc-Holds_example =
    reloc-Holds 0x1000 112 0x1030 image image-IsBytes (omega arith) refl
      (inr (omega arith), (inr (omega arith), tt)) ((inl (omega arith), tt), (tt, tt)) refl
