-- ===== src/Elf/Tests.antt =====
-- bootloader/uefi/elf.c: runs on a small image, and the theorems at that image.
use sypas.Base.{
  ◌≡◌, refl, ok, err, Memory, u16_at, u32_at, u64_at, add_ok, ltb, lt→ltb, if◌then◌else◌,
}
use sypas.Elf.Format.{ehdr_at, phdr_at, phdrs_at, seg_bounds, bad_entry}
use sypas.Elf.Plan.{
  power_of_two, check_header, table_fits, check_policy, make_segment, overlaps, overlaps_any,
  add_segment, plan_entry, plan_entries, check_entry, finish, plan_load,
}
use sypas.Elf.Sample.{image_of, file_of, image, image_plan, image-IsBytes}
use sypas.Elf.Accepted.{Accepted, plan_load-Accepted}
use sypas.Elf.ReadsInside.{plan_load-same}

program : Unit {0}
unfolding ehdr_at phdr_at phdrs_at u16_at u32_at u64_at add_ok power_of_two check_header table_fits
    check_policy make_segment overlaps overlaps_any add_segment plan_entry plan_entries check_entry
    finish plan_load
program = tt

plan_load-image : plan_load image 128 ≡ ok image_plan
unfolding program
plan_load-image = refl

plan_load_cut : plan_load image 127 ≡ err seg_bounds
unfolding program
plan_load_cut = refl

-- The BSS tail is no place for the entry point.
plan_load_bss : plan_load (file_of (image_of 5 0x100080)) 128 ≡ err bad_entry
unfolding program
plan_load_bss = refl

plan_load-Accepted_example :
    Accepted 128
      (ehdr_at image)
      (phdrs_at image (ehdr_at image).e_phoff (ehdr_at image).e_phnum)
      image_plan
plan_load-Accepted_example = plan_load-Accepted image 128 image-IsBytes plan_load-image

-- The same file with other bytes behind it.
abbrev longer : Memory
longer i = if ltb i 128 then image i else 0xff

plan_load-same_example : plan_load longer 128 ≡ plan_load image 128
plan_load-same_example = plan_load-same longer image 128 (λ i l. rw (lt→ltb i 128 l)) image-IsBytes
