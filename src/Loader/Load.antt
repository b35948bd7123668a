-- ===== src/Loader/Load.antt =====
-- bootloader/uefi/main.c: `lmemcpy`, `lmemset`, `read_kernel_file` and `load_kernel_elf`.
use sypas.Base.{
  ℕ, zero, suc, ◌+◌, ◌-◌, ◌*◌, ◌/◌, ◌%◌, ◌^◌, not, leb, ltb, ◌==◌, ◌&&◌, ◌||◌, if◌then◌else◌, List,
  [], ◌∷◌, ok, err, Memory, update, sub64,
}
use sypas.Elf.Format.{Segment, LoadPlan}
use sypas.Elf.Plan.{plan_load}
use sypas.Loader.Calls.{
  Firmware, handle_protocol, open_volume, open_file, get_info, read_file, close_file, allocate_pool,
  allocate_pages, no_loaded_image, no_filesystem, open_volume_failed, kernel_not_found,
  get_info_failed, file_size_policy, no_pool, read_failed, load_address_occupied, image_rejected, M,
  ◌>>=◌, ◌>>◌, pure, call, value_of, modify, efi_error, efi_load_error, die, die_ascii, die_if,
}

unfoldable pub lmemcpy : ℕ → ℕ → ℕ → Memory → Memory
lmemcpy zero dst src m = m
lmemcpy (suc n) dst src m = lmemcpy n (dst + 1) (src + 1) (update m dst (m src))

unfoldable pub lmemset : ℕ → ℕ → ℕ → Memory → Memory
lmemset zero dst c m = m
lmemset (suc n) dst c m = lmemset n (dst + 1) c (update m dst (c % 256))

-- What `Read` does to the memory: so many bytes of the file, at the buffer.
unfoldable pub receive : Memory → ℕ → ℕ → Memory → Memory
receive contents buf count m a =
    if leb buf a && ltb a (buf + count) then contents (a - buf) else m a

-- The buffer, and its size.
unfoldable pub read_kernel_file : Firmware → M (ℕ × ℕ)
unfolding die receive
read_kernel_file fw = do
  st ← call fw handle_protocol
  die_if (efi_error st) no_loaded_image st
  st ← call fw handle_protocol
  die_if (efi_error st) no_filesystem st
  st ← call fw open_volume
  die_if (efi_error st) open_volume_failed st
  st ← call fw open_file
  die_if (efi_error st) kernel_not_found st
  st ← call fw get_info
  die_if (efi_error st) get_info_failed st
  fsize ← value_of fw
  die_if (fsize == 0 || ltb (64 * 2 ^ 20) fsize) file_size_policy efi_load_error
  st ← call fw (allocate_pool fsize)
  die_if (efi_error st) no_pool st
  buf ← value_of fw
  st ← call fw read_file
  rd ← value_of fw
  modify (receive fw.contents buf rd)
  die_if (efi_error st || not (rd == fsize)) read_failed st
  _ ← call fw close_file
  _ ← call fw close_file
  pure (buf, fsize)

-- The memory of a segment: its pages are cleared, and its bytes copied from the file's buffer.
unfoldable pub place_segment : ℕ → Segment → Memory → Memory
place_segment file s m =
    lmemcpy s.filesz s.paddr (file + s.offset)
      (lmemset (sub64 s.page_end s.page_base) s.page_base 0 m)

-- The body of the loop; kind 2 is AllocateAddress.
unfoldable pub load_segment : Firmware → ℕ → Segment → M (Unit {0})
unfolding die
load_segment fw file s = do
  st ← call fw (allocate_pages 2 (sub64 s.page_end s.page_base / 4096) s.page_base)
  die_if (efi_error st) load_address_occupied st
  modify (place_segment file s)

unfoldable pub load_segments : Firmware → ℕ → List Segment → M (Unit {0})
load_segments fw file [] = pure tt
load_segments fw file (s ∷ ss) = do load_segment fw file s; load_segments fw file ss

unfoldable pub load_kernel_elf : Firmware → ℕ → ℕ → M LoadPlan
unfolding die die_ascii
load_kernel_elf fw file fsize w = elim (plan_load (λ i. w.mem (file + i)) fsize) [
  | err es ↦ die_ascii (image_rejected es) efi_load_error w
  | ok plan ↦ (load_segments fw file plan.segs >> pure plan) w
]
