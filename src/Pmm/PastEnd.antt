-- ===== src/Pmm/PastEnd.antt =====
-- kernel/mm/pmm.c: the search of `pmm_alloc_page` when `pmm_init` left its cursor at `highest_page`.
use sypas.Base.{
  ℕ, ◌*◌, ◌%◌, ◌^◌, ◌<◌, ◌≡◌, refl, true, false, arith, add64, sub64, some, ok, List, Memory,
  IsBytes, byte_test-full, lt→ltb,
}
use sypas.BootProto.{MemmapEntry, IsMap, usable_page}
use sypas.Pmm.Bitmap.{bit_set, bit_test, bit_test-set}
use sypas.Pmm.State.{Pmm, is_allocated}
use sypas.Pmm.Alloc.{found, scan, alloc_from, alloc_page}
use sypas.Pmm.Ranges.{usable_page-lt}
use sypas.Pmm.Init.{init}
use sypas.Pmm.InitCorrect.{Initialised}
use sypas.Pmm.InitAlloc.{init_ok-Initialised}

module _ (s : Pmm) (at_end : s.cursor ≡ s.highest_page) (some_page : 0 < s.highest_page)
    (fits : s.highest_page < 2 ^ 52) (whole : s.highest_page % 8 ≡ 0)
    (clear : is_allocated s s.highest_page ≡ false) where
  past_end : Pmm
  past_end = record s {
    mem = bit_set s.mem s.bitmap s.highest_page;
    free_pages = sub64 s.free_pages 1;
    cursor = add64 s.highest_page 1 % s.highest_page;
  }

  scan-past_end : scan s ≡ found (s.highest_page * 4096) past_end
  unfolding scan past_end bit_test
  scan-past_end =
      let small : (s.highest_page * 4096) % 2 ^ 64 ≡ s.highest_page * 4096 = omega arith in
      rw at_end (ground (arith, byte_test-full 0, clear, whole, small))

  alloc_from-past_end : alloc_page s ≡ some (s.highest_page * 4096, past_end)
  unfolding alloc_page alloc_from
  alloc_from-past_end = rw (lt→ltb 0 s.highest_page some_page, alloc_from) (rw scan-past_end)

-- On any memory of bytes and any map that is sorted, page-aligned and without overlap, where
-- pmm_init returns with its cursor at highest_page, that number is a multiple of 8 below 2 ^ 52,
-- and the memory behind the bitmap has a clear bit for it, pmm_alloc_page hands out the page at
-- the very end of the tracked memory, which is not usable in the map: it sets a bit behind the
-- bitmap, counts a free page less, and leaves every other page as it was.
pub alloc_page-past_end :
    (m : Memory) (map : List MemmapEntry) (s : Pmm)
    → IsBytes m
    → IsMap 0 map
    → init m map ≡ ok s
    → s.cursor ≡ s.highest_page
    → s.highest_page % 8 ≡ 0
    → s.highest_page < 2 ^ 52
    → is_allocated s s.highest_page ≡ false
    → (t : Pmm) × (alloc_page s ≡ some (s.highest_page * 4096, t))
      × (usable_page map s.highest_page ≡ false)
      × (is_allocated t s.highest_page ≡ true)
      × (t.free_pages ≡ sub64 s.free_pages 1)
      × ((q : ℕ) → q < s.highest_page → is_allocated t q ≡ is_allocated s q)
unfolding past_end
alloc_page-past_end m map s bytes w e at_end whole fits clear =
    let i : Initialised map s = init_ok-Initialised m map s bytes w e in
    let some_page : 0 < s.highest_page = omega (arith, i.low_tracked) in
    let bits : (q : ℕ) → _ = bit_test-set s.mem s.bitmap s.highest_page i.bytes in
    (
      past_end s at_end some_page fits whole clear,
      alloc_from-past_end s at_end some_page fits whole clear,
      ground (arith, usable_page-lt s.highest_page map s.highest_page i.tracks),
      ground (arith, bits s.highest_page),
      refl,
      λ q l. ground (arith, bits q),
    )
