-- ===== src/Pmm/Alloc.antt =====
-- kernel/mm/pmm.c: `pmm_alloc_page`. `scan` is one round of its loop, `alloc_from` the loop.
use sypas.Base.{
  ℕ, zero, suc, ◌+◌, ◌*◌, ◌/◌, ◌%◌, ◌^◌, true, false, ltb, ◌==◌, if◌then◌else◌, ◌&&◌, Option, none,
  some, add64, sub64,
}
use sypas.Pmm.Bitmap.{bit_set, bit_test}
use sypas.Pmm.State.{Pmm}

-- What a round of the loop does: it returns an address, or goes on with `scanned` so much larger.
pub data Scan : Type 0 where
  found : ℕ → Pmm → Scan
  skipped : ℕ → Pmm → Scan

-- `continue` after `scanned += 7` runs the loop's own `scanned++` too.
unfoldable pub scan : Pmm → Scan
scan s =
    let p = s.cursor in
    if (p % 8 == 0) && (s.mem (s.bitmap + p / 8) == 255)
    then skipped 8 (record s { cursor = add64 p 8 % s.highest_page })
    else if bit_test s.mem s.bitmap p
    then skipped 1 (record s { cursor = add64 p 1 % s.highest_page })
    else found ((p * 4096) % 2 ^ 64) (record s {
      cursor = add64 p 1 % s.highest_page;
      mem = bit_set s.mem s.bitmap p;
      free_pages = sub64 s.free_pages 1;
    })

-- The address 0 is the return after the loop; `none` says that the fuel ran out.
unfoldable pub alloc_from : ℕ → ℕ → Pmm → Option (ℕ × Pmm)
alloc_from zero scanned s = none
alloc_from (suc fuel) scanned s = elim (ltb scanned s.highest_page) [
  | false ↦ some (0, s)
  | true ↦ elim (scan s) [
    | found address t ↦ some (address, t)
    | skipped n t ↦ alloc_from fuel (add64 scanned n) t
  ]
]

-- Each round adds at least one to `scanned`.
unfoldable pub alloc_page : Pmm → Option (ℕ × Pmm)
alloc_page s = alloc_from (suc s.highest_page) 0 s
