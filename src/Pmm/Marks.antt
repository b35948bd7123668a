-- ===== src/Pmm/Marks.antt =====
-- kernel/mm/pmm.c: the loops of `pmm_init` over the bitmap. `Marks` is what they change, the memory
-- with the bitmap and the count `free_pages`; each takes the number of its rounds.
use sypas.Base.{
  ℕ, zero, suc, ◌+◌, ◌-◌, ◌/◌, ◌==◌, if◌then◌else◌, not, List, [], ◌∷◌, Memory, update, add64,
  sub64, align_up, align_down,
}
use sypas.BootProto.{MemmapEntry, is_usable}
use sypas.Pmm.Bitmap.{bit_set, bit_clear, bit_test}

pub record Marks : Type 0 where
  pub mem : Memory
  pub free : ℕ

-- `for (i = 0; i < bitmap_bytes; i++) bitmap[i] = 0xFF`
unfoldable pub fill : ℕ → ℕ → ℕ → Memory → Memory
fill zero i b m = m
fill (suc n) i b m = fill n (i + 1) b (update m (b + i) 255)

-- One page of a usable range; page 0 is passed over.
unfoldable pub free_one : ℕ → ℕ → Marks → Marks
free_one b p k = if p == 0 then k else record k { mem = bit_clear k.mem b p; free = add64 k.free 1 }

unfoldable pub free_range : ℕ → ℕ → ℕ → Marks → Marks
free_range zero p b k = k
free_range (suc n) p b k = free_range n (p + 1) b (free_one b p k)

-- The usable ranges of the map, each from the first whole page to the last.
unfoldable pub free_entry : ℕ → MemmapEntry → Marks → Marks
free_entry b e k =
    let first = align_up e.base / 4096 in
    let last = align_down (add64 e.base e.length) / 4096 in
    if is_usable e then free_range (last - first) first b k else k

unfoldable pub free_entries : ℕ → List MemmapEntry → Marks → Marks
free_entries b [] k = k
free_entries b (e ∷ es) k = free_entries b es (free_entry b e k)

-- `if (!bit_test(p)) { bit_set(p); free_pages--; }`
unfoldable pub reserve_one : ℕ → ℕ → Marks → Marks
reserve_one b p k =
    if not (bit_test k.mem b p)
    then record k { mem = bit_set k.mem b p; free = sub64 k.free 1 }
    else k

unfoldable pub reserve_range : ℕ → ℕ → ℕ → Marks → Marks
reserve_range zero p b k = k
reserve_range (suc n) p b k = reserve_range n (p + 1) b (reserve_one b p k)
