-- ===== src/Pmm/Tests.antt =====
-- kernel/mm/pmm.c: runs, and the theorems at a machine with memory up to 2 MiB.
use sypas.Base.{
  sub64, subst, ap, sym, ◌∙◌, ℕ, ◌*◌, ◌/◌, ◌%◌, ◌≤◌, ◌<◌, ◌≡◌, refl, true, false, arith, some, List,
  [], ◌∷◌, Memory, ◌⊎◌, ok, err, byte_test, byte_clear, byte_set, ◌≢◌, ◌>>=◌, u64_at, u32_at,
  u16_at, put_u64,
}
use mathlib.Core.Option.{some-injective}
use sypas.BootProto.{MemmapEntry, usable_page}
use sypas.Pmm.Bitmap.{bit_set, bit_clear, bit_test}
use sypas.Pmm.State.{Pmm, IsValid, is_allocated}
use sypas.Pmm.Alloc.{scan, alloc_from, alloc_page}
use sypas.Pmm.AllocCorrect.{Exhausted, Takes, alloc_page-Outcome}
use sypas.Pmm.Free.{
  no_usable_memory, no_room_for_bitmap, unaligned, out_of_range, double_free, free_page, Frees,
  free_page_refuses, free_page-alloc_page,
}
use sypas.Pmm.Marks.{
  fill, free_one, free_range, free_entry, free_entries, reserve_one, reserve_range,
}
use sypas.Pmm.Init.{total_entry, totals, place_in, place, init_at, init, no_totals}
use sypas.Pmm.Totals.{totals-Adds}
use sypas.Pmm.Place.{LacksRoom, HasRoom}
use sypas.Pmm.InitCorrect.{
  Initialised, init_at-Initialised, init-Initialised, Initialised-IsValid, bitmap_size,
}
use sypas.Pmm.History.{Request, take, give_back, serve_all, Owned, Kept, serve_all-Kept}
use sypas.Pmm.Selftest.{
  exhausted, take_pages, test_pattern, is_repeated, write_patterns, check_patterns, free_pages_of,
  test_pages, selftest,
}
use sypas.Pmm.SelftestPasses.{selftest_passes, Initialised-Guarded}
use sypas.Pmm.InitAlloc.{FirstPage, init-alloc_page}
use sypas.Pmm.PastEnd.{alloc_page-past_end}

program : Unit {0}
unfolding byte_test byte_clear byte_set bit_set bit_clear bit_test scan alloc_from alloc_page
    free_page fill free_one free_range free_entry free_entries reserve_one reserve_range total_entry
    totals place_in place init_at init
program = tt

abbrev zeros : Memory
zeros a = 0

abbrev two_mib : List MemmapEntry
two_mib =
    record { base = 0; length = 0x9f000; type = 1; reserved = 0 }
    ∷ record { base = 0x9f000; length = 0x61000; type = 2; reserved = 0 }
    ∷ record { base = 0x100000; length = 0x100000; type = 1; reserved = 0 }
    ∷ record { base = 0xfec00000; length = 0x1000; type = 5; reserved = 0 }
    ∷ []

abbrev booted : Pmm
booted = init_at zeros two_mib (totals no_totals two_mib) 0x100000

booted_counts : (booted.free_pages ≡ 255) × (booted.usable_pages ≡ 414) × (booted.cursor ≡ 257)
unfolding program
booted_counts = (refl, refl, refl)

init-Initialised_example :
    ((init zeros two_mib ≡ err no_usable_memory) × ((q : ℕ) → usable_page two_mib q ≡ false))
    ⊎ ((init zeros two_mib ≡ err (no_room_for_bitmap (bitmap_size two_mib / 1024)))
        × LacksRoom (bitmap_size two_mib) two_mib)
    ⊎ ((s : Pmm) × (init zeros two_mib ≡ ok s) × Initialised two_mib s)
init-Initialised_example = init-Initialised zeros two_mib (λ a. omega arith) (omega arith)

two_mib-HasRoom : HasRoom two_mib 0x200000 64 0x100000
two_mib-HasRoom = record {
  high = omega arith;
  aligned = omega arith;
  below = omega arith;
  inside = λ q l r. ground arith;
}

booted-Initialised : Initialised two_mib booted
unfolding total_entry totals
booted-Initialised =
    init_at-Initialised zeros two_mib (totals no_totals two_mib) 0x100000 (λ a. omega arith)
      (omega arith)
      (totals-Adds no_totals 0 two_mib (omega arith) (omega arith) (omega arith) (omega arith))
      two_mib-HasRoom

booted-IsValid : IsValid booted
unfolding init_at total_entry totals
booted-IsValid = Initialised-IsValid two_mib booted booted-Initialised (omega arith)

booted-init : init zeros two_mib ≡ ok booted
unfolding program
booted-init = refl

init-alloc_page_example :
    IsValid booted
    × ((r : ℕ) × (t : Pmm) × (alloc_page booted ≡ some (r, t))
        × IsValid t
        × (((booted.free_pages ≡ 0) × (r ≡ 0)) ⊎ FirstPage two_mib booted r t))
unfolding init_at total_entry totals
init-alloc_page_example =
    init-alloc_page zeros two_mib booted (λ a. omega arith) (omega arith) booted-init (omega arith)

alloc_page-Outcome_example :
    (r : ℕ) × (t : Pmm) × (alloc_page booted ≡ some (r, t))
    × IsValid t
    × (Exhausted booted r t ⊎ Takes booted r t)
alloc_page-Outcome_example = alloc_page-Outcome booted booted-IsValid

abbrev allocated : Pmm
allocated = record booted { mem = bit_set booted.mem 0x100000 257; free_pages = 254; cursor = 258 }

booted_alloc : alloc_page booted ≡ some (0x101000, allocated)
unfolding program
booted_alloc = refl

allocated-IsValid : IsValid allocated
allocated-IsValid =
    let (r, t, e, v, o) = alloc_page-Outcome booted booted-IsValid in
    subst IsValid (ap (λ x. x.1) (some-injective _ _ (sym e ∙ booted_alloc))) v

free_page-alloc_page_example :
    (u : Pmm) × (free_page allocated 0x101000 ≡ ok u)
    × IsValid u
    × ((q : ℕ) → is_allocated u q ≡ is_allocated booted q)
    × (u.free_pages ≡ booted.free_pages)
    × (free_page u 0x101000 ≡ err (double_free 0x101000))
free_page-alloc_page_example =
    free_page-alloc_page booted allocated 0x101000 booted-IsValid booted_alloc (omega arith)

free_page_refuses_example :
    ((t : Pmm) × (free_page allocated 0x101000 ≡ ok t)
      × (◌≡◌ {A = ℕ} (0x101000 % 4096) 0)
      × (0x101000 / 4096 < allocated.highest_page)
      × (is_allocated allocated (0x101000 / 4096) ≡ true)
      × Frees allocated (0x101000 / 4096) t
      × ((0x101000 / 4096 < 256) ⊎ IsValid t))
    ⊎ ((free_page allocated 0x101000 ≡ err (unaligned 0x101000))
        × (◌≢◌ {A = ℕ} (0x101000 % 4096) 0))
    ⊎ ((free_page allocated 0x101000 ≡ err (out_of_range 0x101000))
        × (◌≡◌ {A = ℕ} (0x101000 % 4096) 0)
        × (allocated.highest_page ≤ 0x101000 / 4096))
    ⊎ ((free_page allocated 0x101000 ≡ err (double_free 0x101000))
        × (◌≡◌ {A = ℕ} (0x101000 % 4096) 0)
        × (0x101000 / 4096 < allocated.highest_page)
        × (is_allocated allocated (0x101000 / 4096) ≡ false))
free_page_refuses_example = free_page_refuses allocated 0x101000 allocated-IsValid

-- The bitmap's page is the last usable page, and the tracked pages are a multiple of eight.
abbrev full_map : List MemmapEntry
full_map =
    record { base = 0; length = 0x9f000; type = 1; reserved = 0 }
    ∷ record { base = 0x107000; length = 0x1000; type = 1; reserved = 0 }
    ∷ []

abbrev full : Pmm
full = init_at zeros full_map (totals no_totals full_map) 0x107000

full-init :
    (init zeros full_map ≡ ok full)
    × (full.cursor ≡ 264)
    × (full.highest_page ≡ 264)
    × (full.free_pages ≡ 0)
unfolding program
full-init = (refl, refl, refl, refl)

full_clear : is_allocated full full.highest_page ≡ false
unfolding program
full_clear = refl

alloc_page-past_end_example :
    (t : Pmm) × (alloc_page full ≡ some (full.highest_page * 4096, t))
    × (usable_page full_map full.highest_page ≡ false)
    × (is_allocated t full.highest_page ≡ true)
    × (t.free_pages ≡ sub64 full.free_pages 1)
    × ((q : ℕ) → q < full.highest_page → is_allocated t q ≡ is_allocated full q)
unfolding init_at total_entry totals
alloc_page-past_end_example =
    alloc_page-past_end zeros full_map full (λ a. omega arith) (omega arith) full-init.0 refl refl
      (omega arith) full_clear

abbrev requests : List Request
requests = take ∷ take ∷ give_back 1 ∷ give_back 7 ∷ take ∷ []

booted-Owned : Owned booted []
booted-Owned = record { valid = booted-IsValid; pages = tt; distinct = tt }

serve_all-Kept_example :
    (t : Pmm) × (held' : List ℕ) × (serve_all requests booted [] ≡ some (t, held'))
    × Kept booted [] t held'
serve_all-Kept_example = serve_all-Kept requests booted [] booted-Owned

-- Too few pages for the whole self-test.
selftest_passes_example :
    ((512 ≤ booted.free_pages)
      × ((u : Pmm) × (selftest booted ≡ ok u)
          × IsValid u
          × ((q : ℕ) → q < booted.highest_page → is_allocated u q ≡ is_allocated booted q)
          × (u.free_pages ≡ booted.free_pages)))
    ⊎ ((booted.free_pages < 512) × (selftest booted ≡ err (exhausted booted.free_pages)))
selftest_passes_example =
    selftest_passes booted booted-IsValid (Initialised-Guarded two_mib booted booted-Initialised)

-- A run with three pages.
selftest_run :
    (take_pages 3 0 booted >>= λ (got, t). test_pages 255 got t >>= λ u. ok u.free_pages) ≡ ok 255
unfolding program take_pages test_pattern is_repeated write_patterns check_patterns free_pages_of
    test_pages u64_at u32_at u16_at put_u64
selftest_run = refl
