-- ===== src/Pmm/SelftestPasses.antt =====
-- kernel/mm/pmm.c: what `pmm_selftest` does on a valid allocator whose bitmap lies in allocated
-- pages.
use sypas.Base.{
  ℕ, ◌+◌, ◌/◌, ◌≤◌, ◌<◌, ◌≡◌, refl, arith, subst, sym, ◌∙◌, true, false, ◌==◌, List, ok, err,
  Memory, IsBytes, ◌⊎◌, inl, inr, All,
}
use sypas.Pmm.Bitmap.{bit_test, clear_count-same}
use sypas.Pmm.State.{Pmm, IsValid, is_allocated}
use sypas.BootProto.{MemmapEntry}
use sypas.Pmm.InitCorrect.{Initialised}
use sypas.Pmm.SelftestLoops.{
  holds, IsPage, Taken, take_pages-TakesAll, Written, write_patterns-Written, check_patterns-ok,
  free_pages_of-Freed,
}
use sypas.Pmm.Selftest.{exhausted, test_pages, selftest, st_pages}

-- The bitmap's own bytes lie in pages that are not free.
abbrev pub Guarded : Pmm → Type 0
Guarded s = (q : ℕ) → q < s.highest_page → is_allocated s ((s.bitmap + q / 8) / 4096) ≡ true

-- A state with another memory whose bits are the same.
with_memory-IsValid :
    (s : Pmm) (m : Memory)
    → IsValid s
    → IsBytes m
    → ((q : ℕ) → q < s.highest_page → bit_test m s.bitmap q ≡ is_allocated s q)
    → IsValid (record s { mem = m })
with_memory-IsValid s m v bytes same = record {
  bytes = bytes;
  fits = v.fits;
  low_tracked = v.low_tracked;
  low_reserved = λ p l. same p (omega (arith, v.low_tracked)) ∙ v.low_reserved p l;
  cursor_in = v.cursor_in;
  counted = v.counted ∙ sym (clear_count-same s.mem m s.bitmap s.bitmap s.highest_page same);
}

Written-bits :
    (s t : Pmm) (got : List ℕ) (m : Memory)
    → Guarded s
    → Taken s got t
    → Written t.mem got m
    → (q : ℕ) → q < t.highest_page
    → bit_test m t.bitmap q ≡ is_allocated t q
unfolding bit_test
Written-bits s t got m g k w q l =
    let guard = g q (omega (arith, l, k.same_top)) in
    let page : (t.bitmap + q / 8) / 4096 ≡ (s.bitmap + q / 8) / 4096 =
      omega (arith, k.same_bitmap) in
    let free : holds got ((t.bitmap + q / 8) / 4096) ≡ false =
      subst (λ x. holds got x ≡ false) (sym page)
        (ground (arith, guard, k.fresh ((s.bitmap + q / 8) / 4096))) in
    rw (w.outside (t.bitmap + q / 8) free) refl

-- On a valid allocator whose bitmap lies in pages that are not free, the self-test returns. With
-- 512 free pages or more it passes, and leaves a valid allocator with the same pages free and as
-- many; with fewer it fails for want of pages, after as many as there were. It finds no duplicate,
-- no pattern that has changed and no leak, and does not panic.
pub selftest_passes :
    (s : Pmm)
    → IsValid s
    → Guarded s
    → ((512 ≤ s.free_pages)
        × ((u : Pmm) × (selftest s ≡ ok u)
            × IsValid u
            × ((q : ℕ) → q < s.highest_page → is_allocated u q ≡ is_allocated s q)
            × (u.free_pages ≡ s.free_pages)))
      ⊎ ((s.free_pages < 512) × (selftest s ≡ err (exhausted s.free_pages)))
unfolding selftest test_pages
selftest_passes s v g = elim (take_pages-TakesAll st_pages 0 s v) [
  | inl (enough, (got, t, ran, k, len)) ↦
      let (m, wrote, w) =
        write_patterns-Written s.highest_page got t.mem k.valid.bytes k.separate k.pages in
      let same = Written-bits s t got m g k w in
      let pages = subst (λ h. All (IsPage h) got) (sym k.same_top) k.pages in
      let (u, freed, f) =
        free_pages_of-Freed got (record t { mem = m })
          (with_memory-IsValid t m k.valid w.bytes same) k.separate pages
          (λ q l h. same q l ∙ ground (arith, k.bits q)) in
      let count : u.free_pages ≡ s.free_pages = omega (arith, f.count, k.count) in
      let settled : u.free_pages == s.free_pages ≡ true = ground (arith, count) in
      inl (
        enough,
        (
          u,
          rw ran (rw wrote (rw (check_patterns-ok got m w.patterns) (rw freed (rw settled refl)))),
          f.valid,
          λ q l. ground (arith, f.bits q, same q, k.bits q, k.fresh q, k.same_top),
          count,
        ),
      )
  | inr (few, ran) ↦
      let all : 0 + s.free_pages ≡ s.free_pages = omega arith in inr (few, rw (ran, all) refl)
]

-- `pmm_init` puts the bitmap where it is guarded.
pub Initialised-Guarded : (map : List MemmapEntry) (s : Pmm) → Initialised map s → Guarded s
Initialised-Guarded map s i q l =
    ground (arith, i.bits ((s.bitmap + q / 8) / 4096), i.placed.below, i.room)
