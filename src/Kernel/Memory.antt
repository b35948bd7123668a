-- ===== src/Kernel/Memory.antt =====
-- kernel/main.c: what `kmain` does with the memory map and the page allocator.
use sypas.Base.{
  ℕ, zero, suc, ◌/◌, ◌≤◌, ◌<◌, ◌≡◌, ◌≢◌, refl, arith, ◌==◌, if◌then◌else◌, List, [], ◌∷◌, ok, err,
  All, All-append, u64_max, IsBytes, add64, inl, inr,
}
use sypas.BootProto.{MemmapEntry, IsMap}
use sypas.BootProto.Info.{BootInfo}
use sypas.Pmm.Bitmap.{clear_count-le}
use sypas.Pmm.State.{Pmm, IsValid, is_allocated}
use sypas.Pmm.Free.{Panic, no_usable_memory, no_room_for_bitmap}
use sypas.Pmm.Init.{init, get_stats}
use sypas.Pmm.InitCorrect.{
  Initialised, init-Initialised, Initialised-IsValid, usable_count, bitmap_size,
}
use sypas.Pmm.Selftest.{exhausted}
use sypas.Pmm.SelftestPasses.{selftest_passes, Initialised-Guarded}
use sypas.Kernel.Kinds.{parsing}
use sypas.Kernel.Panic.{line}
use sypas.Kernel.Prints.{IsCall}
use sypas.Kernel.System.{System}
use sypas.Kernel.Messages.{
  map_lines, memory_lines, usable_sum, stats_line, pmm_message, failure_lines, selftest_line,
}
use sypas.Kernel.Main.{
  BootInput, Halt, halted, memory, selftest_failed, say, fail_test, test_memory, start_memory,
}
use sypas.Kernel.Outcome.{Ends, Ends->>=, Ends-map, Later, Later-trans, say-Later, stop_ends}
use sypas.Kernel.Starts.{map_lines-IsCall}

pub usable_sum-le : (map : List MemmapEntry) (n : ℕ) → n ≤ u64_max → usable_sum n map ≤ u64_max
unfolding usable_sum
usable_sum-le [] n l = l
usable_sum-le (e ∷ es) n l =
    usable_sum-le es (if e.type == 1 then add64 n e.length else n) (ground arith)

memory_lines-IsCall :
    (bi : BootInfo) (map : List MemmapEntry)
    → bi.memmap_count ≤ u64_max
    → IsMap 0 map
    → All IsCall (memory_lines bi map)
unfolding parsing
memory_lines-IsCall bi map l w = (
  ((l, tt), refl),
  All-append IsCall (map_lines map) _ (map_lines-IsCall 0 map w)
      (((omega (arith, usable_sum-le map 0 (omega arith)), tt), refl), tt),
)

usable_count-le : (map : List MemmapEntry) (n : ℕ) → usable_count map n ≤ n
usable_count-le map zero = omega arith
usable_count-le map (suc n) = ground (arith, usable_count-le map n)

stats_line-IsCall :
    (map : List MemmapEntry) (p : Pmm) → Initialised map p → IsCall (stats_line (get_stats p))
unfolding parsing get_stats
stats_line-IsCall map p i =
    let free : p.free_pages ≤ u64_max =
      omega (arith, i.counted, i.fits, clear_count-le p.mem p.bitmap p.highest_page) in
    (
      (
        omega (arith, i.candidates, i.fits, usable_count-le map p.highest_page),
        (omega (arith, i.all_free, free), (free, (omega (arith, i.placed.below, i.fits), tt))),
      ),
      refl,
    )

-- The allocator that `pmm_init` gives has 512 free pages or more, and the self-test has left the pages
-- as they were.
pub record Tested (x : BootInput) (q : Pmm) : Type 0 where
  pub fresh : Pmm
  pub initialised : init x.mem x.map ≡ ok fresh
  pub enough : 512 ≤ fresh.free_pages
  pub valid : IsValid q
  pub same : (n : ℕ) → n < fresh.highest_page → is_allocated q n ≡ is_allocated fresh n
  pub count : q.free_pages ≡ fresh.free_pages

module _ (E : Halt → Type 0) (x : BootInput) (small : x.alloc_cycles ≤ u64_max)
    (small' : x.free_cycles ≤ u64_max)
    (few : (p : Pmm) (t : System)
      → init x.mem x.map ≡ ok p
      → p.free_pages < 512
      → E (halted (selftest_failed (exhausted p.free_pages)) t)) where
  test_memory_ends :
      (p : Pmm) (s : System)
      → init x.mem x.map ≡ ok p
      → Initialised x.map p
      → p.cursor ≢ p.highest_page
      → Ends (λ (r : Pmm × System). Tested x r.0 × Later s r.1) E (test_memory x p s)
  unfolding test_memory fail_test parsing
  test_memory_ends p s e i ne =
      elim (selftest_passes p (Initialised-IsValid x.map p i ne) (Initialised-Guarded x.map p i)) [
        | inl (enough, (q, ran, valid, same, count)) ↦
            rw (ran, Ends)
              (Ends->>= (Later s) _ E (say x (selftest_line x.alloc_cycles x.free_cycles ∷ []) s)
                (λ t. ok (q, t))
                (say-Later E x _ s
                  (((omega arith, (omega (arith, small), (omega (arith, small'), tt))), refl), tt))
                (λ t l. (
                  record {
                    fresh = p;
                    initialised = e;
                    enough = enough;
                    valid = valid;
                    same = same;
                    count = count;
                  },
                  l,
                )))
        | inr (less, ran) ↦
            rw (ran, Ends)
              (Ends->>= (Later s) _ E (say x (failure_lines (exhausted p.free_pages)) s) _
                (say-Later E x _ s (((omega (arith, less), tt), refl), tt))
                (λ t l.
                  stop_ends _ E x (selftest_failed (exhausted p.free_pages))
                    (line "pmm: self-test failed" []) t (tt, refl) (λ u. few p u e less)))
      ]

  pub start_memory_ends :
      (bi : BootInfo) (s : System)
      → bi.memmap_count ≤ u64_max
      → IsBytes x.mem
      → IsMap 0 x.map
      → ((p : Pmm) → init x.mem x.map ≡ ok p → p.cursor ≢ p.highest_page)
      → ((why : Panic) (t : System) → init x.mem x.map ≡ err why → E (halted (memory why) t))
      → Ends (λ (r : Pmm × System). Tested x r.0 × Later s r.1) E (start_memory x bi s)
  unfolding start_memory parsing
  start_memory_ends bi s count bytes w ne lacks =
      Ends->>= (Later s) _ E (say x (memory_lines bi x.map) s) _
        (say-Later E x (memory_lines bi x.map) s (memory_lines-IsCall bi x.map count w))
        (λ t l. elim (init-Initialised x.mem x.map bytes w) [
          | inl (e, none_usable) ↦
              rw (e, Ends)
                (stop_ends _ E x (memory no_usable_memory) (pmm_message no_usable_memory) t
                  (tt, refl) (λ u. lacks no_usable_memory u e))
          | inr (inl (e, no_room)) ↦
              let why : Panic = no_room_for_bitmap (bitmap_size x.map / 1024) in
              rw (e, Ends)
                (stop_ends _ E x (memory why) (pmm_message why) t ((omega arith, tt), refl)
                  (λ u. lacks why u e))
          | inr (inr (p, e, i)) ↦
              rw (e, Ends)
                (Ends->>= (Later t) _ E (say x (stats_line (get_stats p) ∷ []) t) _
                  (say-Later E x _ t (stats_line-IsCall x.map p i, tt))
                  (λ u k.
                    Ends-map _ _ E (test_memory x p u) (test_memory_ends p u e i (ne p e))
                      (λ r (tested, m). (tested, Later-trans s u r.1 (Later-trans s t u l k) m))))
        ])
