-- ===== src/Pmm/Ranges.antt =====
-- kernel/mm/pmm.c: the passes of `pmm_init` that set the whole bitmap and then clear the usable pages
-- of a map.
use sypas.Base.{
  ℕ, zero, suc, ◌+◌, ◌-◌, ◌*◌, ◌/◌, ◌%◌, ◌^◌, ◌≤◌, ◌<◌, ◌≡◌, refl, true, false, arith, ltb, leb,
  ◌==◌, if◌then◌else◌, ◌&&◌, not, List, [], ◌∷◌, Memory, update, IsBytes, add64, align_up,
  align_down, Bool-cases, inl, inr, u64_max, sym,
}
use sypas.BootProto.{MemmapEntry, is_usable, IsMap, usable_page}
use sypas.Pmm.Bitmap.{bit_test, clear_count-all_set, bit_test-full_byte}
use sypas.Pmm.Marks.{Marks, fill, free_entry, free_entries}
use sypas.Pmm.Tracked.{Tracks, free_range-Tracks}

-- The usable ranges end at or below the address `top`.
abbrev pub EndsBelow : ℕ → List MemmapEntry → Type 0
EndsBelow top [] = Unit {0}
EndsBelow top (e ∷ es) = (is_usable e ≡ true → e.base + e.length ≤ top) × EndsBelow top es

fill-apply :
    (n i b : ℕ) (m : Memory) (a : ℕ)
    → fill n i b m a ≡ (if leb (b + i) a && ltb a (b + i + n) then 255 else m a)
unfolding fill
fill-apply zero i b m a = ground arith
fill-apply (suc n) i b m a = rw (fill-apply n (i + 1) b (update m (b + i) 255) a) (ground arith)

-- After the fill every tracked page is set, so none is counted.
pub fill-Tracks :
    (m : Memory) (b h n : ℕ)
    → IsBytes m
    → h ≤ n * 8
    → Tracks b h (record { mem = fill n 0 b m; free = 0 })
      × ((q : ℕ) → q < h → bit_test (fill n 0 b m) b q ≡ true)
fill-Tracks m b h n bytes enough = (
  record {
    bytes = λ a. ground (arith, fill-apply n 0 b m a, bytes a);
    counted = sym (clear_count-all_set _ b h all);
  },
  all,
)
  where
    all : (q : ℕ) → q < h → bit_test (fill n 0 b m) b q ≡ true
    all q l =
        bit_test-full_byte (fill n 0 b m) b q q (ground (arith, fill-apply n 0 b m (b + q / 8)))
          refl

usable_page-ge :
    (lo : ℕ) (map : List MemmapEntry) (q : ℕ)
    → IsMap lo map
    → usable_page map q ≡ true
    → lo / 4096 ≤ q
usable_page-ge lo [] q w u = absurd (cc)
usable_page-ge lo (e ∷ es) q w u = ground (arith, usable_page-ge (e.base + e.length) es q w.5)

module _ (b h : ℕ) (fits : h ≤ 2 ^ 52) where
  free_entry-Tracks :
      (e : MemmapEntry) (k : Marks)
      → e.base % 4096 ≡ 0
      → e.length % 4096 ≡ 0
      → 0 < e.length
      → e.base + e.length ≤ u64_max
      → (is_usable e ≡ true → e.base + e.length ≤ h * 4096)
      → Tracks b h k
      → ((q : ℕ) → usable_page (e ∷ []) q ≡ true → bit_test k.mem b q ≡ true)
      → Tracks b h (free_entry b e k)
        × ((q : ℕ)
            → bit_test (free_entry b e k).mem b q
              ≡ (if usable_page (e ∷ []) q && not (q == 0) then false else bit_test k.mem b q))
  unfolding free_entry
  free_entry-Tracks e k base_al len_al some_len end_fits below t was =
      elim (Bool-cases (is_usable e)) [
        | inr u ↦ rw u (t, λ q. ground (arith, u))
        | inl u ↦
            let first = e.base / 4096 in
            let last = (e.base + e.length) / 4096 in
            let f : align_up e.base / 4096 ≡ first = omega arith in
            let l : align_down (add64 e.base e.length) / 4096 ≡ last = omega arith in
            let (t', bits) =
              free_range-Tracks b h fits (last - first) first k t (omega (arith, below u))
                (λ q i. was q (ground (arith, u))) in
            rw (u, f, l) (t', λ q. ground (arith, bits q, u))
      ]

  pub free_entries-Tracks :
      (lo : ℕ) (map : List MemmapEntry) (k : Marks)
      → IsMap lo map
      → EndsBelow (h * 4096) map
      → Tracks b h k
      → ((q : ℕ) → usable_page map q ≡ true → bit_test k.mem b q ≡ true)
      → Tracks b h (free_entries b map k)
        × ((q : ℕ)
            → bit_test (free_entries b map k).mem b q
              ≡ (if usable_page map q && not (q == 0) then false else bit_test k.mem b q))
  unfolding free_entries
  free_entries-Tracks lo [] k w below t was = (t, λ q. refl)
  free_entries-Tracks lo (e ∷ es) k (ge, base_al, len_al, some_len, end_fits, w) (below, rest) t
        was =
      let (t', one) =
        free_entry-Tracks e k base_al len_al some_len end_fits below t
          (λ q u. was q (ground (arith, u))) in
      let (t'', all) =
        free_entries-Tracks (e.base + e.length) es (free_entry b e k) w rest t'
          (λ q u. ground (arith, u, one q, was q, usable_page-ge (e.base + e.length) es q w)) in
      (t'', λ q. ground (arith, one q, all q))

pub usable_page-lt :
    (h : ℕ) (map : List MemmapEntry) (q : ℕ)
    → EndsBelow (h * 4096) map
    → usable_page map q ≡ true
    → q < h
usable_page-lt h [] q w u = absurd (cc)
usable_page-lt h (e ∷ es) q (below, rest) u = ground (arith, usable_page-lt h es q rest)
