-- ===== src/Pmm/InitCorrect.antt =====
-- kernel/mm/pmm.c: `pmm_init` on a memory map as the loader hands it over.
use sypas.Base.{
  ℕ, zero, suc, ◌+◌, ◌-◌, ◌*◌, ◌/◌, ◌^◌, ◌≤◌, ◌<◌, ◌≡◌, refl, Bool, true, false, arith, ltb, leb,
  ◌==◌, if◌then◌else◌, ◌&&◌, not, List, add64, align_up, Bool-cases, inl, inr, ◌∙◌, ◌≢◌, Memory,
  IsBytes, min, ok, err, ◌⊎◌, subst, ==→eq,
}
use sypas.BootProto.{MemmapEntry, is_usable, IsMap, usable_page}
use sypas.Pmm.Bitmap.{bit_test, clear_count}
use sypas.Pmm.State.{Pmm, IsValid, is_allocated}
use sypas.Pmm.Free.{no_usable_memory, no_room_for_bitmap}
use sypas.Pmm.Marks.{Marks, fill, free_entries, reserve_range}
use sypas.Pmm.Tracked.{reserve_range-Tracks}
use sypas.Pmm.Ranges.{EndsBelow, fill-Tracks, free_entries-Tracks, usable_page-lt}
use sypas.Pmm.Init.{Totals, totals, no_totals, bytes_for, init_at, init}
use sypas.Pmm.Totals.{bytes_of, is_mmio, is_reserved, Adds, totals-Adds}
use sypas.Pmm.Place.{HasRoom, LacksRoom, place-cases}

-- The usable pages below `n` but page 0, counted one by one.
abbrev pub usable_count : List MemmapEntry → ℕ → ℕ
usable_count map zero = 0
usable_count map (suc n) = (if usable_page map n && not (n == 0) then 1 else 0) + usable_count map n

clear_count-usable :
    (m : Memory) (b : ℕ) (map : List MemmapEntry) (n : ℕ)
    → ((q : ℕ)
        → q < n
        → bit_test m b q ≡ (if usable_page map q && not (q == 0) then false else true))
    → clear_count m b n ≡ usable_count map n
unfolding clear_count
clear_count-usable m b map zero h = refl
clear_count-usable m b map (suc n) h =
    ground (arith, h n, clear_count-usable m b map n (λ q l. h q (omega arith)))

-- The pages that hold the bitmap's bytes.
abbrev pub in_bitmap : Pmm → ℕ → Bool
in_bitmap s q = leb (s.bitmap / 4096) q && ltb (q * 4096) (s.bitmap + s.bitmap_bytes)

-- The allocator that belongs to a map.
pub record Initialised (map : List MemmapEntry) (s : Pmm) : Type 0 where
  -- Every usable range is tracked, and the bitmap has a bit for each tracked page.
  pub tracks : EndsBelow (s.highest_page * 4096) map
  pub room : s.highest_page ≤ s.bitmap_bytes * 8
  -- The bitmap lies in usable pages from 1 MiB on.
  pub placed : HasRoom map (s.highest_page * 4096) s.bitmap_bytes s.bitmap
  -- A page is free exactly if it is usable, from 1 MiB on, and not of the bitmap.
  pub bits :
      (q : ℕ)
      → q < s.highest_page
      → is_allocated s q ≡ not (usable_page map q && leb 256 q && not (in_bitmap s q))
  pub bytes : IsBytes s.mem
  pub fits : s.highest_page ≤ 2 ^ 52
  pub low_tracked : 256 ≤ s.highest_page
  -- The statistics are counts of the bits and sums over the map.
  pub counted : s.free_pages ≡ clear_count s.mem s.bitmap s.highest_page
  pub all_free : s.allocator_pages ≡ s.free_pages
  pub candidates : s.usable_pages ≡ usable_count map s.highest_page
  pub usable_sum : s.usable_bytes ≡ bytes_of is_usable map
  pub reserved_sum : s.reserved_bytes ≡ bytes_of is_reserved map
  pub mmio_sum : s.mmio_bytes ≡ bytes_of is_mmio map
  -- The search begins behind the bitmap, at the end of memory at the latest.
  pub cursor_at : s.cursor ≡ (s.bitmap + s.bitmap_bytes + 4095) / 4096
  pub cursor_le : s.cursor ≤ s.highest_page

module _ (m : Memory) (map : List MemmapEntry) (t : Totals) (b : ℕ) (bytes : IsBytes m)
    (w : IsMap 0 map) (adds : Adds no_totals map t)
    (place : HasRoom map t.max_addr (bytes_for (t.max_addr / 4096)) b) where
  pub init_at-Initialised : Initialised map (init_at m map t b)
  unfolding init_at
  init_at-Initialised =
      let h : ℕ = t.max_addr / 4096 in
      let n : ℕ = bytes_for h in
      let top : t.max_addr ≡ h * 4096 = omega (arith, adds.aligned) in
      let fits : h ≤ 2 ^ 52 = omega (arith, adds.below) in
      let enough : h ≤ n * 8 = omega (arith, fits) in
      let below : EndsBelow (h * 4096) map = subst (λ x. EndsBelow x map) top adds.ends in
      let room : HasRoom map (h * 4096) n b = subst (λ x. HasRoom map x n b) top place in
      let start : Marks = record { mem = fill n 0 b m; free = 0 } in
      let (t0, full) = fill-Tracks m b h n bytes enough in
      let (t1, bits1) =
        free_entries-Tracks b h fits 0 map start w below t0
          (λ q u. full q (usable_page-lt h map q below u)) in
      let freed : Marks = free_entries b map start in
      let first : ℕ = b / 4096 in
      let last : ℕ = align_up (add64 b n) / 4096 in
      let last_eq : last ≡ (b + n + 4095) / 4096 =
        omega (arith, room.below, adds.below, adds.aligned, top) in
      let last_le : last ≤ h = omega (arith, room.below, last_eq) in
      let low : 256 ≤ h = omega (arith, room.high, room.below) in
      let (t2, bits2) =
        reserve_range-Tracks b h fits (last - first) first freed t1
          (omega (arith, last_le, room.high, last_eq)) in
      let reserved : Marks = reserve_range (last - first) first b freed in
      let (t3, bits3) = reserve_range-Tracks b h fits (min 256 h) 0 reserved t2 (omega arith) in
      record {
        tracks = below;
        room = enough;
        placed = room;
        bits = λ q l. ground (arith, bits3 q, bits2 q, bits1 q, full q l, last_eq, low);
        bytes = t3.bytes;
        fits = fits;
        low_tracked = low;
        counted = t3.counted;
        all_free = refl;
        candidates =
            t1.counted
            ∙ clear_count-usable freed.mem b map h (λ q l. ground (arith, bits1 q, full q l));
        usable_sum = omega (arith, adds.usable);
        reserved_sum = omega (arith, adds.reserved);
        mmio_sum = omega (arith, adds.mmio);
        cursor_at = last_eq;
        cursor_le = last_le;
      }

-- The number of bytes of the bitmap for a map.
abbrev pub bitmap_size : List MemmapEntry → ℕ
bitmap_size map = bytes_for ((totals no_totals map).max_addr / 4096)

-- On any memory and any map that is sorted, page-aligned and without overlap, `pmm_init` panics for
-- lack of usable memory only where no page is usable, panics for lack of room only where no usable
-- range has the bitmap's size from 1 MiB on, and else sets the allocator up: exactly the usable
-- pages from 1 MiB on that the bitmap does not take are free, and the statistics count them.
pub init-Initialised :
    (m : Memory) (map : List MemmapEntry)
    → IsBytes m
    → IsMap 0 map
    → ((init m map ≡ err no_usable_memory) × ((q : ℕ) → usable_page map q ≡ false))
      ⊎ ((init m map ≡ err (no_room_for_bitmap (bitmap_size map / 1024)))
          × LacksRoom (bitmap_size map) map)
      ⊎ ((s : Pmm) × (init m map ≡ ok s) × Initialised map s)
unfolding init
init-Initialised m map bytes w =
    let t : Totals = totals no_totals map in
    let adds : Adds no_totals map t =
      totals-Adds no_totals 0 map w (omega arith) (omega arith) (omega arith) in
    elim (Bool-cases (t.max_addr == 0)) [
      | inl e ↦ inl (
        rw e,
        λ q.
            ground (
              arith,
              usable_page-lt 0 map q (subst (λ x. EndsBelow x map) (==→eq _ _ e) adds.ends),
            ),
      )
      | inr e ↦
          elim (place-cases 0 (bitmap_size map) t.max_addr map w adds.ends
            (ground (arith, adds.aligned, adds.below))) [
              | inl (b, eq, room) ↦ inr (
                  inr (
                    init_at m map t b,
                    rw (e, eq),
                    init_at-Initialised m map t b bytes w adds room,
                  ))
              | inr (eq, lacks) ↦ inr (inl (rw (e, eq), lacks))
            ]
    ]

-- An allocator that `pmm_init` set up is valid, if the bitmap does not end at the very end of the
-- tracked memory.
pub Initialised-IsValid :
    (map : List MemmapEntry) (s : Pmm) → Initialised map s → s.cursor ≢ s.highest_page → IsValid s
Initialised-IsValid map s i ne = record {
  bytes = i.bytes;
  fits = i.fits;
  low_tracked = i.low_tracked;
  low_reserved = λ p l. ground (arith, i.bits p, i.low_tracked);
  cursor_in = omega (arith, i.cursor_le);
  counted = i.counted;
}
