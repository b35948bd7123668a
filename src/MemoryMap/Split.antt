-- ===== src/MemoryMap/Split.antt =====
-- bootloader/uefi/memory_map.c: `next_kernel_segment`, and the loop that splits a loader range around
-- the kernel's segments.
use sypas.Base.{
  ℕ, zero, suc, Bool, true, false, ltb, leb, ◌&&◌, ◌||◌, if◌then◌else◌, List, [], ◌∷◌, Option, none,
  some, Result, ok, err, add_ok, sub64,
}
use sypas.BootProto.{MemmapEntry}
use sypas.BootProto.MemType
use sypas.Elf.Format.{Segment}
use sypas.MemoryMap.Types.{MapError, output_overflow, out_of_fuel}
use sypas.MemoryMap.Append.{append}

-- Whether a segment's pages meet the addresses from `cursor` to `end`, as the loop tests it.
unfoldable pub meets : ℕ → ℕ → Segment → Bool
meets cursor end s = if leb s.page_end cursor || leb end s.page_base then false else true

-- The lower of the best segment so far and the next one, if that one meets the addresses.
unfoldable pub pick : ℕ → ℕ → Option Segment → Segment → Option Segment
pick cursor end none s = if meets cursor end s then some s else none
pick cursor end (some best) s =
    if meets cursor end s && ltb s.page_base best.page_base then some s else some best

unfoldable pub next_from : ℕ → ℕ → Option Segment → List Segment → Option Segment
next_from cursor end best [] = best
next_from cursor end best (s ∷ segs) = next_from cursor end (pick cursor end best s) segs

unfoldable pub next_kernel_segment : List Segment → ℕ → ℕ → Option Segment
next_kernel_segment segs cursor end = next_from cursor end none segs

-- What the translation changes: the output, and the count of bytes given to the kernel.
pub record Output : Type 0 where
  pub out : List MemmapEntry
  pub tagged : ℕ

-- A round: the part before the segment, then the segment's part, and the new cursor.
unfoldable pub split_round : ℕ → ℕ → ℕ → ℕ → Segment → Output → Result MapError (Output × ℕ)
split_round cap type cursor end s o =
    let lo = if ltb cursor s.page_base then s.page_base else cursor in
    let hi = if ltb s.page_end end then s.page_end else end in
    elim (append cap o.out cursor lo type) [
      | err e ↦ err e
      | ok before ↦ elim (append cap before lo hi MemType.kernel) [
        | err e ↦ err e
        | ok after ↦ elim (add_ok o.tagged (sub64 hi lo)) [
          | none ↦ err output_overflow
          | some tagged ↦ ok (record { out = after; tagged = tagged }, hi)
        ]
      ]
    ]

-- `for (;;)` over the segments that meet what is left of the range.
unfoldable pub split : ℕ → ℕ → List Segment → ℕ → ℕ → ℕ → Output → Result MapError (Output × ℕ)
split zero cap segs type cursor end o = err out_of_fuel
split (suc fuel) cap segs type cursor end o = elim (next_kernel_segment segs cursor end) [
  | none ↦ ok (o, cursor)
  | some s ↦ elim (split_round cap type cursor end s o) [
    | err e ↦ err e
    | ok (o', hi) ↦ split fuel cap segs type hi end o'
  ]
]
