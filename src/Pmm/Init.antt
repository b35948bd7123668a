-- ===== src/Pmm/Init.antt =====
-- kernel/mm/pmm.c: `pmm_init` and `pmm_get_stats`. The map is a list: the loader puts it in memory of
-- type LOADER, which the allocator does not write.
use sypas.Base.{
  ℕ, ◌-◌, ◌/◌, ◌%◌, ltb, leb, ◌==◌, if◌then◌else◌, not, List, [], ◌∷◌, Memory, add64, align_up,
  Option, none, some, Result, ok, err, min,
}
use sypas.BootProto.MemType
use sypas.BootProto.{MemmapEntry, is_usable}
use sypas.Pmm.State.{Pmm}
use sypas.Pmm.Free.{Panic, no_usable_memory, no_room_for_bitmap}
use sypas.Pmm.Marks.{fill, free_entries, reserve_range}

-- What pass 1 adds up.
pub record Totals : Type 0 where
  pub usable_bytes : ℕ
  pub reserved_bytes : ℕ
  pub mmio_bytes : ℕ
  pub max_addr : ℕ

unfoldable pub total_entry : Totals → MemmapEntry → Totals
total_entry t e =
    let end = add64 e.base e.length in
    if is_usable e
    then record t {
      usable_bytes = add64 t.usable_bytes e.length;
      max_addr = if ltb t.max_addr end then end else t.max_addr;
    }
    else if e.type == MemType.mmio
    then record t { mmio_bytes = add64 t.mmio_bytes e.length }
    else record t { reserved_bytes = add64 t.reserved_bytes e.length }

unfoldable pub totals : Totals → List MemmapEntry → Totals
totals t [] = t
totals t (e ∷ es) = totals (total_entry t e) es

abbrev pub no_totals : Totals
no_totals = record { usable_bytes = 0; reserved_bytes = 0; mmio_bytes = 0; max_addr = 0 }

-- Where the bitmap goes in one entry: its usable part from 1 MiB on, if that is large enough.
unfoldable pub place_in : ℕ → MemmapEntry → Option ℕ
place_in bytes e =
    let skip = 0x100000 - e.base in
    if not (is_usable e)
    then none
    else if ltb e.base 0x100000
    then if leb e.length skip
      then none
      else if leb bytes (e.length - skip)
      then some (add64 e.base skip)
      else none
    else if leb bytes e.length
    then some e.base
    else none

-- The first entry that fits. Every address found is at least 1 MiB, so `none` is `bitmap == 0`.
unfoldable pub place : ℕ → List MemmapEntry → Option ℕ
place bytes [] = none
place bytes (e ∷ es) = elim (place_in bytes e) [ some b ↦ some b | none ↦ place bytes es ]

-- `ALIGN_UP(highest_page, 8) / 8`
abbrev pub bytes_for : ℕ → ℕ
bytes_for pages = let x = add64 pages 7 in (x - x % 8) / 8

-- Passes 3 and 4 and the final bookkeeping, for a bitmap at `b`.
unfoldable pub init_at : Memory → List MemmapEntry → Totals → ℕ → Pmm
init_at m map t b =
    let highest = t.max_addr / 4096 in
    let bytes = bytes_for highest in
    let freed = free_entries b map (record { mem = fill bytes 0 b m; free = 0 }) in
    let bm_first = b / 4096 in
    let bm_last = align_up (add64 b bytes) / 4096 in
    let reserved = reserve_range (bm_last - bm_first) bm_first b freed in
    let final = reserve_range (min 256 highest) 0 b reserved in
    record {
      mem = final.mem;
      bitmap = b;
      bitmap_bytes = bytes;
      highest_page = highest;
      free_pages = final.free;
      usable_pages = freed.free;
      allocator_pages = final.free;
      cursor = bm_last;
      usable_bytes = t.usable_bytes;
      reserved_bytes = t.reserved_bytes;
      mmio_bytes = t.mmio_bytes;
    }

unfoldable pub init : Memory → List MemmapEntry → Result Panic Pmm
init m map =
    let t = totals no_totals map in
    if t.max_addr == 0
    then err no_usable_memory
    else let bytes = bytes_for (t.max_addr / 4096) in
      elim (place bytes map) [
        | none ↦ err (no_room_for_bitmap (bytes / 1024))
        | some b ↦ ok (init_at m map t b)
      ]

pub record PmmStats : Type 0 where
  pub usable_pages : ℕ
  pub allocator_pages : ℕ
  pub free_pages : ℕ
  pub usable_bytes : ℕ
  pub reserved_bytes : ℕ
  pub mmio_bytes : ℕ
  pub bitmap_bytes : ℕ

unfoldable pub get_stats : Pmm → PmmStats
get_stats s = record {
  usable_pages = s.usable_pages;
  allocator_pages = s.allocator_pages;
  free_pages = s.free_pages;
  usable_bytes = s.usable_bytes;
  reserved_bytes = s.reserved_bytes;
  mmio_bytes = s.mmio_bytes;
  bitmap_bytes = s.bitmap_bytes;
}
