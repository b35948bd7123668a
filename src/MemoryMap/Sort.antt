-- ===== src/MemoryMap/Sort.antt =====
-- bootloader/uefi/memory_map.c: `sort_descriptors`, an insertion sort in place. The array of
-- descriptors is a list; a copy of `descriptor_size` bytes moves one whole item.
use sypas.Base.{ℕ, zero, suc, ◌+◌, ◌-◌, true, false, leb, List, [], length, get_or, set}
use sypas.MemoryMap.Types.{Descriptor}

-- What a read outside the array would give; the sort makes none.
abbrev pub no_descriptor : Descriptor
no_descriptor = record {
  type = 0;
  pad = 0;
  physical_start = 0;
  virtual_start = 0;
  number_of_pages = 0;
  attribute = 0;
  extension = [];
}

-- `while (j > 0)`: items that start behind the key move up by one place. The index where the loop
-- stops, and the array.
unfoldable pub shift : ℕ → ℕ → List Descriptor → ℕ × List Descriptor
shift zero key items = (0, items)
shift (suc j) key items =
    let previous = get_or items j no_descriptor in
    elim (leb previous.physical_start key) [
      | true ↦ (suc j, items)
      | false ↦ shift j key (set items (suc j) previous)
    ]

unfoldable pub insert_at : ℕ → List Descriptor → List Descriptor
insert_at i items =
    let temporary = get_or items i no_descriptor in
    let (j, shifted) = shift i temporary.physical_start items in set shifted j temporary

unfoldable pub sort_from : ℕ → ℕ → List Descriptor → List Descriptor
sort_from zero i items = items
sort_from (suc n) i items = sort_from n (i + 1) (insert_at i items)

unfoldable pub sort_descriptors : List Descriptor → List Descriptor
sort_descriptors items = sort_from (length items - 1) 1 items
