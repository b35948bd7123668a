-- ===== src/Loader/Buffers.antt =====
-- bootloader/uefi/main.c: `pages_for_size`, and the sizes of the buffers for the memory map.
use sypas.Base.{
  ℕ, zero, suc, ◌/◌, not, ◌==◌, ◌&&◌, if◌then◌else◌, Option, none, some, add_ok, mul_ok, sub64,
}
use sypas.Loader.Calls.{
  Firmware, allocate_pages, free_pages, get_memory_map, MapAnswer, size_overflow, map_keeps_growing,
  map_alloc, get_memory_map_failed, M, ◌>>=◌, ◌>>◌, pure, call, value_of, map_of, efi_error,
  efi_load_error, efi_buffer_too_small, die, die_if,
}

unfoldable pub pages_for_size : ℕ → Option ℕ
pages_for_size size = elim (add_ok size 4095) [ none ↦ none | some rounded ↦ some (rounded / 4096) ]

pub record Buffers : Type 0 where
  pub mm_pages : ℕ
  pub map_bytes : ℕ
  pub sypas_cap : ℕ
  pub sypas_pages : ℕ
  pub total_pages : ℕ

-- What the first of the two tests computes: the bytes that are asked for, rounded up to pages.
pub record MapSize : Type 0 where
  pub requested : ℕ
  pub pages : ℕ
  pub bytes : ℕ
  pub descriptor_capacity : ℕ

unfoldable pub size_map : ℕ → ℕ → Option MapSize
size_map dsz mmsize = if dsz == 0 then none else elim (mul_ok 32 dsz) [
  | none ↦ none
  | some slack ↦ elim (add_ok mmsize slack) [
    | none ↦ none
    | some requested ↦ elim (pages_for_size requested) [
      | none ↦ none
      | some pages ↦ elim (mul_ok pages 4096) [
        | none ↦ none
        | some bytes ↦ elim (add_ok requested (sub64 dsz 1)) [
          | none ↦ none
          | some sum ↦ some (record {
            requested = requested;
            pages = pages;
            bytes = bytes;
            descriptor_capacity = sum / dsz;
          })
        ]
      ]
    ]
  ]
]

-- The second test; a descriptor may become 33 entries, and an entry has 24 bytes.
unfoldable pub size_output : MapSize → Option Buffers
size_output s = elim (mul_ok s.descriptor_capacity 33) [
  | none ↦ none
  | some map_entries ↦ elim (add_ok map_entries 16) [
    | none ↦ none
    | some cap ↦ elim (mul_ok cap 24) [
      | none ↦ none
      | some bytes ↦ elim (pages_for_size bytes) [
        | none ↦ none
        | some pages ↦ elim (add_ok s.pages pages) [
          | none ↦ none
          | some total ↦ some (record {
            mm_pages = s.pages;
            map_bytes = s.bytes;
            sypas_cap = cap;
            sypas_pages = pages;
            total_pages = total;
          })
        ]
      ]
    ]
  ]
]

unfoldable pub size_buffers : ℕ → ℕ → Option Buffers
size_buffers dsz mmsize = elim (size_map dsz mmsize) [ none ↦ none | some s ↦ size_output s ]

-- The buffers, and the address of the first of them; the second follows at `map_bytes`.
pub record MapBuffer : Type 0 where
  pub buffers : Buffers
  pub mm_buf : ℕ

-- What a round does once it knows the sizes: `none` is that the map or its stride has grown.
unfoldable pub try_buffers : Firmware → ℕ → Buffers → M (Option MapBuffer × MapAnswer)
unfolding die
try_buffers fw dsz b = do
  st ← call fw (allocate_pages 0 b.total_pages 0)
  die_if (efi_error st) map_alloc st
  mm_buf ← value_of fw
  st ← call fw (get_memory_map b.map_bytes)
  answer ← map_of fw
  if not (efi_error st) && answer.descriptor_size == dsz
      then pure (some (record { buffers = b; mm_buf = mm_buf }), answer)
      else (do
        die_if (efi_error st && not (st == efi_buffer_too_small)) get_memory_map_failed st
        _ ← call fw (free_pages mm_buf b.total_pages)
        pure (none, answer))

-- The loop, for so many rounds; kind 0 is AllocateAnyPages.
unfoldable pub grow_from : ℕ → Firmware → ℕ → ℕ → M MapBuffer
grow_from zero fw dsz mmsize = die map_keeps_growing efi_buffer_too_small
grow_from (suc n) fw dsz mmsize = elim (size_buffers dsz mmsize) [
  | none ↦ die size_overflow efi_load_error
  | some b ↦ (do
    (found, answer) ← try_buffers fw dsz b
    elim found [ some m ↦ pure m | none ↦ grow_from n fw answer.descriptor_size answer.size ])
]
