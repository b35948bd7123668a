-- ===== src/Pmm/State.antt =====
-- kernel/mm/pmm.c: the static variables, with the memory that holds the bitmap; the invariant of an
-- initialised allocator.
use sypas.Base.{ℕ, ◌^◌, ◌≤◌, ◌<◌, ◌≡◌, Bool, true, Memory, IsBytes}
use sypas.Pmm.Bitmap.{bit_test, clear_count}

pub record Pmm : Type 0 where
  pub mem : Memory
  pub bitmap : ℕ
  pub bitmap_bytes : ℕ
  pub highest_page : ℕ
  pub free_pages : ℕ
  pub usable_pages : ℕ
  pub allocator_pages : ℕ
  pub cursor : ℕ
  pub usable_bytes : ℕ
  pub reserved_bytes : ℕ
  pub mmio_bytes : ℕ

-- Whether the allocator has the page free.
abbrev pub is_allocated : Pmm → ℕ → Bool
is_allocated s page = bit_test s.mem s.bitmap page

pub record IsValid (s : Pmm) : Type 0 where
  pub bytes : IsBytes s.mem
  -- addresses of pages fit in 64 bits
  pub fits : s.highest_page ≤ 2 ^ 52
  pub low_tracked : 256 ≤ s.highest_page
  -- the low 1 MiB is never handed out
  pub low_reserved : (p : ℕ) → p < 256 → is_allocated s p ≡ true
  pub cursor_in : s.cursor < s.highest_page
  pub counted : s.free_pages ≡ clear_count s.mem s.bitmap s.highest_page
