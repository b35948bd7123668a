-- ===== src/BootProto.antt =====
-- bootloader/protocols/sypas_bootproto.h: the memory map that the loader hands to the kernel, and
-- what both sides rely on.
pub mod MemType
pub mod Info
use sypas.Base.{
  ℕ, ◌+◌, ◌-◌, ◌*◌, ◌/◌, ◌%◌, ◌^◌, ◌≤◌, ◌<◌, ◌≡◌, List, [], ◌∷◌, Bool, true, false, ◌==◌, leb, ltb,
  ◌&&◌, ◌||◌, u64_max,
}

pub record MemmapEntry : Type 0 where
  pub base : ℕ
  pub length : ℕ
  pub type : ℕ
  pub reserved : ℕ

abbrev pub end_of : MemmapEntry → ℕ
end_of e = e.base + e.length

abbrev pub is_usable : MemmapEntry → Bool
is_usable e = e.type == MemType.usable

-- A map from the address `lo` on: sorted, not overlapping, page-aligned, without empty ranges, and
-- below 2 ^ 64.
abbrev pub IsMap : ℕ → List MemmapEntry → Type 0
IsMap lo [] = Unit {0}
IsMap lo (e ∷ es) =
    (lo ≤ e.base)
    × (e.base % 4096 ≡ 0)
    × (e.length % 4096 ≡ 0)
    × (0 < e.length)
    × (e.base + e.length ≤ u64_max)
    × IsMap (e.base + e.length) es

-- Whether a page lies in a usable range of the map.
abbrev pub usable_page : List MemmapEntry → ℕ → Bool
usable_page [] q = false
usable_page (e ∷ es) q =
    (is_usable e && leb (e.base / 4096) q && ltb q ((e.base + e.length) / 4096)) || usable_page es q
