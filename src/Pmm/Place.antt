-- ===== src/Pmm/Place.antt =====
-- kernel/mm/pmm.c: where `pmm_init` puts the bitmap.
use sypas.Base.{
  ℕ, ◌+◌, ◌*◌, ◌/◌, ◌%◌, ◌≤◌, ◌<◌, ◌≡◌, refl, true, arith, ◌⊎◌, Option-cases, List, [], ◌∷◌, inl,
  inr, u64_max, none, some,
}
use sypas.BootProto.{MemmapEntry, is_usable, IsMap, usable_page}
use sypas.Pmm.Init.{place_in, place}
use sypas.Pmm.Ranges.{EndsBelow}

-- A page-aligned address from 1 MiB on whose `bytes` bytes lie in usable pages below `top`.
pub record HasRoom (map : List MemmapEntry) (top bytes b : ℕ) : Type 0 where
  pub high : 0x100000 ≤ b
  pub aligned : b % 4096 ≡ 0
  pub below : b + bytes ≤ top
  pub inside : (q : ℕ) → b / 4096 ≤ q → q * 4096 < b + bytes → usable_page map q ≡ true

-- No usable range has so many bytes from 1 MiB on.
abbrev pub LacksRoom : ℕ → List MemmapEntry → Type 0
LacksRoom bytes [] = Unit {0}
LacksRoom bytes (e ∷ es) =
    (is_usable e ≡ true
      → (e.base + e.length < e.base + bytes) ⊎ (e.base + e.length < 0x100000 + bytes))
    × LacksRoom bytes es

place_in-HasRoom :
    (bytes top b : ℕ) (e : MemmapEntry)
    → e.base % 4096 ≡ 0
    → e.length % 4096 ≡ 0
    → e.base + e.length ≤ u64_max
    → (is_usable e ≡ true → e.base + e.length ≤ top)
    → place_in bytes e ≡ some b
    → HasRoom (e ∷ []) top bytes b
unfolding place_in
place_in-HasRoom bytes top b e base_al len_al fits below eq = record {
  high = ground arith;
  aligned = ground arith;
  below = ground arith;
  inside = λ q l r. ground arith;
}

place_in-none :
    (bytes : ℕ) (e : MemmapEntry)
    → 0 < bytes
    → place_in bytes e ≡ none
    → is_usable e ≡ true
    → (e.base + e.length < e.base + bytes) ⊎ (e.base + e.length < 0x100000 + bytes)
unfolding place_in
place_in-none bytes e pos eq u = ground arith

-- `place` finds an address with room, or there is none.
pub place-cases :
    (lo bytes top : ℕ) (map : List MemmapEntry)
    → IsMap lo map
    → EndsBelow top map
    → 0 < bytes
    → ((b : ℕ) × (place bytes map ≡ some b) × HasRoom map top bytes b)
      ⊎ ((place bytes map ≡ none) × LacksRoom bytes map)
unfolding place
place-cases lo bytes top [] w below pos = inr (refl, tt)
place-cases lo bytes top (e ∷ es) (ge, base_al, len_al, some_len, end_fits, w) (below, rest) pos =
    elim (Option-cases (place_in bytes e)) [
      | inl eq ↦ elim (place-cases (e.base + e.length) bytes top es w rest pos) [
        | inl (b, eq', room) ↦ inl (
          b,
          rw (eq, place) eq',
          record {
            high = room.high;
            aligned = room.aligned;
            below = room.below;
            inside = λ q l r. ground (arith, room.inside q l r);
          },
        )
        | inr (eq', lacks) ↦ inr (rw (eq, place) eq', (place_in-none bytes e pos eq, lacks))
      ]
      | inr (b, eq) ↦
          let room = place_in-HasRoom bytes top b e base_al len_al end_fits below eq in
          inl (
            b,
            rw (eq, place),
            record {
              high = room.high;
              aligned = room.aligned;
              below = room.below;
              inside = λ q l r. ground (arith, room.inside q l r);
            },
          )
    ]
