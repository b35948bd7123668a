-- ===== src/Pmm/InitAlloc.antt =====
-- kernel/mm/pmm.c: `pmm_alloc_page` on the allocator that `pmm_init` has set up.
use sypas.Base.{
  ℕ, ◌*◌, ◌≤◌, ◌≡◌, ◌≢◌, true, false, arith, subst, ◌==◌, if◌then◌else◌, List, Memory, IsBytes, ok,
  some, ◌⊎◌, inl, inr,
}
use sypas.BootProto.{MemmapEntry, IsMap, usable_page}
use sypas.Pmm.State.{Pmm, IsValid, is_allocated}
use sypas.Pmm.Alloc.{alloc_page}
use sypas.Pmm.AllocCorrect.{Exhausted, Takes, alloc_page-Outcome}
use sypas.Pmm.Free.{taken-is_allocated}
use sypas.Pmm.Init.{init}
use sypas.Pmm.InitCorrect.{Initialised, init-Initialised, Initialised-IsValid, in_bitmap}

-- What `pmm_init` gives when it returns belongs to the map.
pub init_ok-Initialised :
    (m : Memory) (map : List MemmapEntry) (s : Pmm)
    → IsBytes m
    → IsMap 0 map
    → init m map ≡ ok s
    → Initialised map s
init_ok-Initialised m map s bytes w e = elim (init-Initialised m map bytes w) [
  | inl (e', none_usable) ↦ absurd (cc)
  | inr (inl (e', lacks)) ↦ absurd (cc)
  | inr (inr (s', e', i)) ↦ subst (Initialised map) (cc) i
]

-- A page that the map has as usable, from 1 MiB on, and that does not hold the bitmap: it was free,
-- and is the only one that is taken.
pub record FirstPage (map : List MemmapEntry) (s : Pmm) (r : ℕ) (t : Pmm) : Type 0 where
  pub page : ℕ
  pub address : r ≡ page * 4096
  pub usable : usable_page map page ≡ true
  pub high : 256 ≤ page
  pub apart : in_bitmap s page ≡ false
  pub taken : (q : ℕ) → is_allocated t q ≡ (if q == page then true else is_allocated s q)

first-cases :
    (map : List MemmapEntry) (s : Pmm) (r : ℕ) (t : Pmm)
    → IsValid s
    → Initialised map s
    → Exhausted s r t ⊎ Takes s r t
    → ((s.free_pages ≡ 0) × (r ≡ 0)) ⊎ FirstPage map s r t
first-cases map s r t v i (inl (empty, zero_address, e)) = inl (empty, zero_address)
first-cases map s r t v i (inr (p, l, low, free, e, t_eq)) = inr (record {
  page = p;
  address = e;
  usable = ground (arith, i.bits p l);
  high = low;
  apart = ground (arith, i.bits p l);
  taken = taken-is_allocated s t v p l free t_eq;
})

-- On any memory of bytes and any map that is sorted, page-aligned and without overlap, where
-- pmm_init returns and its cursor does not stand at the end of the tracked memory, the allocator
-- is valid and the first call of pmm_alloc_page returns. It gives 0 if no page is free; else it
-- gives, and marks, a page that the map has as usable, from 1 MiB on, and that does not hold the
-- bitmap.
pub init-alloc_page :
    (m : Memory) (map : List MemmapEntry) (s : Pmm)
    → IsBytes m
    → IsMap 0 map
    → init m map ≡ ok s
    → s.cursor ≢ s.highest_page
    → IsValid s
      × ((r : ℕ) × (t : Pmm) × (alloc_page s ≡ some (r, t))
          × IsValid t
          × (((s.free_pages ≡ 0) × (r ≡ 0)) ⊎ FirstPage map s r t))
init-alloc_page m map s bytes w e ne =
    let i : Initialised map s = init_ok-Initialised m map s bytes w e in
    let v : IsValid s = Initialised-IsValid map s i ne in
    let (r, t, eq, vt, outcome) = alloc_page-Outcome s v in
    (v, (r, t, eq, vt, first-cases map s r t v i outcome))
