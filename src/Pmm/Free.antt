-- ===== src/Pmm/Free.antt =====
-- kernel/mm/pmm.c: `pmm_free_page`, and the panics of the allocator as values.
use sypas.Base.{
  ℕ, suc, ◌+◌, ◌-◌, ◌*◌, ◌/◌, ◌%◌, ◌^◌, ◌≤◌, ◌<◌, ◌≡◌, refl, true, false, arith, leb, ltb, ◌==◌,
  if◌then◌else◌, not, add64, Result, ok, err, some, ◌≢◌, ◌⊎◌, inl, inr, Bool-cases, ◌∙◌, ap, sym,
  subst, Option,
}
use mathlib.Core.Option.{some-injective}
use sypas.Pmm.Bitmap.{
  bit_set, bit_clear, bit_test, bit_test-set, bit_test-clear, bit_clear-IsBytes, clear_count,
  clear_count-set, clear_count-pos, clear_count-le,
}
use sypas.Pmm.State.{Pmm, IsValid, is_allocated}
use sypas.Pmm.Alloc.{alloc_page}
use sypas.Pmm.AllocCorrect.{Takes, Exhausted, alloc_page-Outcome}

pub data Panic : Type 0 where
  no_usable_memory : Panic
  no_room_for_bitmap : ℕ → Panic
  unaligned out_of_range double_free : ℕ → Panic

unfoldable pub free_page : Pmm → ℕ → Result Panic Pmm
free_page s address =
    let p = address / 4096 in
    if not (address % 4096 == 0)
    then err (unaligned address)
    else if leb s.highest_page p
    then err (out_of_range address)
    else if not (bit_test s.mem s.bitmap p)
    then err (double_free address)
    else ok (record s { mem = bit_clear s.mem s.bitmap p; free_pages = add64 s.free_pages 1 })

-- Of the pages from 1 MiB on, `pmm_free_page` takes exactly the allocated ones at page-aligned
-- addresses below the highest page: then it clears the page's bit and counts it.
abbrev pub Frees : Pmm → ℕ → Pmm → Type 0
Frees s p t =
    (t ≡ record s { mem = bit_clear s.mem s.bitmap p; free_pages = s.free_pages + 1 })
    × ((q : ℕ) → is_allocated t q ≡ (if q == p then false else is_allocated s q))

module _ (s : Pmm) (v : IsValid s) where
  clear_count-clear :
      (p : ℕ)
      → p < s.highest_page
      → is_allocated s p ≡ true
      → clear_count (bit_clear s.mem s.bitmap p) s.bitmap s.highest_page ≡ suc s.free_pages
  clear_count-clear p l taken = rw v.counted (
      clear_count-set (bit_clear s.mem s.bitmap p) s.mem s.bitmap p
        (λ q. ground (arith, bit_test-clear s.mem s.bitmap p v.bytes q))
        (ground (arith, bit_test-clear s.mem s.bitmap p v.bytes p)) s.highest_page l)

  cleared : ℕ → Pmm
  cleared p = record s { mem = bit_clear s.mem s.bitmap p; free_pages = s.free_pages + 1 }

  cleared-IsValid :
      (p : ℕ) → 256 ≤ p → p < s.highest_page → is_allocated s p ≡ true → IsValid (cleared p)
  unfolding cleared
  cleared-IsValid p low l taken = record {
    bytes = bit_clear-IsBytes s.mem s.bitmap p v.bytes;
    fits = v.fits;
    low_tracked = v.low_tracked;
    low_reserved =
        λ q k. ground (arith, bit_test-clear s.mem s.bitmap p v.bytes q, v.low_reserved q);
    cursor_in = v.cursor_in;
    counted = omega (arith, clear_count-clear p l taken);
  }

  -- Freeing an allocated page succeeds, and the state stays valid for a page from 1 MiB on.
  free_page-cleared :
      (p : ℕ)
      → p < s.highest_page
      → is_allocated s p ≡ true
      → (free_page s (p * 4096) ≡ ok (cleared p)) × Frees s p (cleared p)
  unfolding free_page cleared
  free_page-cleared p l taken =
      let d : (p * 4096) / 4096 ≡ p = omega arith in
      let c : s.free_pages + 1 < 2 ^ 64 =
        omega (arith, v.counted, v.fits, clear_count-le s.mem s.bitmap s.highest_page) in
      (rw d (ground (arith, v.fits)), (refl, bit_test-clear s.mem s.bitmap p v.bytes))

  -- On a valid allocator, freeing an allocated page from 1 MiB on succeeds: the page becomes free, no
  -- other page changes, the free count goes up by one and the state stays valid.
  pub free_page-Frees :
      (p : ℕ)
      → 256 ≤ p
      → p < s.highest_page
      → is_allocated s p ≡ true
      → (t : Pmm) × (free_page s (p * 4096) ≡ ok t) × IsValid t × Frees s p t
  free_page-Frees p low l taken =
      let (e, frees) = free_page-cleared p l taken in
      (cleared p, e, cleared-IsValid p low l taken, frees)

-- On a valid allocator pmm_free_page panics for an address that is not aligned, else for one whose
-- page is not tracked, else for a page that is free already, and names that reason. Any other
-- address is that of a tracked page that is allocated: then that page alone becomes free, the free
-- count goes up by one, and the allocator stays valid if the page lies from 1 MiB on.
pub free_page_refuses :
    (s : Pmm) (address : ℕ)
    → IsValid s
    → ((t : Pmm) × (free_page s address ≡ ok t)
        × (address % 4096 ≡ 0)
        × (address / 4096 < s.highest_page)
        × (is_allocated s (address / 4096) ≡ true)
        × Frees s (address / 4096) t
        × ((address / 4096 < 256) ⊎ IsValid t))
      ⊎ ((free_page s address ≡ err (unaligned address)) × (address % 4096 ≢ 0))
      ⊎ ((free_page s address ≡ err (out_of_range address))
          × (address % 4096 ≡ 0)
          × (s.highest_page ≤ address / 4096))
      ⊎ ((free_page s address ≡ err (double_free address))
          × (address % 4096 ≡ 0)
          × (address / 4096 < s.highest_page)
          × (is_allocated s (address / 4096) ≡ false))
unfolding free_page
free_page_refuses s address v = elim (Bool-cases (address % 4096 == 0)) [
  | inr a ↦ inr (inl (rw a refl, ground (arith, a)))
  | inl a ↦ elim (Bool-cases (leb s.highest_page (address / 4096))) [
    | inl b ↦ inr (inr (inl (rw (a, b) refl, ground (arith, a), ground (arith, b))))
    | inr b ↦ elim (Bool-cases (is_allocated s (address / 4096))) [
      | inr c ↦ inr (inr (inr (rw (a, b, c) refl, ground (arith, a), ground (arith, b), c)))
      | inl c ↦
          let p : ℕ = address / 4096 in
          let l : p < s.highest_page = ground (arith, b) in
          let e : p * 4096 ≡ address = ground (arith, a) in
          let (eq, frees) = free_page-cleared s v p l c in
          inl (
            cleared s v p,
            subst (λ x. free_page s x ≡ ok (cleared s v p)) e eq,
            ground (arith, a),
            l,
            c,
            frees,
            elim (Bool-cases (ltb p 256)) [
              | inl low ↦ inl (ground (arith, low))
              | inr high ↦ inr (cleared-IsValid s v p (ground (arith, high)) l c)
            ],
          )
    ]
  ]
]

module _ (s t : Pmm) (v : IsValid s) (p : ℕ) (l : p < s.highest_page)
    (free : is_allocated s p ≡ false)
    (t_eq : t ≡ record s {
      mem = bit_set s.mem s.bitmap p;
      free_pages = s.free_pages - 1;
      cursor = t.cursor;
    }) where
  pub taken-is_allocated : (q : ℕ) → is_allocated t q ≡ (if q == p then true else is_allocated s q)
  taken-is_allocated q = ap (λ x. is_allocated x q) t_eq ∙ bit_test-set s.mem s.bitmap p v.bytes q

  pub taken-highest_page : t.highest_page ≡ s.highest_page
  taken-highest_page = ap (λ x. x.highest_page) t_eq

  pub taken-free_pages : t.free_pages + 1 ≡ s.free_pages
  taken-free_pages = omega (
    arith,
    v.counted,
    ap (λ x. x.free_pages) t_eq,
    clear_count-pos s.mem s.bitmap s.highest_page p l free,
  )

double_free_lem :
    (u : Pmm) (p : ℕ)
    → p < u.highest_page
    → is_allocated u p ≡ false
    → free_page u (p * 4096) ≡ err (double_free (p * 4096))
unfolding free_page
double_free_lem u p l free = let d : (p * 4096) / 4096 ≡ p = omega arith in rw d (ground arith)

-- A page that `pmm_alloc_page` handed out on a valid allocator can be given back: then every page is
-- as before, and so is the free count. Giving it back a second time is the double-free panic.
pub free_page-alloc_page :
    (s t : Pmm) (address : ℕ)
    → IsValid s
    → alloc_page s ≡ some (address, t)
    → address ≢ 0
    → (u : Pmm) × (free_page t address ≡ ok u)
      × IsValid u
      × ((q : ℕ) → is_allocated u q ≡ is_allocated s q)
      × (u.free_pages ≡ s.free_pages)
      × (free_page u address ≡ err (double_free address))
free_page-alloc_page s t address v eq ne =
    let (r, t', eq', w, o) = alloc_page-Outcome s v in
    let same : some (r, t') ≡ some (address, t) = sym eq' ∙ eq in back r t' same w o
  where
    Back : Type 0
    Back =
        (u : Pmm) × (free_page t address ≡ ok u)
        × IsValid u
        × ((q : ℕ) → is_allocated u q ≡ is_allocated s q)
        × (u.free_pages ≡ s.free_pages)
        × (free_page u address ≡ err (double_free address))

    back :
        (r : ℕ) (t' : Pmm)
        → ◌≡◌ {A = Option (ℕ × Pmm)} (some (r, t')) (some (address, t))
        → IsValid t'
        → Exhausted s r t' ⊎ Takes s r t'
        → Back
    back r t' same w (inl (none_free, zero_address, t_eq)) = absurd (ne (cc))
    back r t' same w (inr taken) =
        let pair : ◌≡◌ {A = ℕ × Pmm} (r, t') (address, t) = some-injective _ _ same in
        give_back (subst IsValid (ap (λ x. x.1) pair) w) (subst (λ x. Takes s x.0 x.1) pair taken)
      where
        give_back : IsValid t → Takes s address t → Back
        give_back w (p, l, low, free, e, t_eq) =
            let n = taken-highest_page s t v p l free t_eq in
            let alloc = taken-is_allocated s t v p l free t_eq in
            let (u, u_eq, vu, (shape, bits)) =
              free_page-Frees t w p low (omega (arith, n)) (ground (arith, alloc p)) in
            (
              u,
              subst (λ a. free_page t a ≡ ok u) (sym e) u_eq,
              vu,
              λ q. ground (arith, bits q, alloc q),
              ap (λ x. x.free_pages) shape ∙ taken-free_pages s t v p l free t_eq,
              subst (λ a. free_page u a ≡ err (double_free a)) (sym e)
                  (double_free_lem u p (omega (arith, n, ap (λ x. x.highest_page) shape))
                    (ground (arith, bits p, alloc p))),
            )
