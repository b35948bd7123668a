-- ===== src/Pmm/Tracked.antt =====
-- kernel/mm/pmm.c: what the loops of `pmm_init` do to the bits, and that `free_pages` counts the clear
-- ones throughout.
use sypas.Base.{
  ℕ, zero, suc, ◌+◌, ◌^◌, ◌≤◌, ◌<◌, ◌≡◌, Bool, true, false, arith, ltb, leb, ◌==◌, if◌then◌else◌,
  ◌&&◌, not, IsBytes, add64, sub64, Bool-cases, inl, inr,
}
use sypas.Pmm.Bitmap.{
  bit_set, bit_clear, bit_test, bit_test-set, bit_test-clear, bit_set-IsBytes, bit_clear-IsBytes,
  clear_count, clear_count-set, clear_count-le,
}
use sypas.Pmm.Marks.{Marks, free_one, free_range, reserve_one, reserve_range}

-- The pages from `p` on, `n` of them.
abbrev pub in_range : ℕ → ℕ → ℕ → Bool
in_range p n q = leb p q && ltb q (p + n)

pub record Tracks (b h : ℕ) (k : Marks) : Type 0 where
  pub bytes : IsBytes k.mem
  pub counted : k.free ≡ clear_count k.mem b h

module _ (b h : ℕ) (fits : h ≤ 2 ^ 52) where
  free_one-Tracks :
      (p : ℕ) (k : Marks)
      → Tracks b h k
      → p < h
      → bit_test k.mem b p ≡ true
      → Tracks b h (free_one b p k)
        × ((q : ℕ)
            → bit_test (free_one b p k).mem b q
              ≡ (if q == p && not (q == 0) then false else bit_test k.mem b q))
  unfolding free_one
  free_one-Tracks p k t l was = elim (Bool-cases (p == 0)) [
    | inl e ↦ rw e (t, λ q. ground (arith, e))
    | inr e ↦ rw e (
      record { bytes = bit_clear-IsBytes k.mem b p t.bytes; counted = count },
      λ q. ground (arith, bit_test-clear k.mem b p t.bytes q),
    )
  ]
    where
      count : add64 k.free 1 ≡ clear_count (bit_clear k.mem b p) b h
      count = omega (
        arith,
        t.counted,
        clear_count-le k.mem b h,
        clear_count-set (bit_clear k.mem b p) k.mem b p
            (λ q. ground (arith, was, bit_test-clear k.mem b p t.bytes q))
            (ground (arith, bit_test-clear k.mem b p t.bytes p)) h l,
      )

  pub free_range-Tracks :
      (n p : ℕ) (k : Marks)
      → Tracks b h k
      → p + n ≤ h
      → ((q : ℕ) → in_range p n q ≡ true → bit_test k.mem b q ≡ true)
      → Tracks b h (free_range n p b k)
        × ((q : ℕ)
            → bit_test (free_range n p b k).mem b q
              ≡ (if in_range p n q && not (q == 0) then false else bit_test k.mem b q))
  unfolding free_range
  free_range-Tracks zero p k t l was = (t, λ q. ground arith)
  free_range-Tracks (suc n) p k t l was =
      let (t', one) = free_one-Tracks p k t (omega arith) (was p (ground arith)) in
      let (t'', all) =
        free_range-Tracks n (p + 1) (free_one b p k) t' (omega arith)
          (λ q i. ground (arith, one q, was q)) in
      (t'', λ q. ground (arith, one q, all q))

  reserve_one-Tracks :
      (p : ℕ) (k : Marks)
      → Tracks b h k
      → p < h
      → Tracks b h (reserve_one b p k)
        × ((q : ℕ)
            → bit_test (reserve_one b p k).mem b q ≡ (if q == p then true else bit_test k.mem b q))
  unfolding reserve_one
  reserve_one-Tracks p k t l = elim (Bool-cases (bit_test k.mem b p)) [
    | inl e ↦ rw e (t, λ q. ground (arith, e))
    | inr e ↦ rw e (
      record { bytes = bit_set-IsBytes k.mem b p t.bytes; counted = count e },
      λ q. bit_test-set k.mem b p t.bytes q,
    )
  ]
    where
      count : bit_test k.mem b p ≡ false → sub64 k.free 1 ≡ clear_count (bit_set k.mem b p) b h
      count was = omega (
        arith,
        t.counted,
        clear_count-le k.mem b h,
        clear_count-set k.mem (bit_set k.mem b p) b p (bit_test-set k.mem b p t.bytes) was h l,
      )

  pub reserve_range-Tracks :
      (n p : ℕ) (k : Marks)
      → Tracks b h k
      → p + n ≤ h
      → Tracks b h (reserve_range n p b k)
        × ((q : ℕ)
            → bit_test (reserve_range n p b k).mem b q
              ≡ (if in_range p n q then true else bit_test k.mem b q))
  unfolding reserve_range
  reserve_range-Tracks zero p k t l = (t, λ q. ground arith)
  reserve_range-Tracks (suc n) p k t l =
      let (t', one) = reserve_one-Tracks p k t (omega arith) in
      let (t'', all) = reserve_range-Tracks n (p + 1) (reserve_one b p k) t' (omega arith) in
      (t'', λ q. ground (arith, one q, all q))
