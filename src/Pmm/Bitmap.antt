-- ===== src/Pmm/Bitmap.antt =====
-- kernel/mm/pmm.c: `bit_set`, `bit_clear` and `bit_test` on a bitmap that lies in physical memory at
-- the address `b`, and the number of its clear bits.
use sypas.Base.{
  ℕ, zero, suc, ◌+◌, ◌/◌, ◌%◌, ◌≤◌, ◌<◌, ◌≡◌, refl, Bool, true, false, arith, ◌==◌, if◌then◌else◌,
  Memory, update, IsBytes, byte_test, byte_set, byte_clear, byte_test-set, byte_test-clear,
  byte_set-lt, byte_clear-lt, byte_test-full, Bool-cases, inl, inr,
}

unfoldable pub bit_set : Memory → ℕ → ℕ → Memory
bit_set m b page = update m (b + page / 8) (byte_set (m (b + page / 8)) (page % 8))

unfoldable pub bit_clear : Memory → ℕ → ℕ → Memory
bit_clear m b page = update m (b + page / 8) (byte_clear (m (b + page / 8)) (page % 8))

unfoldable pub bit_test : Memory → ℕ → ℕ → Bool
bit_test m b page = byte_test (m (b + page / 8)) (page % 8)

module _ (m : Memory) (b p : ℕ) (bytes : IsBytes m) where
  pub bit_set-IsBytes : IsBytes (bit_set m b p)
  unfolding bit_set
  bit_set-IsBytes a =
      ground (arith, bytes a, byte_set-lt (m (b + p / 8)) (p % 8) (bytes _) (omega arith))

  pub bit_clear-IsBytes : IsBytes (bit_clear m b p)
  unfolding bit_clear
  bit_clear-IsBytes a =
      ground (arith, bytes a, byte_clear-lt (m (b + p / 8)) (p % 8) (bytes _) (omega arith))

  -- After a write of one bit, each bit reads as written or as before.
  pub bit_test-set :
      (q : ℕ) → bit_test (bit_set m b p) b q ≡ (if q == p then true else bit_test m b q)
  unfolding bit_set bit_test
  bit_test-set q =
      ground
        (arith, byte_test-set (m (b + p / 8)) (p % 8) (q % 8) (bytes _) (omega arith) (omega arith))

  pub bit_test-clear :
      (q : ℕ) → bit_test (bit_clear m b p) b q ≡ (if q == p then false else bit_test m b q)
  unfolding bit_clear bit_test
  bit_test-clear q =
      ground (
        arith,
        byte_test-clear (m (b + p / 8)) (p % 8) (q % 8) (bytes _) (omega arith) (omega arith),
      )

-- A byte 0xFF has its eight pages set.
pub bit_test-full_byte :
    (m : Memory) (b p q : ℕ) → m (b + p / 8) ≡ 255 → q / 8 ≡ p / 8 → bit_test m b q ≡ true
unfolding bit_test
bit_test-full_byte m b p q full e = ground (arith, byte_test-full (q % 8) (omega arith))

-- The number of clear bits among the first `n`.
unfoldable pub clear_count : Memory → ℕ → ℕ → ℕ
clear_count m b zero = 0
clear_count m b (suc n) = if bit_test m b n then clear_count m b n else suc (clear_count m b n)

pub clear_count-le : (m : Memory) (b n : ℕ) → clear_count m b n ≤ n
unfolding clear_count
clear_count-le m b zero = omega arith
clear_count-le m b (suc n) = ground (arith, clear_count-le m b n)

-- The count depends on the bits alone.
pub clear_count-same :
    (m m' : Memory) (b b' n : ℕ)
    → ((q : ℕ) → q < n → bit_test m' b' q ≡ bit_test m b q)
    → clear_count m' b' n ≡ clear_count m b n
unfolding clear_count
clear_count-same m m' b b' zero h = refl
clear_count-same m m' b b' (suc n) h =
    ground (arith, h n, clear_count-same m m' b b' n (λ q l. h q (omega arith)))

-- Two bitmaps that differ at the page `p` alone, clear in the first and set in the second.
module _ (m m' : Memory) (b p : ℕ)
    (h : (q : ℕ) → bit_test m' b q ≡ (if q == p then true else bit_test m b q))
    (was : bit_test m b p ≡ false) where
  pub clear_count-set : (n : ℕ) → p < n → clear_count m b n ≡ suc (clear_count m' b n)
  unfolding clear_count
  clear_count-set zero l = elim l [ ]
  clear_count-set (suc n) l = elim (Bool-cases (n == p)) [
    | inl e ↦ ground (arith, h n, clear_count-same m m' b b n (λ q k. ground (arith, h q)))
    | inr e ↦ ground (arith, h n, clear_count-set n)
  ]

-- Where every bit is set the count is zero, and the other way round.
pub clear_count-all_set :
    (m : Memory) (b n : ℕ) → ((q : ℕ) → q < n → bit_test m b q ≡ true) → clear_count m b n ≡ 0
unfolding clear_count
clear_count-all_set m b zero h = refl
clear_count-all_set m b (suc n) h =
    ground (arith, h n, clear_count-all_set m b n (λ q l. h q (omega arith)))

pub clear_count-pos :
    (m : Memory) (b n p : ℕ) → p < n → bit_test m b p ≡ false → 0 < clear_count m b n
unfolding clear_count
clear_count-pos m b zero p l h = elim l [ ]
clear_count-pos m b (suc n) p l h = elim (Bool-cases (n == p)) [
  | inl e ↦ ground arith
  | inr e ↦ ground (arith, clear_count-pos m b n p)
]
