-- ===== src/Base/Bits.antt =====
-- One bit of a byte, as the bitmap code of the kernel reads and writes it: laws by a table over all
-- bytes and bit numbers.
use Prim.Native.Nat.{ℕ, zero, suc, ◌-◌, ◌^◌, ◌<◌, bit_and, bit_or}
use mathlib.Core.Path.{◌≡◌, refl}
use mathlib.Core.Bool.{Bool, true, false, ◌&&◌, not}
use native.Mathlib.Omega.{arith}
use sypas.Base.Tests.{ltb, ◌==◌, if◌then◌else◌}

-- `byte & (1 << k)` as a truth value.
unfoldable pub byte_test : ℕ → ℕ → Bool
byte_test b k = not (bit_and b (2 ^ k) == 0)

-- `byte |= (1 << k)`
unfoldable pub byte_set : ℕ → ℕ → ℕ
byte_set b k = bit_or b (2 ^ k)

-- `byte &= ~(1 << k)`: of the mask only the low eight bits meet the byte.
unfoldable pub byte_clear : ℕ → ℕ → ℕ
byte_clear b k = bit_and b (255 - 2 ^ k)

-- Whether a test holds of every number under a bound.
each_under : (ℕ → Bool) → ℕ → Bool
each_under test zero = true
each_under test (suc bound) = each_under test bound && test bound

each_under-apply :
    (test : ℕ → Bool) (bound k : ℕ) → k < bound → each_under test bound ≡ true → test k ≡ true
unfolding each_under
each_under-apply test zero k in_bound all = elim in_bound [ ]
each_under-apply test (suc bound) k in_bound all = ground (arith, each_under-apply test bound k)

iff : Bool → Bool → Bool
iff true b = b
iff false b = not b

iff→eq : (a b : Bool) → iff a b ≡ true → a ≡ b
unfolding iff
iff→eq a b h = ground arith

-- What the table checks of a byte `b`, a bit `k` that is changed and a bit `j` that is read.
entry : ℕ → ℕ → ℕ → Bool
entry b k j =
    iff (byte_test (byte_set b k) j) (if j == k then true else byte_test b j)
    && iff (byte_test (byte_clear b k) j) (if j == k then false else byte_test b j)
    && ltb (byte_set b k) 256
    && ltb (byte_clear b k) 256
    && byte_test 255 k

table : each_under (λ b. each_under (λ k. each_under (entry b k) 8) 8) 256 ≡ true
unfolding each_under entry iff byte_test byte_set byte_clear
table = refl

entry-true : (b k j : ℕ) → b < 256 → k < 8 → j < 8 → entry b k j ≡ true
entry-true b k j hb hk hj =
    let row : each_under (λ k. each_under (entry b k) 8) 8 ≡ true =
      each_under-apply (λ b. each_under (λ k. each_under (entry b k) 8) 8) 256 b hb table in
    let cell : each_under (entry b k) 8 ≡ true =
      each_under-apply (λ k. each_under (entry b k) 8) 8 k hk row in
    each_under-apply (entry b k) 8 j hj cell

pub byte_test-set :
    (b k j : ℕ)
    → b < 256
    → k < 8
    → j < 8
    → byte_test (byte_set b k) j ≡ (if j == k then true else byte_test b j)
unfolding entry
byte_test-set b k j hb hk hj = ground (
  arith,
  entry-true b k j hb hk hj,
  iff→eq (byte_test (byte_set b k) j) (if j == k then true else byte_test b j),
)

pub byte_test-clear :
    (b k j : ℕ)
    → b < 256
    → k < 8
    → j < 8
    → byte_test (byte_clear b k) j ≡ (if j == k then false else byte_test b j)
unfolding entry
byte_test-clear b k j hb hk hj = ground (
  arith,
  entry-true b k j hb hk hj,
  iff→eq (byte_test (byte_clear b k) j) (if j == k then false else byte_test b j),
)

pub byte_set-lt : (b k : ℕ) → b < 256 → k < 8 → byte_set b k < 256
unfolding entry
byte_set-lt b k hb hk = ground (arith, entry-true b k 0 hb hk (omega arith))

pub byte_clear-lt : (b k : ℕ) → b < 256 → k < 8 → byte_clear b k < 256
unfolding entry
byte_clear-lt b k hb hk = ground (arith, entry-true b k 0 hb hk (omega arith))

pub byte_test-full : (k : ℕ) → k < 8 → byte_test 255 k ≡ true
unfolding entry
byte_test-full k hk = ground (arith, entry-true 0 k 0 (omega arith) hk (omega arith))
