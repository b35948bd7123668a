-- ===== src/Base/Word.antt =====
-- 64-bit unsigned arithmetic: the wrap-around is written out. `add_ok` and `mul_ok` are the checked
-- operations that elf.c, reloc.c, memory_map.c and main.c of the loader each declare.
use Prim.Native.Nat.{ℕ, zero, suc, ◌+◌, ◌-◌, ◌*◌, ◌/◌, ◌%◌, ◌^◌, ◌≤◌, ◌<◌}
use mathlib.Core.Path.{◌≡◌}
use mathlib.Core.Bool.{◌&&◌, not}
use mathlib.Core.Option.{Option, none, some}
use native.Mathlib.Omega.{arith}
use native.Mathlib.Nat.{le-div_iff_mul-le, mul_comm}
use sypas.Base.Tests.{ltb, ◌==◌, if◌then◌else◌}

abbrev pub word64 : ℕ
word64 = 2 ^ 64

abbrev pub u64_max : ℕ
u64_max = 2 ^ 64 - 1

abbrev pub add64 : ℕ → ℕ → ℕ
add64 a b = (a + b) % 2 ^ 64

-- `-` on ℕ stops at 0, so the modulus is added first.
abbrev pub sub64 : ℕ → ℕ → ℕ
sub64 a b = (a + 2 ^ 64 - b) % 2 ^ 64

abbrev pub page_size : ℕ
page_size = 4096

-- `x & ~(PAGE_SIZE - 1)`
abbrev pub align_down : ℕ → ℕ
align_down x = x - x % 4096

-- `(x + (PAGE_SIZE - 1)) & ~(PAGE_SIZE - 1)`, where the sum wraps.
abbrev pub align_up : ℕ → ℕ
align_up x = align_down (add64 x 4095)

-- `none` is the false return, before `*out` is written.
unfoldable pub add_ok : ℕ → ℕ → Option ℕ
add_ok a b = if ltb (u64_max - b) a then none else some (add64 a b)

unfoldable pub mul_ok : ℕ → ℕ → Option ℕ
mul_ok a b = if not (a == 0) && ltb (u64_max / a) b then none else some ((a * b) % 2 ^ 64)

-- The checked sum is the true sum, and it fits.
pub add_ok-some :
    (a b : ℕ) {c : ℕ}
    → a ≤ u64_max
    → b ≤ u64_max
    → add_ok a b ≡ some c
    → (c ≡ a + b) × (c ≤ u64_max)
unfolding add_ok
add_ok-some a b ha hb h = ground arith

-- A sum that fits is not refused.
pub add_ok_fits : (a b : ℕ) → a + b ≤ u64_max → add_ok a b ≡ some (a + b)
unfolding add_ok
add_ok_fits a b h = ground arith

pub add_ok-none : (a b : ℕ) → b ≤ u64_max → add_ok a b ≡ none → u64_max < a + b
unfolding add_ok
add_ok-none a b hb h = ground arith

-- The checked product is the true product, and it fits.
pub mul_ok-some : (a b : ℕ) {c : ℕ} → mul_ok a b ≡ some c → (c ≡ a * b) × (c ≤ u64_max)
unfolding mul_ok
mul_ok-some zero b {c} h = ground arith
mul_ok-some (suc a) b {c} h =
    let fits : b ≤ u64_max / suc a = ground arith in
    let small = (le-div_iff_mul-le {k = suc a} {x = b} {y = u64_max} (omega arith)).0 fits in
    let flip = mul_comm (suc a) b in ground (arith, small, flip)
