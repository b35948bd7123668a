-- ===== src/Base/Bytes.antt =====
-- Little-endian fields of 1, 2, 4 and 8 bytes, as a cast of a byte buffer to a packed struct reads
-- them on x86-64.
use Prim.Native.Nat.{ℕ, ◌+◌, ◌-◌, ◌*◌, ◌/◌, ◌%◌, ◌^◌, ◌≤◌, ◌<◌}
use mathlib.Core.Bool.{true, ◌&&◌}
use mathlib.Core.Logic.{◌⊎◌, inl, inr}
use mathlib.Core.Path.{◌≡◌, refl}
use native.Mathlib.Omega.{arith}
use sypas.Base.Tests.{leb, ltb, if◌then◌else◌}
use sypas.Base.Store.{Memory, IsBytes}

abbrev pub u8_at : Memory → ℕ → ℕ
u8_at m a = m a

unfoldable pub u16_at : Memory → ℕ → ℕ
u16_at m a = m a + 256 * m (a + 1)

unfoldable pub u32_at : Memory → ℕ → ℕ
u32_at m a = u16_at m a + 2 ^ 16 * u16_at m (a + 2)

unfoldable pub u64_at : Memory → ℕ → ℕ
u64_at m a = u32_at m a + 2 ^ 32 * u32_at m (a + 4)

module _ (m : Memory) (a : ℕ) (bytes : IsBytes m) where
  pub u16_at-lt : u16_at m a < 2 ^ 16
  unfolding u16_at
  u16_at-lt = omega (arith, bytes a, bytes (a + 1))

module _ (m : Memory) (a : ℕ) (bytes : IsBytes m) where
  pub u32_at-lt : u32_at m a < 2 ^ 32
  unfolding u32_at
  u32_at-lt = omega (arith, u16_at-lt m a bytes, u16_at-lt m (a + 2) bytes)

module _ (m : Memory) (a : ℕ) (bytes : IsBytes m) where
  pub u64_at-lt : u64_at m a < 2 ^ 64
  unfolding u64_at
  u64_at-lt = omega (arith, u32_at-lt m a bytes, u32_at-lt m (a + 4) bytes)

-- A field depends on its own bytes alone.
module _ (f g : Memory) (n : ℕ) (same : (i : ℕ) → i < n → f i ≡ g i) (a : ℕ) where
  pub u16_at-same : a + 2 ≤ n → u16_at f a ≡ u16_at g a
  unfolding u16_at
  u16_at-same l = omega (arith, same a, same (a + 1))

module _ (f g : Memory) (n : ℕ) (same : (i : ℕ) → i < n → f i ≡ g i) (a : ℕ) where
  pub u32_at-same : a + 4 ≤ n → u32_at f a ≡ u32_at g a
  unfolding u32_at
  u32_at-same l = omega (arith, u16_at-same f g n same a, u16_at-same f g n same (a + 2))

module _ (f g : Memory) (n : ℕ) (same : (i : ℕ) → i < n → f i ≡ g i) (a : ℕ) where
  pub u64_at-same : a + 8 ≤ n → u64_at f a ≡ u64_at g a
  unfolding u64_at
  u64_at-same l = omega (arith, u32_at-same f g n same a, u32_at-same f g n same (a + 4))

-- A store of 8 bytes.
unfoldable pub put_u64 : Memory → ℕ → ℕ → Memory
put_u64 m a v i = if leb a i && ltb i (a + 8) then v / 256 ^ (i - a) % 256 else m i

pub put_u64_outside : (m : Memory) (a v i : ℕ) → (i < a) ⊎ (a + 8 ≤ i) → put_u64 m a v i ≡ m i
unfolding put_u64
put_u64_outside m a v i (inl l) = ground arith
put_u64_outside m a v i (inr l) = ground arith

-- The same for bytes that lie anywhere.
module _ (f g : Memory) (lo hi : ℕ) (same : (i : ℕ) → lo ≤ i → i < hi → f i ≡ g i) (a : ℕ) where
  pub u16_at-window : lo ≤ a → a + 2 ≤ hi → u16_at f a ≡ u16_at g a
  unfolding u16_at
  u16_at-window l r = omega (arith, same a, same (a + 1))

module _ (f g : Memory) (lo hi : ℕ) (same : (i : ℕ) → lo ≤ i → i < hi → f i ≡ g i) (a : ℕ) where
  pub u32_at-window : lo ≤ a → a + 4 ≤ hi → u32_at f a ≡ u32_at g a
  unfolding u32_at
  u32_at-window l r =
      omega (arith, u16_at-window f g lo hi same a, u16_at-window f g lo hi same (a + 2))

module _ (f g : Memory) (lo hi : ℕ) (same : (i : ℕ) → lo ≤ i → i < hi → f i ≡ g i) (a : ℕ) where
  pub u64_at-window : lo ≤ a → a + 8 ≤ hi → u64_at f a ≡ u64_at g a
  unfolding u64_at
  u64_at-window l r =
      omega (arith, u32_at-window f g lo hi same a, u32_at-window f g lo hi same (a + 4))

put_u64_byte :
    (m : Memory) (a v : ℕ) (i k : ℕ) → i ≡ a + k → k < 8 → put_u64 m a v i ≡ v / 256 ^ k % 256
unfolding put_u64
put_u64_byte m a v i k e l =
    let d : i - a ≡ k = omega arith in
    let inside : leb a i && ltb i (a + 8) ≡ true = ground arith in rw (inside, d) refl

-- What a store of 8 bytes leaves is read back.
pub u64_at-put_u64 : (m : Memory) (a v : ℕ) → v < 2 ^ 64 → u64_at (put_u64 m a v) a ≡ v
unfolding u64_at u32_at u16_at
u64_at-put_u64 m a v l =
    let byte = put_u64_byte m a v in
    omega (
      arith,
      byte a 0 (omega arith) (omega arith),
      byte (a + 1) 1 refl (omega arith),
      byte (a + 2) 2 refl (omega arith),
      byte (a + 2 + 1) 3 (omega arith) (omega arith),
      byte (a + 4) 4 refl (omega arith),
      byte (a + 4 + 1) 5 (omega arith) (omega arith),
      byte (a + 4 + 2) 6 (omega arith) (omega arith),
      byte (a + 4 + 2 + 1) 7 (omega arith) (omega arith),
    )
