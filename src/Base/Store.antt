-- ===== src/Base/Store.antt =====
-- Physical memory: one byte at each address.
use Prim.Native.Nat.{ℕ, ◌<◌}
use sypas.Base.Tests.{◌==◌, if◌then◌else◌}

abbrev pub Memory : Type 0
Memory = ℕ → ℕ

abbrev pub update : Memory → ℕ → ℕ → Memory
update m a v i = if i == a then v else m i

abbrev pub IsBytes : Memory → Type 0
IsBytes m = (a : ℕ) → m a < 256
