-- ===== src/Pmm/Selftest.antt =====
-- kernel/mm/pmm.c: `pmm_selftest`, with its loops over the array `got`.
use sypas.Base.{
  ℕ, zero, suc, ◌+◌, ◌%◌, ◌^◌, Bool, false, ◌==◌, ◌||◌, if◌then◌else◌, List, [], ◌∷◌, none, some,
  Result, ok, err, ◌>>=◌, Memory, u64_at, put_u64, bit_xor,
}
use sypas.Pmm.State.{Pmm}
use sypas.Pmm.Alloc.{alloc_page}
use sypas.Pmm.Free.{Panic, free_page}

abbrev pub st_pages : ℕ
st_pages = 512

-- Why it returns false, with what it prints. `panicked` is a panic of `pmm_free_page`, and `endless`
-- an allocation that does not return. The allocator that a failure leaves is not kept: `kmain` panics.
pub data Failure : Type 0 where
  exhausted : (pages : ℕ) → Failure
  duplicate mismatch : (address : ℕ) → Failure
  leak : (before after : ℕ) → Failure
  panicked : Panic → Failure
  endless : Failure

-- The loop that fills `got`, from round `i` on for `n` rounds more.
unfoldable pub take_pages : ℕ → ℕ → Pmm → Result Failure (List ℕ × Pmm)
take_pages zero i s = ok ([], s)
take_pages (suc n) i s = elim (alloc_page s) [
  | none ↦ err endless
  | some (address, t) ↦
      if address == 0
      then err (exhausted i)
      else (do (rest, u) ← take_pages n (i + 1) t; ok (address ∷ rest, u))
]

-- What is written to a page.
unfoldable pub test_pattern : ℕ → ℕ
test_pattern address = bit_xor 0x5350415359 address % 2 ^ 64

-- The inner loop: whether the address stands among those that follow it.
unfoldable pub is_repeated : ℕ → List ℕ → Bool
is_repeated address [] = false
is_repeated address (next ∷ rest) = (address == next) || is_repeated address rest

unfoldable pub write_patterns : List ℕ → Memory → Result Failure Memory
write_patterns [] m = ok m
write_patterns (address ∷ rest) m =
    if is_repeated address rest
    then err (duplicate address)
    else write_patterns rest (put_u64 m address (test_pattern address))

unfoldable pub check_patterns : List ℕ → Memory → Result Failure (Unit {0})
check_patterns [] m = ok tt
check_patterns (address ∷ rest) m =
    if u64_at m address == test_pattern address
    then check_patterns rest m
    else err (mismatch address)

unfoldable pub free_pages_of : List ℕ → Pmm → Result Failure Pmm
free_pages_of [] s = ok s
free_pages_of (address ∷ rest) s = elim (free_page s address) [
  | err panic ↦ err (panicked panic)
  | ok t ↦ free_pages_of rest t
]

-- The patterns and the frees on the pages `got`; `before` is the count at the start.
unfoldable pub test_pages : ℕ → List ℕ → Pmm → Result Failure Pmm
test_pages before got s = do
  m ← write_patterns got s.mem
  checked ← check_patterns got m
  t ← free_pages_of got (record s { mem = m })
  if t.free_pages == before then ok t else err (leak before t.free_pages)

-- The state after a run that returns true.
unfoldable pub selftest : Pmm → Result Failure Pmm
selftest s = do (got, t) ← take_pages st_pages 0 s; test_pages s.free_pages got t
