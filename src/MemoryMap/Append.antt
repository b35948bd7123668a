-- ===== src/MemoryMap/Append.antt =====
-- bootloader/uefi/memory_map.c: `append`. The output `out[0..count)` is a list, the last entry first.
use sypas.Base.{
  ℕ, ◌+◌, ◌-◌, ◌%◌, ◌≤◌, ◌<◌, ◌≡◌, arith, ltb, ◌==◌, ◌&&◌, if◌then◌else◌, List, [], ◌∷◌, length,
  none, some, Result, ok, err, add_ok, sub64, u64_max, ◌⊎◌, inl, inr, ◌≢◌, subst, sym,
}
use sypas.BootProto.{MemmapEntry}
use sypas.MemoryMap.Types.{MapError, output_full, output_overflow}

-- `out[count++] = …`
unfoldable pub push : ℕ → List MemmapEntry → ℕ → ℕ → ℕ → Result MapError (List MemmapEntry)
push cap out base len type =
    if length out == cap
    then err output_full
    else ok (record { base = base; length = len; type = type; reserved = 0 } ∷ out)

unfoldable pub append : ℕ → List MemmapEntry → ℕ → ℕ → ℕ → Result MapError (List MemmapEntry)
unfolding push
append cap [] base end type = if base == end then ok [] else push cap [] base (sub64 end base) type
append cap (previous ∷ out) base end type =
    let len = sub64 end base in
    if base == end then ok (previous ∷ out) else elim (add_ok previous.base previous.length) [
      | none ↦ err output_overflow
      | some previous_end ↦
          if ltb base previous_end
          then err output_overflow
          else if previous.type == type && previous_end == base
          then elim (add_ok previous.length len) [
            | none ↦ err output_overflow
            | some combined ↦ ok (record previous { length = combined } ∷ out)
          ]
          else push cap (previous ∷ out) base len type
    ]

-- The output so far, the last entry first: sorted, not overlapping, page-aligned, without empty
-- ranges, its last range ending at `hi` or before.
abbrev pub IsOutput : ℕ → List MemmapEntry → Type 0
IsOutput hi [] = Unit {0}
IsOutput hi (e ∷ es) =
    (e.base + e.length ≤ hi)
    × (e.base % 4096 ≡ 0)
    × (e.length % 4096 ≡ 0)
    × (0 < e.length)
    × IsOutput e.base es

pub IsOutput-mono : (a b : ℕ) (out : List MemmapEntry) → a ≤ b → IsOutput a out → IsOutput b out
IsOutput-mono a b [] l w = tt
IsOutput-mono a b (e ∷ es) l (h, r0, r1, r2, w) = (omega arith, r0, r1, r2, w)

abbrev pub entry_of : ℕ → ℕ → ℕ → MemmapEntry
entry_of base end type = record { base = base; length = sub64 end base; type = type; reserved = 0 }

-- What a successful `append` has done: nothing for an empty range, else a new entry, or the last
-- entry of the same type that ends where the range begins is made longer.
pub append_nil-ok :
    (cap base end type : ℕ) {out' : List MemmapEntry}
    → append cap [] base end type ≡ ok out'
    → ((base ≡ end) × (out' ≡ [])) ⊎ ((base ≢ end) × (out' ≡ entry_of base end type ∷ []))
unfolding append push
append_nil-ok cap base end type h = ground arith

pub append_cons-ok :
    (cap : ℕ) (p : MemmapEntry) (out : List MemmapEntry) (base end type : ℕ)
    {out' : List MemmapEntry}
    → p.base + p.length ≤ base
    → base ≤ end
    → end ≤ u64_max
    → append cap (p ∷ out) base end type ≡ ok out'
    → ((base ≡ end) × (out' ≡ p ∷ out))
      ⊎ ((base ≢ end) × (out' ≡ entry_of base end type ∷ p ∷ out))
      ⊎ ((base ≢ end)
          × (p.base + p.length ≡ base)
          × (p.type ≡ type)
          × (out' ≡ record p { length = p.length + (end - base) } ∷ out))
unfolding append push add_ok
append_cons-ok cap p out base end type w l fits h = ground arith

-- `append` of a page-aligned range behind the output keeps it in order.
pub append-IsOutput :
    (cap : ℕ) (out : List MemmapEntry) (base end type : ℕ) {out' : List MemmapEntry}
    → IsOutput base out
    → base ≤ end
    → base % 4096 ≡ 0
    → end % 4096 ≡ 0
    → end ≤ u64_max
    → append cap out base end type ≡ ok out'
    → IsOutput end out'
append-IsOutput cap [] base end type {out'} w l ba ea fits h =
    elim (append_nil-ok cap base end type h) [
      | inl (e, same) ↦ subst (IsOutput end) (sym same) tt
      | inr (ne, more) ↦ subst (IsOutput end) (sym more) (omega arith)
    ]
append-IsOutput cap (p ∷ out) base end type {out'} (w0, w1, w2, w3, w4) l ba ea fits h =
    elim (append_cons-ok cap p out base end type w0 l fits h) [
      | inl (e, same) ↦ subst (IsOutput end) (sym same) (omega arith, w1, w2, w3, w4)
      | inr (inl (ne, more)) ↦
          subst (IsOutput end) (sym more)
            (omega arith, ba, omega arith, omega arith, (w0, w1, w2, w3, w4))
      | inr (inr (ne, touch, ty, longer)) ↦
          subst (IsOutput end) (sym longer) (omega arith, w1, omega arith, omega arith, w4)
    ]
