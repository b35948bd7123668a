-- ===== src/Kernel/Reads.antt =====
-- kernel/debug/kprintf.c: reading the flag, the width and the count of `l` of a conversion leaves no more
-- of a format than there was.
use sypas.Base.{
  ℕ, suc, ◌+◌, ◌-◌, ◌*◌, ◌≤◌, arith, Bool, true, false, leb, ◌==◌, ◌&&◌, if◌then◌else◌, List, [],
  ◌∷◌, length, Option, none, some,
}
use sypas.Kernel.Print.{
  int_max, read_zero, read_width, read_longs, with_longs, with_width, read_spec,
}

read_zero-length : (fmt : List ℕ) → length (read_zero fmt).1 ≤ length fmt
unfolding read_zero
read_zero-length [] = omega arith
read_zero-length (c ∷ fmt) = ground arith

-- What is left of a format is no longer.
abbrev pub Shorter {ℓ} : {A : Type ℓ} → ℕ → Option (A × List ℕ) → Type 0
Shorter n none = Unit {0}
Shorter n (some (a, rest)) = length rest ≤ n

Shorter-le : {A : Type 0} (m n : ℕ) (o : Option (A × List ℕ)) → m ≤ n → Shorter m o → Shorter n o
Shorter-le m n none l h = tt
Shorter-le m n (some (a, rest)) l h = omega (arith, l, h)

Shorter-if :
    {A : Type 0} (n : ℕ) (b : Bool) (o o' : Option (A × List ℕ))
    → Shorter n o
    → Shorter n o'
    → Shorter n (if b then o else o')
Shorter-if n true o o' h h' = h
Shorter-if n false o o' h h' = h'

read_width-length : (width : ℕ) (fmt : List ℕ) → Shorter (length fmt) (read_width width fmt)
unfolding read_width
read_width-length width [] = omega arith
read_width-length width (c ∷ fmt) =
    let rest = read_width (width * 10 + (c - 48)) fmt in
    Shorter-if (suc (length fmt)) (leb 48 c && leb c 57) _ (some (width, c ∷ fmt))
      (Shorter-if (suc (length fmt)) (leb (width * 10 + (c - 48)) int_max) rest none
        (Shorter-le (length fmt) (suc (length fmt)) rest (omega arith)
          (read_width-length (width * 10 + (c - 48)) fmt))
        tt)
      (omega arith)

read_longs-length : (longs : ℕ) (fmt : List ℕ) → Shorter (length fmt) (read_longs longs fmt)
unfolding read_longs
read_longs-length longs [] = omega arith
read_longs-length longs (c ∷ fmt) =
    Shorter-if (suc (length fmt)) (c == 108) _ (some (longs, c ∷ fmt))
      (Shorter-if (suc (length fmt)) (leb (longs + 1) int_max) (read_longs (longs + 1) fmt) none
        (Shorter-le (length fmt) (suc (length fmt)) (read_longs (longs + 1) fmt) (omega arith)
          (read_longs-length (longs + 1) fmt))
        tt)
      (omega arith)

with_longs-length :
    (pad_zero : Bool) (width n : ℕ) (o : Option (ℕ × List ℕ))
    → Shorter n o
    → Shorter n (with_longs pad_zero width o)
with_longs-length pad_zero width n none h = tt
with_longs-length pad_zero width n (some (longs, rest)) h = h

with_width-length :
    (pad_zero : Bool) (n : ℕ) (o : Option (ℕ × List ℕ))
    → Shorter n o
    → Shorter n (with_width pad_zero o)
with_width-length pad_zero n none h = tt
with_width-length pad_zero n (some (width, rest)) h =
    with_longs-length pad_zero width n (read_longs 0 rest)
      (Shorter-le (length rest) n (read_longs 0 rest) h (read_longs-length 0 rest))

pub read_spec-length : (fmt : List ℕ) → Shorter (length fmt) (read_spec fmt)
unfolding read_spec
read_spec-length fmt =
    let rest = (read_zero fmt).1 in
    with_width-length (read_zero fmt).0 (length fmt) (read_width 0 rest) (
      Shorter-le (length rest) (length fmt) (read_width 0 rest) (read_zero-length fmt)
        (read_width-length 0 rest))
