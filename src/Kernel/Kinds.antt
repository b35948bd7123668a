-- ===== src/Kernel/Kinds.antt =====
-- kernel/debug/kprintf.c: which arguments a format asks for, as the attribute `format(printf, 1, 2)`
-- lets the compiler check them.
use sypas.Base.{
  ℕ, zero, suc, ◌≡◌, true, false, ◌==◌, ◌||◌, if◌then◌else◌, List, [], ◌∷◌, ◌++◌, length, Option,
  none, some, map,
}
use sypas.Kernel.Print.{Argument, word, text, read_zero, read_width, read_longs, read_spec}

pub data Kind : Type 0 where
  number string : Kind

abbrev pub kind_of : Argument → Kind
kind_of (word bits) = number
kind_of (text s) = string

-- What a conversion takes.
abbrev pub asks : ℕ → List Kind
asks c =
    if c == 115
    then string ∷ []
    else if c == 99 || (c == 100 || c == 105) || c == 117 || (c == 120 || c == 88) || c == 112
    then number ∷ []
    else []

-- The kinds of the arguments of a format, in their order; `none` if it ends within a conversion, or
-- has a width that is not an int.
abbrev pub kinds_from : ℕ → List ℕ → Option (List Kind)
kinds_from zero fmt = none
kinds_from (suc fuel) [] = some []
kinds_from (suc fuel) (c ∷ fmt) = elim (c == 37) [
  | true ↦ elim (read_spec fmt) [
    | none ↦ none
    | some (spec, rest) ↦ elim rest [
      | [] ↦ none
      | d ∷ fmt' ↦ elim (kinds_from fuel fmt') [ none ↦ none | some ks ↦ some (asks d ++ ks) ]
    ]
  ]
  | false ↦ kinds_from fuel fmt
]

abbrev pub kinds : List ℕ → Option (List Kind)
kinds fmt = kinds_from (suc (length fmt)) fmt

-- The format asks for the kinds of the arguments.
abbrev pub Fits : List ℕ → List Argument → Type 0
Fits fmt args = kinds fmt ≡ some (map kind_of args)

-- The scan of a format computes.
unfoldable pub parsing : Unit {0}
unfolding read_spec read_zero read_width read_longs
parsing = tt
