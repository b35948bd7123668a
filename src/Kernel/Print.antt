-- ===== src/Kernel/Print.antt =====
-- kernel/debug/kprintf.c: the formatted output. What a function emits is a list of characters, in
-- their order; `emit` hands each of them to the sinks.
use sypas.Base.{
  ℕ, zero, suc, ◌+◌, ◌-◌, ◌*◌, ◌/◌, ◌%◌, ◌^◌, Bool, true, false, ltb, leb, ◌==◌, ◌&&◌, ◌||◌,
  if◌then◌else◌, List, [], ◌∷◌, length, Option, none, some, Result, ok, err, ◌>>=◌,
}
use mathlib.Core.List.{◌++◌}

abbrev pub max_sinks : ℕ
max_sinks = 4

-- The sinks are functions; each is a number here. `calls` is what they were called with, the last
-- call first.
pub record Sinks : Type 0 where
  pub sinks : List ℕ
  pub calls : List (ℕ × ℕ)

-- A sink more, if there is room.
unfoldable pub console_register : ℕ → Sinks → Sinks
console_register fn s =
    if ltb (length s.sinks) max_sinks then record s { sinks = s.sinks ++ (fn ∷ []) } else s

unfoldable pub call_sinks : List ℕ → ℕ → List (ℕ × ℕ) → List (ℕ × ℕ)
call_sinks [] c calls = calls
call_sinks (fn ∷ fns) c calls = call_sinks fns c ((fn, c) ∷ calls)

unfoldable pub emit : ℕ → Sinks → Sinks
emit c s = record s { calls = call_sinks s.sinks c s.calls }

-- Strings are without the NUL behind them.
unfoldable pub emit_str : List ℕ → Sinks → Sinks
emit_str [] s = s
emit_str (c ∷ cs) s = emit_str cs (emit c s)

-- `dig[d]`
unfoldable pub digit : Bool → ℕ → ℕ
digit upper d = if ltb d 10 then 48 + d else if upper then 55 + d else 87 + d

-- The loop that fills `buf`, the last digit written first, while there is room for `room` more.
unfoldable pub digits_from : ℕ → ℕ → Bool → ℕ → List ℕ → Option (List ℕ)
digits_from zero base upper v buf = none
digits_from (suc room) base upper v buf =
    let rest = digits_from room base upper (v / base) (digit upper (v % base) ∷ buf) in
    if v / base == 0 then some (digit upper (v % base) ∷ buf) else rest

unfoldable pub repeat : ℕ → ℕ → List ℕ
repeat zero c = []
repeat (suc n) c = c ∷ repeat n c

-- What `emit_uint` emits, with `buf` of 24 characters; `none` is a write behind it.
unfoldable pub emit_uint : ℕ → ℕ → Bool → ℕ → Bool → Option (List ℕ)
emit_uint v base upper width pad_zero = elim (digits_from 24 base upper v []) [
  | none ↦ none
  | some buf ↦ some (repeat (width - length buf) (if pad_zero then 48 else 32) ++ buf)
]

-- An argument: a number, as the 64 bits that stand for it, or a string, `none` for a null pointer.
pub data Argument : Type 0 where
  word : (bits : ℕ) → Argument
  text : (string : Option (List ℕ)) → Argument

-- What C leaves open: no argument for a conversion or one of another kind, a read behind the NUL of
-- the format, and a width or a count of `l` behind the last int. `buffer` is a write behind `buf`.
pub data PrintError : Type 0 where
  no_argument past_end overflow buffer out_of_fuel : PrintError

abbrev pub int_max : ℕ
int_max = 2 ^ 31 - 1

unfoldable pub next_word : List Argument → Result PrintError (ℕ × List Argument)
next_word (word bits ∷ args) = ok (bits, args)
next_word args = err no_argument

unfoldable pub next_text : List Argument → Result PrintError (Option (List ℕ) × List Argument)
next_text (text string ∷ args) = ok (string, args)
next_text args = err no_argument

-- The flag, the width and the count of `l` of a conversion.
pub record Spec : Type 0 where
  pub pad_zero : Bool
  pub width : ℕ
  pub longs : ℕ

unfoldable pub read_zero : List ℕ → Bool × List ℕ
read_zero [] = (false, [])
read_zero (c ∷ cs) = if c == 48 then (true, cs) else (false, c ∷ cs)

-- `none` where the int of the width overflows.
unfoldable pub read_width : ℕ → List ℕ → Option (ℕ × List ℕ)
read_width width [] = some (width, [])
read_width width (c ∷ cs) =
    let next = width * 10 + (c - 48) in
    let rest = read_width next cs in
    if leb 48 c && leb c 57 then (if leb next int_max then rest else none) else some (width, c ∷ cs)

unfoldable pub read_longs : ℕ → List ℕ → Option (ℕ × List ℕ)
read_longs longs [] = some (longs, [])
read_longs longs (c ∷ cs) =
    let rest = read_longs (longs + 1) cs in
    if c == 108 then (if leb (longs + 1) int_max then rest else none) else some (longs, c ∷ cs)

abbrev pub with_longs : Bool → ℕ → Option (ℕ × List ℕ) → Option (Spec × List ℕ)
with_longs pad_zero width none = none
with_longs pad_zero width (some (longs, fmt)) =
    some (record { pad_zero = pad_zero; width = width; longs = longs }, fmt)

abbrev pub with_width : Bool → Option (ℕ × List ℕ) → Option (Spec × List ℕ)
with_width pad_zero none = none
with_width pad_zero (some (width, fmt)) = with_longs pad_zero width (read_longs 0 fmt)

unfoldable pub read_spec : List ℕ → Option (Spec × List ℕ)
read_spec fmt = let (pad_zero, fmt') = read_zero fmt in with_width pad_zero (read_width 0 fmt')

abbrev pub to_result : Option (List ℕ) → Result PrintError (List ℕ)
to_result none = err buffer
to_result (some cs) = ok cs

-- The text of a number with its sign, by its 64 bits: -m is printed as `-` and m.
unfoldable pub signed : Spec → ℕ → Result PrintError (List ℕ)
signed spec v =
    if leb (2 ^ 63) v
    then (do
      cs ← to_result (emit_uint ((2 ^ 64 - v) % 2 ^ 64) 10 false spec.width spec.pad_zero)
      ok (45 ∷ cs))
    else to_result (emit_uint v 10 false spec.width spec.pad_zero)

-- A 32-bit number with a sign, as 64 bits.
abbrev pub extend : ℕ → ℕ
extend bits =
    if leb (2 ^ 31) (bits % 2 ^ 32) then bits % 2 ^ 32 + (2 ^ 64 - 2 ^ 32) else bits % 2 ^ 32

abbrev pub unsigned_of : Spec → ℕ → ℕ
unsigned_of spec bits = if spec.longs == 0 then bits % 2 ^ 32 else bits

-- The conversion that the character `c` names, with what is left of the arguments.
unfoldable pub convert : Spec → ℕ → List Argument → Result PrintError (List ℕ × List Argument)
convert spec c args =
    if c == 115
    then (do
      (string, args') ← next_text args
      ok ((elim string [ some cs ↦ cs | none ↦ 40 ∷ 110 ∷ 117 ∷ 108 ∷ 108 ∷ 41 ∷ [] ]), args'))
    else if c == 99
    then (do (bits, args') ← next_word args; ok ((bits % 2 ^ 8) ∷ [], args'))
    else if c == 100 || c == 105
    then (do
      (bits, args') ← next_word args
      cs ← signed spec (if spec.longs == 0 then extend bits else bits)
      ok (cs, args'))
    else if c == 117
    then (do
      (bits, args') ← next_word args
      cs ← to_result (emit_uint (unsigned_of spec bits) 10 false spec.width spec.pad_zero)
      ok (cs, args'))
    else if c == 120 || c == 88
    then (do
      (bits, args') ← next_word args
      cs ← to_result (emit_uint (unsigned_of spec bits) 16 (c == 88) spec.width spec.pad_zero)
      ok (cs, args'))
    else if c == 112
    then (do
      (bits, args') ← next_word args
      cs ← to_result (emit_uint bits 16 false 16 true)
      ok (48 ∷ 120 ∷ cs, args'))
    else if c == 37
    then ok (37 ∷ [], args)
    else ok (37 ∷ c ∷ [], args)

-- The loop, with fuel for so many characters of the format.
unfoldable pub print_from : ℕ → List ℕ → List Argument → Result PrintError (List ℕ)
print_from zero fmt args = err out_of_fuel
print_from (suc fuel) [] args = ok []
print_from (suc fuel) (c ∷ fmt) args = elim (c == 37) [
  | true ↦ elim (read_spec fmt) [
    | none ↦ err overflow
    | some (spec, rest) ↦ elim rest [
      | [] ↦ err past_end
      | d ∷ fmt' ↦ (do
        (cs, args') ← convert spec d args
        rest ← print_from fuel fmt' args'
        ok (cs ++ rest))
    ]
  ]
  | false ↦ (do rest ← print_from fuel fmt args; ok (c ∷ rest))
]

-- What is emitted for a format and its arguments.
unfoldable pub kvprintf : List ℕ → List Argument → Result PrintError (List ℕ)
kvprintf fmt args = print_from (suc (length fmt)) fmt args
