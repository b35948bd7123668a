-- ===== src/Kernel/Digits.antt =====
-- kernel/debug/kprintf.c: the digits of `emit_uint`.
use sypas.Base.{
  ℕ, zero, suc, ◌+◌, ◌-◌, ◌*◌, ◌/◌, ◌%◌, ◌^◌, ◌≤◌, ◌<◌, ◌≡◌, ◌≢◌, refl, arith, sym, ap, subst, ◌∙◌,
  Bool, true, leb, ◌==◌, if◌then◌else◌, List, [], ◌∷◌, length, Option, none, some, u64_max, ◌⊎◌,
  inl, inr, Bool-cases,
}
use mathlib.Core.List.{◌++◌}
use native.Mathlib.Nat.{mod-lt, div-add-mod', div-lt_iff_lt-mul, div-eq_of_lt, pow-suc, pow-zero}
use sypas.Kernel.Print.{digit, digits_from, repeat, emit_uint}

-- What a digit stands for.
abbrev pub digit_value : ℕ → ℕ
digit_value c = if leb 97 c then c - 87 else if leb 65 c then c - 55 else c - 48

-- The number that a text stands for, read from the left behind a number `acc`.
unfoldable pub value_from : ℕ → ℕ → List ℕ → ℕ
value_from base acc [] = acc
value_from base acc (c ∷ cs) = value_from base (acc * base + digit_value c) cs

digit_value-digit : (upper : Bool) (d : ℕ) → d < 16 → digit_value (digit upper d) ≡ d
unfolding digit
digit_value-digit upper d l = ground arith

digits_from-cases :
    (room base : ℕ) (upper : Bool) (v : ℕ) (buf : List ℕ) {out : List ℕ}
    → digits_from (suc room) base upper v buf ≡ some out
    → ((v / base ≡ 0) × (out ≡ digit upper (v % base) ∷ buf))
      ⊎ ((v / base ≢ 0)
          × (digits_from room base upper (v / base) (digit upper (v % base) ∷ buf) ≡ some out))
unfolding digits_from
digits_from-cases room base upper v buf h = ground arith

-- One digit more in front of a text.
value_from-digit :
    (base : ℕ) (upper : Bool) (v : ℕ) (buf : List ℕ)
    → 0 < base
    → base ≤ 16
    → value_from base (v / base) (digit upper (v % base) ∷ buf) ≡ value_from base v buf
unfolding value_from
value_from-digit base upper v buf pos small =
    let r : v % base < base = mod-lt v pos in
    let d : digit_value (digit upper (v % base)) ≡ v % base =
      digit_value-digit upper (v % base) (omega (arith, r, small)) in
    let whole : v / base * base + v % base ≡ v = div-add-mod' v base in rw (d, whole) refl

-- The digits behind what is written already read as the number.
digits_from-value :
    (room base : ℕ) (upper : Bool) (v : ℕ) (buf : List ℕ) {out : List ℕ}
    → 0 < base
    → base ≤ 16
    → digits_from room base upper v buf ≡ some out
    → value_from base 0 out ≡ value_from base v buf
unfolding digits_from
digits_from-value zero base upper v buf pos small h = absurd (cc)
digits_from-value (suc room) base upper v buf {out} pos small h =
    elim (digits_from-cases room base upper v buf h) [
      | inl (z, e) ↦
          ap (value_from base 0) e
          ∙ subst (λ x. value_from base x (digit upper (v % base) ∷ buf) ≡ value_from base v buf) z
              (value_from-digit base upper v buf pos small)
      | inr (more, rest) ↦
          digits_from-value room base upper (v / base) (digit upper (v % base) ∷ buf) pos small rest
          ∙ value_from-digit base upper v buf pos small
    ]

digits_from-fits :
    (n room base : ℕ) (upper : Bool) (v : ℕ) (buf : List ℕ)
    → 1 < base
    → v < base ^ suc n
    → n < room
    → (out : List ℕ) × (digits_from room base upper v buf ≡ some out)
      × (length out ≤ suc n + length buf)
unfolding digits_from
digits_from-fits n zero base upper v buf b l r = absurd (omega arith)
digits_from-fits zero (suc room) base upper v buf b l r =
    let one : base ^ 1 ≡ base = pow-suc base 0 ∙ ap (λ x. x * base) (pow-zero base) ∙ omega arith in
    let z : v / base ≡ 0 = div-eq_of_lt (omega (arith, l, one)) in
    (digit upper (v % base) ∷ buf, rw z refl, omega arith)
digits_from-fits (suc n) (suc room) base upper v buf b l r =
    let power : base ^ suc (suc n) ≡ base ^ suc n * base = pow-suc base (suc n) in
    let less : v / base < base ^ suc n =
      (div-lt_iff_lt-mul {k = base} {x = v} {y = base ^ suc n} (omega (arith, b))).1
        (omega (arith, l, power)) in
    let (out, e, few) =
      digits_from-fits n room base upper (v / base) (digit upper (v % base) ∷ buf) b less
        (omega (arith, r)) in
    elim (Bool-cases (v / base == 0)) [
      | inl z ↦ (digit upper (v % base) ∷ buf, rw z refl, omega arith)
      | inr more ↦ (out, rw more e, omega (arith, few))
    ]

-- A number of 64 bits, in base 10 or 16, never runs out of the buffer of 24 characters: it has at most
-- 20 digits, and they read as the number.
pub digits_from-buffer :
    (v base : ℕ) (upper : Bool)
    → v ≤ u64_max
    → (base ≡ 10) ⊎ (base ≡ 16)
    → (out : List ℕ) × (digits_from 24 base upper v [] ≡ some out)
      × (length out ≤ 20)
      × (value_from base 0 out ≡ v)
unfolding value_from
digits_from-buffer v base upper l which =
    let b : (1 < base) × (base ≤ 16) = ground arith in
    let fits : v < base ^ 20 = elim which [
      | inl ten ↦ subst (λ x. v < x ^ 20) (sym ten) (omega (arith, l))
      | inr sixteen ↦ subst (λ x. v < x ^ 20) (sym sixteen) (omega (arith, l))
    ] in
    let (out, e, few) = digits_from-fits 19 24 base upper v [] b.0 fits (omega arith) in
    (out, e, omega (arith, few), digits_from-value 24 base upper v [] (omega (arith, b)) b.1 e)

length-repeat : (n c : ℕ) (cs : List ℕ) → length (repeat n c ++ cs) ≡ n + length cs
unfolding repeat
length-repeat zero c cs = omega arith
length-repeat (suc n) c cs = let e = length-repeat n c cs in omega (arith, e)

-- Zeros in front are not read.
value_from-repeat :
    (base n : ℕ) (cs : List ℕ) → value_from base 0 (repeat n 48 ++ cs) ≡ value_from base 0 cs
unfolding repeat value_from
value_from-repeat base zero cs = refl
value_from-repeat base (suc n) cs =
    let z : 0 * base + 0 ≡ 0 = omega arith in
    subst (λ x. value_from base x (repeat n 48 ++ cs) ≡ value_from base 0 cs) (sym z)
      (value_from-repeat base n cs)

-- A text of a number: its digits, and before them what fills it up to the width.
pub record IsPadded (v base width : ℕ) (pad : ℕ) (text : List ℕ) : Type 0 where
  pub digits : List ℕ
  pub filled : text ≡ repeat (width - length digits) pad ++ digits
  pub few : length digits ≤ 20
  pub reads : value_from base 0 digits ≡ v
  pub as_wide : width ≤ length text
  pub no_wider : (length text ≡ width) ⊎ (length text ≡ length digits)

emit_uint-some :
    (v base : ℕ) (upper : Bool) (width : ℕ) (pad_zero : Bool) (out : List ℕ)
    → digits_from 24 base upper v [] ≡ some out
    → emit_uint v base upper width pad_zero
      ≡ some (repeat (width - length out) (if pad_zero then 48 else 32) ++ out)
unfolding emit_uint
emit_uint-some v base upper width pad_zero out e =
    ap
      (λ (o : Option (List ℕ)). elim o as (λ _. Option (List ℕ)) [
        | none ↦ none
        | some buf ↦ some (repeat (width - length buf) (if pad_zero then 48 else 32) ++ buf)
      ])
      e

-- On a number of 64 bits in base 10 or 16 nothing is written behind the buffer: the digits, at most
-- 20, read as the number, and the text is filled up to the width, or has no fill where the digits are
-- as wide; one that is filled with zeros reads as the number as a whole.
pub emit_uint-IsPadded :
    (v base : ℕ) (upper : Bool) (width : ℕ) (pad_zero : Bool)
    → v ≤ u64_max
    → (base ≡ 10) ⊎ (base ≡ 16)
    → (text : List ℕ) × (emit_uint v base upper width pad_zero ≡ some text)
      × IsPadded v base width (if pad_zero then 48 else 32) text
      × (pad_zero ≡ true → value_from base 0 text ≡ v)
emit_uint-IsPadded v base upper width pad_zero l which =
    let (out, e, few, reads) = digits_from-buffer v base upper l which in
    let pad : ℕ = if pad_zero then 48 else 32 in
    let long = length-repeat (width - length out) pad out in
    (
      repeat (width - length out) pad ++ out,
      emit_uint-some v base upper width pad_zero out e,
      record {
        digits = out;
        filled = refl;
        few = few;
        reads = reads;
        as_wide = omega (arith, long);
        no_wider = ground (arith, long);
      },
      λ zeros. rw zeros (value_from-repeat base (width - length out) out ∙ reads),
    )
