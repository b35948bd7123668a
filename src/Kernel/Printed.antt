-- ===== src/Kernel/Printed.antt =====
-- kernel/debug/kprintf.c: `kvprintf` ends, and keeps inside its buffer.
use sypas.Base.{
  ℕ, zero, suc, ◌-◌, ◌%◌, ◌^◌, ◌≤◌, ◌<◌, ◌≡◌, refl, arith, sym, subst, Bool, true, false, leb, ◌==◌,
  ◌||◌, none, some, if◌then◌else◌, List, [], ◌∷◌, length, Option, u64_max, ◌⊎◌, inl, inr, Result,
  ok, err, ◌>>=◌, All,
}
use mathlib.Core.List.{◌++◌}
use sypas.Kernel.Print.{
  emit_uint, Argument, word, text, PrintError, no_argument, past_end, overflow, buffer, out_of_fuel,
  next_word, next_text, Spec, read_spec, to_result, signed, extend, unsigned_of, convert,
  print_from, kvprintf,
}
use sypas.Kernel.Reads.{Shorter, read_spec-length}
use sypas.Kernel.Digits.{emit_uint-IsPadded}

-- An outcome that C leaves open at most for the sake of the format, and a result with a property.
abbrev pub Sound {ℓ} : {A : Type ℓ} → (A → Type 0) → Result PrintError A → Type 0
Sound P (ok a) = P a
Sound P (err no_argument) = Unit {0}
Sound P (err past_end) = Unit {0}
Sound P (err overflow) = Unit {0}
Sound P (err buffer) = ⊥
Sound P (err out_of_fuel) = ⊥

Sound->>= :
    {A B : Type 0} (P : A → Type 0) (Q : B → Type 0) (m : Result PrintError A)
    (f : A → Result PrintError B)
    → Sound P m
    → ((a : A) → P a → Sound Q (f a))
    → Sound Q (m >>= f)
Sound->>= P Q (ok a) f s k = k a s
Sound->>= P Q (err no_argument) f s k = tt
Sound->>= P Q (err past_end) f s k = tt
Sound->>= P Q (err overflow) f s k = tt
Sound->>= P Q (err buffer) f s k = s
Sound->>= P Q (err out_of_fuel) f s k = s

Sound-if :
    {A : Type 0} (P : A → Type 0) (b : Bool) (r t : Result PrintError A)
    → Sound P r
    → Sound P t
    → Sound P (if b then r else t)
Sound-if P true r t s s' = s
Sound-if P false r t s s' = s'

abbrev Anything : {A : Type 0} → A → Type 0
Anything a = Unit {0}

-- A number of 64 bits.
abbrev pub IsArgument : Argument → Type 0
IsArgument (word bits) = bits ≤ u64_max
IsArgument (text string) = Unit {0}

emit_uint-Sound :
    (v base : ℕ) (upper : Bool) (width : ℕ) (pad_zero : Bool)
    → v ≤ u64_max
    → (base ≡ 10) ⊎ (base ≡ 16)
    → Sound Anything (to_result (emit_uint v base upper width pad_zero))
emit_uint-Sound v base upper width pad_zero l which =
    let (cs, e, padded, zeros) = emit_uint-IsPadded v base upper width pad_zero l which in
    subst (λ o. Sound Anything (to_result o)) (sym e) tt

signed-Sound : (spec : Spec) (v : ℕ) → v ≤ u64_max → Sound Anything (signed spec v)
unfolding signed
signed-Sound spec v l =
    Sound-if Anything (leb (2 ^ 63) v) _ _
      (Sound->>= Anything Anything
        (to_result (emit_uint ((2 ^ 64 - v) % 2 ^ 64) 10 false spec.width spec.pad_zero)) _
        (emit_uint-Sound ((2 ^ 64 - v) % 2 ^ 64) 10 false spec.width spec.pad_zero (omega arith)
          (inl refl))
        (λ cs _. tt))
      (emit_uint-Sound v 10 false spec.width spec.pad_zero l (inl refl))

next_word-Sound :
    (args : List Argument)
    → All IsArgument args
    → Sound (λ (r : ℕ × List Argument). (r.0 ≤ u64_max) × All IsArgument r.1) (next_word args)
unfolding next_word
next_word-Sound [] a = tt
next_word-Sound (word bits ∷ args) (l, a) = (l, a)
next_word-Sound (text string ∷ args) a = tt

next_text-Sound :
    (args : List Argument)
    → All IsArgument args
    → Sound (λ (r : Option (List ℕ) × List Argument). All IsArgument r.1) (next_text args)
unfolding next_text
next_text-Sound [] a = tt
next_text-Sound (word bits ∷ args) a = tt
next_text-Sound (text string ∷ args) (_, a) = a

abbrev Rest : List ℕ × List Argument → Type 0
Rest r = All IsArgument r.1

-- A conversion of a number that takes one argument.
number-Sound :
    (f : ℕ → Result PrintError (List ℕ)) (args : List Argument)
    → ((v : ℕ) → v ≤ u64_max → Sound Anything (f v))
    → All IsArgument args
    → Sound Rest (next_word args >>= λ (bits, args'). f bits >>= λ cs. ok (cs, args'))
number-Sound f args good a =
    Sound->>= (λ (r : ℕ × List Argument). (r.0 ≤ u64_max) × All IsArgument r.1) Rest
      (next_word args) _ (next_word-Sound args a)
      (λ (bits, args') (l, a').
        Sound->>= Anything Rest (f bits) (λ cs. ok (cs, args')) (good bits l) (λ cs _. a'))

convert-Sound :
    (spec : Spec) (c : ℕ) (args : List Argument)
    → All IsArgument args
    → Sound Rest (convert spec c args)
unfolding convert
convert-Sound spec c args a =
    Sound-if Rest (c == 115) _ _
      (Sound->>= (λ (r : Option (List ℕ) × List Argument). All IsArgument r.1) Rest (next_text args)
        _ (next_text-Sound args a) (λ (string, args') a'. a'))
      (Sound-if Rest (c == 99) _ _
        (number-Sound (λ bits. ok ((bits % 2 ^ 8) ∷ [])) args (λ v l. tt) a)
        (Sound-if Rest (c == 100 || c == 105) _ _
          (number-Sound (λ bits. signed spec (if spec.longs == 0 then extend bits else bits)) args
            (λ v l. signed-Sound spec _ (ground arith)) a)
          (Sound-if Rest (c == 117) _ _
            (number-Sound
              (λ bits.
                to_result (emit_uint (unsigned_of spec bits) 10 false spec.width spec.pad_zero))
              args
              (λ v l. emit_uint-Sound _ 10 false spec.width spec.pad_zero (ground arith) (inl refl))
              a)
            (Sound-if Rest (c == 120 || c == 88) _ _
              (number-Sound
                (λ bits.
                  to_result
                    (emit_uint (unsigned_of spec bits) 16 (c == 88) spec.width spec.pad_zero))
                args
                (λ v l.
                  emit_uint-Sound _ 16 (c == 88) spec.width spec.pad_zero (ground arith) (inr refl))
                a)
              (Sound-if Rest (c == 112) _ _
                (Sound->>= (λ (r : ℕ × List Argument). (r.0 ≤ u64_max) × All IsArgument r.1) Rest
                  (next_word args) _ (next_word-Sound args a)
                  (λ (bits, args') (l, a').
                    Sound->>= Anything Rest (to_result (emit_uint bits 16 false 16 true))
                      (λ cs. ok (48 ∷ 120 ∷ cs, args'))
                      (emit_uint-Sound bits 16 false 16 true l (inr refl)) (λ cs _. a')))
                (Sound-if Rest (c == 37) _ _ a a))))))

-- A step, where the rest of the loop is as it should be.
print_from-suc-Sound :
    (fuel c : ℕ) (fmt : List ℕ) (args : List Argument)
    → length fmt < fuel
    → All IsArgument args
    → ((fmt' : List ℕ) (args' : List Argument)
        → length fmt' < fuel
        → All IsArgument args'
        → Sound Anything (print_from fuel fmt' args'))
    → Sound Anything (print_from (suc fuel) (c ∷ fmt) args)
unfolding print_from
print_from-suc-Sound fuel c fmt args l a again = go (c == 37)
  where
    conversion :
        (o : Option (Spec × List ℕ))
        → Shorter (length fmt) o
        → Sound Anything (elim o as (λ _. Result PrintError (List ℕ)) [
          | none ↦ err overflow
          | some (spec, rest) ↦ elim rest as (λ _. Result PrintError (List ℕ)) [
            | [] ↦ err past_end
            | d ∷ fmt' ↦ convert spec d args >>= λ (cs, args').
                print_from fuel fmt' args' >>= λ text. ok (cs ++ text)
          ]
        ])
    conversion none k = tt
    conversion (some (spec, [])) k = tt
    conversion (some (spec, d ∷ fmt')) k =
        Sound->>= Rest Anything (convert spec d args) _ (convert-Sound spec d args a)
          (λ (cs, args') a'.
            Sound->>= Anything Anything (print_from fuel fmt' args') (λ text. ok (cs ++ text))
              (again fmt' args' (omega (arith, k)) a') (λ text _. tt))

    go :
        (b : Bool)
        → Sound Anything (elim b as (λ _. Result PrintError (List ℕ)) [
          | true ↦ elim (read_spec fmt) as (λ _. Result PrintError (List ℕ)) [
            | none ↦ err overflow
            | some (spec, rest) ↦ elim rest as (λ _. Result PrintError (List ℕ)) [
              | [] ↦ err past_end
              | d ∷ fmt' ↦ convert spec d args >>= λ (cs, args').
                  print_from fuel fmt' args' >>= λ text. ok (cs ++ text)
            ]
          ]
          | false ↦ print_from fuel fmt args >>= λ text. ok (c ∷ text)
        ])
    go true = conversion (read_spec fmt) (read_spec-length fmt)
    go false =
        Sound->>= Anything Anything (print_from fuel fmt args) (λ text. ok (c ∷ text))
          (again fmt args l a) (λ text _. tt)

print_from-Sound :
    (fuel : ℕ) (fmt : List ℕ) (args : List Argument)
    → length fmt < fuel
    → All IsArgument args
    → Sound Anything (print_from fuel fmt args)
unfolding print_from
print_from-Sound zero fmt args l a = absurd (omega arith)
print_from-Sound (suc fuel) [] args l a = tt
print_from-Sound (suc fuel) (c ∷ fmt) args l a =
    print_from-suc-Sound fuel c fmt args (omega arith) a
      (λ fmt' args' l' a'. print_from-Sound fuel fmt' args' l' a')

sound :
    (fmt : List ℕ) (args : List Argument) → All IsArgument args → Sound Anything (kvprintf fmt args)
unfolding kvprintf
sound fmt args a = print_from-Sound (suc (length fmt)) fmt args (omega arith) a

-- Whatever the format and arguments of 64 bits, the loop ends and no number is written behind the
-- buffer: the outcome is a text, or one of the three that C leaves open, for an argument that is
-- missing or of another kind, for a format that ends within a conversion, and for a width or a
-- count of l that is not an int.
pub kvprintf-Sound :
    (fmt : List ℕ) (args : List Argument)
    → All IsArgument args
    → ((cs : List ℕ) × (kvprintf fmt args ≡ ok cs))
      ⊎ (kvprintf fmt args ≡ err no_argument)
      ⊎ (kvprintf fmt args ≡ err past_end)
      ⊎ (kvprintf fmt args ≡ err overflow)
kvprintf-Sound fmt args a = go (kvprintf fmt args) refl (sound fmt args a)
  where
    go :
        (r : Result PrintError (List ℕ))
        → kvprintf fmt args ≡ r
        → Sound Anything r
        → ((cs : List ℕ) × (kvprintf fmt args ≡ ok cs))
          ⊎ (kvprintf fmt args ≡ err no_argument)
          ⊎ (kvprintf fmt args ≡ err past_end)
          ⊎ (kvprintf fmt args ≡ err overflow)
    go (ok cs) e s = inl (cs, e)
    go (err no_argument) e s = inr (inl e)
    go (err past_end) e s = inr (inr (inl e))
    go (err overflow) e s = inr (inr (inr e))
    go (err buffer) e s = absurd s
    go (err out_of_fuel) e s = absurd s
