-- ===== src/Kernel/Formats.antt =====
-- kernel/debug/kprintf.c: a format that asks for the kinds of its arguments is printed.
use sypas.Base.{
  ℕ, zero, suc, ◌≡◌, refl, arith, ap, ◌∙◌, Bool, true, false, leb, ◌==◌, ◌||◌, ◌-◌, ◌%◌, ◌^◌,
  if◌then◌else◌, List, [], ◌∷◌, ◌++◌, length, Option, none, some, Result, ok, err, ◌>>=◌, All, map,
  subst, Bool-cases, Option-cases, sym, inl, inr,
}
use mathlib.Core.Option.{some-injective}
use sypas.Kernel.Print.{
  Argument, word, text, PrintError, no_argument, past_end, overflow, buffer, out_of_fuel, next_word,
  next_text, Spec, read_spec, to_result, signed, emit_uint, extend, unsigned_of, convert,
  print_from, kvprintf,
}
use sypas.Kernel.Printed.{IsArgument, kvprintf-Sound}
use sypas.Kernel.Kinds.{Kind, number, string, kind_of, asks, kinds_from, Fits}

-- The outcome is not that an argument is missing, that the format ends early or that a width is not
-- an int; a result has a property.
abbrev Typed : {A : Type 0} → (A → Type 0) → Result PrintError A → Type 0
Typed P (ok a) = P a
Typed P (err no_argument) = ⊥
Typed P (err past_end) = ⊥
Typed P (err overflow) = ⊥
Typed P (err buffer) = Unit {0}
Typed P (err out_of_fuel) = Unit {0}

Typed->>= :
    {A B : Type 0} (P : A → Type 0) (Q : B → Type 0) (m : Result PrintError A)
    (f : A → Result PrintError B)
    → Typed P m
    → ((a : A) → P a → Typed Q (f a))
    → Typed Q (m >>= f)
Typed->>= P Q (ok a) f t k = k a t
Typed->>= P Q (err no_argument) f t k = t
Typed->>= P Q (err past_end) f t k = t
Typed->>= P Q (err overflow) f t k = t
Typed->>= P Q (err buffer) f t k = tt
Typed->>= P Q (err out_of_fuel) f t k = tt

Typed-if :
    {A : Type 0} (P : A → Type 0) (b : Bool) (r t : Result PrintError A)
    → (b ≡ true → Typed P r)
    → (b ≡ false → Typed P t)
    → Typed P (if b then r else t)
Typed-if P true r t h k = h refl
Typed-if P false r t h k = k refl

abbrev Anything : List ℕ → Type 0
Anything cs = Unit {0}

abbrev Leaves : List Kind → List ℕ × List Argument → Type 0
Leaves ks r = map kind_of r.1 ≡ ks

to_result-Typed : (o : Option (List ℕ)) → Typed Anything (to_result o)
to_result-Typed none = tt
to_result-Typed (some cs) = tt

signed-Typed : (spec : Spec) (v : ℕ) → Typed Anything (signed spec v)
unfolding signed
signed-Typed spec v =
    Typed-if Anything (leb (2 ^ 63) v) _ _
      (λ e.
        Typed->>= Anything Anything
          (to_result (emit_uint ((2 ^ 64 - v) % 2 ^ 64) 10 false spec.width spec.pad_zero)) _
          (to_result-Typed _) (λ cs t. tt))
      (λ e. to_result-Typed _)

next_text-Typed :
    (args : List Argument) (ks : List Kind)
    → map kind_of args ≡ string ∷ ks
    → Typed (λ (r : Option (List ℕ) × List Argument). map kind_of r.1 ≡ ks) (next_text args)
unfolding next_text
next_text-Typed [] ks h = absurd (cc)
next_text-Typed (word bits ∷ args) ks h = absurd (cc)
next_text-Typed (text s ∷ args) ks h = cc

next_word-Typed :
    (args : List Argument) (ks : List Kind)
    → map kind_of args ≡ number ∷ ks
    → Typed (λ (r : ℕ × List Argument). map kind_of r.1 ≡ ks) (next_word args)
unfolding next_word
next_word-Typed [] ks h = absurd (cc)
next_word-Typed (word bits ∷ args) ks h = cc
next_word-Typed (text s ∷ args) ks h = absurd (cc)

-- A conversion that takes a number.
number-Typed :
    (f : ℕ → Result PrintError (List ℕ)) (g : List ℕ → List ℕ) (args : List Argument)
    (ks : List Kind)
    → ((v : ℕ) → Typed Anything (f v))
    → map kind_of args ≡ number ∷ ks
    → Typed (Leaves ks) (next_word args >>= λ (bits, args'). f bits >>= λ cs. ok (g cs, args'))
number-Typed f g args ks good h =
    Typed->>= (λ (r : ℕ × List Argument). map kind_of r.1 ≡ ks) (Leaves ks) (next_word args) _
      (next_word-Typed args ks h)
      (λ (bits, args') e.
        Typed->>= Anything (Leaves ks) (f bits) (λ cs. ok (g cs, args')) (good bits) (λ cs t. e))

module _ (spec : Spec) (c : ℕ) (args : List Argument) (ks : List Kind)
    (h : map kind_of args ≡ asks c ++ ks) where
  takes_number :
      asks c ≡ number ∷ []
      → (f : ℕ → Result PrintError (List ℕ)) (g : List ℕ → List ℕ)
      → ((v : ℕ) → Typed Anything (f v))
      → Typed (Leaves ks) (next_word args >>= λ (bits, args'). f bits >>= λ cs. ok (g cs, args'))
  takes_number e f g good = number-Typed f g args ks good (h ∙ ap (λ x. x ++ ks) e)

  unsigned :
      c == 115 ≡ false
      → c == 99 ≡ false
      → (c == 100 || c == 105) ≡ false
      → Typed (Leaves ks) (
          if c == 117
          then (next_word args >>= λ (bits, args').
              to_result (emit_uint (unsigned_of spec bits) 10 false spec.width spec.pad_zero)
              >>= λ cs. ok (cs, args'))
          else if c == 120 || c == 88
          then (next_word args >>= λ (bits, args').
              to_result (emit_uint (unsigned_of spec bits) 16 (c == 88) spec.width spec.pad_zero)
              >>= λ cs. ok (cs, args'))
          else if c == 112
          then (next_word args >>= λ (bits, args').
              to_result (emit_uint bits 16 false 16 true) >>= λ cs. ok (48 ∷ 120 ∷ cs, args'))
          else if c == 37
          then ok (37 ∷ [], args)
          else ok (37 ∷ c ∷ [], args))
  unsigned no_s no_c no_d =
      Typed-if (Leaves ks) (c == 117) _ _
        (λ e.
          takes_number (ground (arith, e))
            (λ bits.
              to_result (emit_uint (unsigned_of spec bits) 10 false spec.width spec.pad_zero))
            (λ cs. cs) (λ v. to_result-Typed _))
        (λ no_u.
          Typed-if (Leaves ks) (c == 120 || c == 88) _ _
            (λ e.
              takes_number (ground (arith, e))
                (λ bits.
                  to_result
                    (emit_uint (unsigned_of spec bits) 16 (c == 88) spec.width spec.pad_zero))
                (λ cs. cs) (λ v. to_result-Typed _))
            (λ no_x.
              Typed-if (Leaves ks) (c == 112) _ _
                (λ e.
                  takes_number (ground (arith, e))
                    (λ bits. to_result (emit_uint bits 16 false 16 true)) (λ cs. 48 ∷ 120 ∷ cs)
                    (λ v. to_result-Typed _))
                (λ no_p.
                  let none_asked : asks c ≡ [] =
                    ground (arith, no_s, no_c, no_d, no_u, no_x, no_p) in
                  let same : map kind_of args ≡ ks = h ∙ ap (λ x. x ++ ks) none_asked in
                  Typed-if (Leaves ks) (c == 37) _ _ (λ e. same) (λ e. same))))

  convert-Typed : Typed (Leaves ks) (convert spec c args)
  unfolding convert
  convert-Typed =
      Typed-if (Leaves ks) (c == 115) _ _
        (λ e.
          Typed->>= (λ (r : Option (List ℕ) × List Argument). map kind_of r.1 ≡ ks) (Leaves ks)
            (next_text args) _
            (next_text-Typed args ks
              (h ∙ ap (λ x. x ++ ks) (let k : asks c ≡ string ∷ [] = ground (arith, e) in k)))
            (λ (s, args') r. r))
        (λ no_s.
          Typed-if (Leaves ks) (c == 99) _ _
            (λ e.
              takes_number (ground (arith, e)) (λ bits. ok ((bits % 2 ^ 8) ∷ [])) (λ cs. cs)
                (λ v. tt))
            (λ no_c.
              Typed-if (Leaves ks) (c == 100 || c == 105) _ _
                (λ e.
                  takes_number (ground (arith, e))
                    (λ bits. signed spec (if spec.longs == 0 then extend bits else bits)) (λ cs. cs)
                    (λ v. signed-Typed spec _))
                (λ no_d. unsigned no_s no_c no_d)))

-- A conversion and what follows, where the rest of the loop is as it should be.
conversion-Typed :
    (fuel : ℕ) (args : List Argument)
    → ((fmt' : List ℕ) (args' : List Argument)
        → kinds_from fuel fmt' ≡ some (map kind_of args')
        → Typed Anything (print_from fuel fmt' args'))
    → (o : Option (Spec × List ℕ))
    → (elim o as (λ _. Option (List Kind)) [
      | none ↦ none
      | some (spec, rest) ↦ elim rest as (λ _. Option (List Kind)) [
        | [] ↦ none
        | d ∷ fmt' ↦ elim (kinds_from fuel fmt') [ none ↦ none | some ks ↦ some (asks d ++ ks) ]
      ]
    ])
      ≡ some (map kind_of args)
    → Typed Anything (elim o as (λ _. Result PrintError (List ℕ)) [
      | none ↦ err overflow
      | some (spec, rest) ↦ elim rest as (λ _. Result PrintError (List ℕ)) [
        | [] ↦ err past_end
        | d ∷ fmt' ↦ convert spec d args >>= λ (cs, args').
            print_from fuel fmt' args' >>= λ text. ok (cs ++ text)
      ]
    ])
conversion-Typed fuel args again none h = absurd (cc)
conversion-Typed fuel args again (some (spec, [])) h = absurd (cc)
conversion-Typed fuel args again (some (spec, d ∷ fmt')) h =
    elim (Option-cases (kinds_from fuel fmt')) [
      | inl e ↦ absurd (let h' = rw e at h in cc)
      | inr (ks, e) ↦
          let asked : map kind_of args ≡ asks d ++ ks =
            sym (some-injective _ _ (rw (e, kinds_from) at h)) in
          Typed->>= (Leaves ks) Anything (convert spec d args) _
            (convert-Typed spec d args ks asked)
            (λ (cs, args') left.
              Typed->>= Anything Anything (print_from fuel fmt' args') (λ text. ok (cs ++ text))
                (again fmt' args' (e ∙ ap some (sym left))) (λ text t. tt))
    ]

print_from-Typed :
    (fuel : ℕ) (fmt : List ℕ) (args : List Argument)
    → kinds_from fuel fmt ≡ some (map kind_of args)
    → Typed Anything (print_from fuel fmt args)
unfolding print_from
print_from-Typed zero fmt args h = absurd (cc)
print_from-Typed (suc fuel) [] args h = tt
print_from-Typed (suc fuel) (c ∷ fmt) args h = elim (Bool-cases (c == 37)) [
  | inl e ↦
      rw (e, print_from)
        (conversion-Typed fuel args (λ fmt' args' k. print_from-Typed fuel fmt' args' k)
          (read_spec fmt) (rw (e, kinds_from) at h))
  | inr e ↦
      rw (e, print_from)
        (Typed->>= Anything Anything (print_from fuel fmt args) (λ rest. ok (c ∷ rest))
          (print_from-Typed fuel fmt args (rw (e, kinds_from) at h)) (λ rest t. tt))
]

-- A format whose widths are ints and that asks for arguments of the kinds that are given, each
-- number of 64 bits, is printed: the outcome of kvprintf is a text.
pub kvprintf-Fits :
    (fmt : List ℕ) (args : List Argument)
    → All IsArgument args
    → Fits fmt args
    → (cs : List ℕ) × (kvprintf fmt args ≡ ok cs)
unfolding kvprintf
kvprintf-Fits fmt args a h =
    let typed = print_from-Typed (suc (length fmt)) fmt args h in
    elim (kvprintf-Sound fmt args a) [
      | inl printed ↦ printed
      | inr (inl e) ↦ absurd (subst (Typed Anything) e typed)
      | inr (inr (inl e)) ↦ absurd (subst (Typed Anything) e typed)
      | inr (inr (inr e)) ↦ absurd (subst (Typed Anything) e typed)
    ]
