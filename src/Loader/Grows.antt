-- ===== src/Loader/Grows.antt =====
-- bootloader/uefi/main.c: the loop that leaves the boot services only adds to the calls that were made.
use sypas.Base.{
  ℕ, zero, suc, ◌≡◌, refl, ap, ◌∙◌, sym, Bool, true, false, List, [], ◌∷◌, ◌++◌, Option, none, some,
  Result, ok, err,
}
use sypas.BootProto.{MemmapEntry}
use sypas.Elf.Format.{LoadPlan}
use sypas.MemoryMap.Types.{MapError, range_overlap, out_of_fuel}
use sypas.MemoryMap.Translate.{translate}
use sypas.Loader.Calls.{
  Call, stall, output_string, get_memory_map, exit_boot_services, Firmware, World, MapAnswer, M,
  Stop, pure, ◌>>=◌, die, die_ascii, efi_error,
}
use sypas.Loader.Buffers.{MapBuffer}
use sypas.Loader.Exit.{reject, refuse_if, leave, exit_round, exit_from, input_of}

-- The calls of the second list are those of the first and later ones.
abbrev pub Extends : List Call → List Call → Type 0
Extends cs ds = (later : List Call) × (ds ≡ later ++ cs)

append_assoc : (xs ys zs : List Call) → (xs ++ ys) ++ zs ≡ xs ++ (ys ++ zs)
append_assoc [] ys zs = refl
append_assoc (x ∷ xs) ys zs = ap (λ l. x ∷ l) (append_assoc xs ys zs)

pub Extends-trans : (bs cs ds : List Call) → Extends bs cs → Extends cs ds → Extends bs ds
Extends-trans bs cs ds (xs, e) (ys, e') =
    (ys ++ xs, e' ∙ ap (λ l. ys ++ l) e ∙ sym (append_assoc ys xs bs))

abbrev pub Grows : {A : Type 0} → M A → Type 0
Grows m = (w : World) → Extends w.calls (m w).1.calls

Grows->>= :
    {A B : Type 0} (m : M A) (f : A → M B) → Grows m → ((a : A) → Grows (f a)) → Grows (m >>= f)
Grows->>= {A} {B} m f gm gf w = go (m w) (gm w)
  where
    go :
        (r : Result Stop A × World)
        → Extends w.calls r.1.calls
        → Extends w.calls (
            (elim r.0 as (λ _. Result Stop B × World) [
              | ok a ↦ f a r.1
              | err s ↦ (err s, r.1)
            ]).1.calls)
    go (ok a, v) g = Extends-trans w.calls v.calls _ g (gf a v)
    go (err s, v) g = g

-- The calls of `die_ascii`.
abbrev last_words : List Call
last_words =
    stall ∷ output_string ∷ output_string ∷ output_string ∷ output_string ∷ output_string
    ∷ output_string ∷ output_string ∷ output_string ∷ []

reject-Grows : (A : Type 0) (first : Bool) (e : MapError) → Grows (reject {A = A} first e)
unfolding reject die die_ascii
reject-Grows A first out_of_fuel w = ([], refl)
reject-Grows A false e w = ([], refl)
reject-Grows A true (range_overlap d) w = (
  last_words
      ++ (output_string ∷ output_string ∷ output_string ∷ output_string ∷ output_string
          ∷ output_string ∷ output_string ∷ output_string ∷ output_string ∷ []),
  refl,
)
reject-Grows A true e w = (last_words, refl)

refuse_if-Grows : (failed first : Bool) (st : ℕ) → Grows (refuse_if failed first st)
unfolding refuse_if die
refuse_if-Grows false first st w = ([], refl)
refuse_if-Grows true true st w = (
  stall ∷ output_string ∷ output_string ∷ output_string ∷ output_string ∷ output_string ∷ [],
  refl,
)
refuse_if-Grows true false st w = ([], refl)

leave-Grows :
    (fw : Firmware) (answer : MapAnswer) (entries : List MemmapEntry)
    → Grows (leave fw answer entries)
unfolding leave
leave-Grows fw answer entries w = (exit_boot_services answer.map_key ∷ [], refl)

exit_round-Grows :
    (fuel : ℕ) (fw : Firmware) (plan : LoadPlan) (b : MapBuffer) (first : Bool)
    → Grows (exit_round fuel fw plan b first)
unfolding exit_round
exit_round-Grows fuel fw plan b first w =
    let asked : World = record w { calls = get_memory_map b.buffers.map_bytes ∷ w.calls } in
    let answer : MapAnswer = fw.memory_map asked.calls in
    let st : ℕ = fw.status asked.calls in
    Extends-trans w.calls asked.calls _ (get_memory_map b.buffers.map_bytes ∷ [], refl)
      (Grows->>= (refuse_if (efi_error st) first st)
        (λ _. used answer (translate fuel (input_of plan b answer)))
        (refuse_if-Grows (efi_error st) first st)
        (λ _. used-Grows answer (translate fuel (input_of plan b answer))) asked)
  where
    used : MapAnswer → Result MapError (List MemmapEntry) → M (Option (List MemmapEntry))
    used answer r = elim r [ err e ↦ reject first e | ok entries ↦ leave fw answer entries ]

    used-Grows :
        (answer : MapAnswer) (r : Result MapError (List MemmapEntry)) → Grows (used answer r)
    used-Grows answer (err e) = reject-Grows (Option (List MemmapEntry)) first e
    used-Grows answer (ok entries) = leave-Grows fw answer entries

-- However the loop ends.
pub exit_from-Grows :
    (n fuel : ℕ) (fw : Firmware) (plan : LoadPlan) (b : MapBuffer) (first : Bool)
    → Grows (exit_from n fuel fw plan b first)
unfolding exit_from
exit_from-Grows zero fuel fw plan b first = λ w. ([], refl)
exit_from-Grows (suc n) fuel fw plan b first =
    Grows->>= (exit_round fuel fw plan b first) next (exit_round-Grows fuel fw plan b first)
      (λ found. next-Grows found (exit_from-Grows n fuel fw plan b false))
  where
    next : Option (List MemmapEntry) → M (List MemmapEntry)
    next found = elim found [ some es ↦ pure es | none ↦ exit_from n fuel fw plan b false ]

    next-Grows :
        (found : Option (List MemmapEntry))
        → Grows (exit_from n fuel fw plan b false)
        → Grows (next found)
    next-Grows (some es) again = λ w. ([], refl)
    next-Grows none again = again
