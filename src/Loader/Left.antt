-- ===== src/Loader/Left.antt =====
-- bootloader/uefi/main.c: the last calls of a loop that leaves the boot services.
use sypas.Base.{
  ℕ, zero, suc, ◌≡◌, refl, arith, sym, ap, subst, Bool, true, false, List, ◌∷◌, Option, none, some,
  Result, ok, err,
}
use sypas.BootProto.{MemmapEntry}
use sypas.Elf.Format.{LoadPlan}
use sypas.MemoryMap.Types.{MapError, range_overlap, out_of_fuel}
use sypas.MemoryMap.Translate.{translate}
use sypas.Loader.Calls.{
  Call, get_memory_map, exit_boot_services, Firmware, World, MapAnswer, M, Stop, pure, ◌>>◌,
  efi_error, >>=-eq-ok, die_ascii-ne-ok, die-ne-ok, map_rejected, efi_load_error,
  get_memory_map_failed,
}
use sypas.Loader.Buffers.{MapBuffer}
use sypas.Loader.Exit.{reject, refuse_if, leave, exit_round, exit_from, input_of}

reject-ne-ok :
    (A : Type 0) (first : Bool) (e : MapError) (w : World) {a : A} {u : World}
    → reject {A = A} first e w ≡ (ok a, u)
    → ⊥
unfolding reject
reject-ne-ok A first out_of_fuel w h = cc (ap (λ (r : Result Stop A × World). r.0) h)
reject-ne-ok A false e w h = cc (ap (λ (r : Result Stop A × World). r.0) h)
reject-ne-ok A true (range_overlap d) w {a} {u} h =
    die_ascii-ne-ok (map_rejected (range_overlap d)) efi_load_error _ {a = a} {u = u} h
reject-ne-ok A true e w {a} {u} h =
    die_ascii-ne-ok (map_rejected e) efi_load_error w {a = a} {u = u} h

-- The last two calls of the loader, and the map that came of them.
pub record Left (fuel : ℕ) (fw : Firmware) (plan : LoadPlan) (b : MapBuffer)
    (entries : List MemmapEntry) (u : World) : Type 0 where
  pub before : List Call
  pub given : efi_error (fw.status (get_memory_map b.buffers.map_bytes ∷ before)) ≡ false
  pub translated :
      translate fuel (input_of plan b (fw.memory_map (get_memory_map b.buffers.map_bytes ∷ before)))
      ≡ ok entries
  pub keyed :
      u.calls
      ≡ exit_boot_services (fw.memory_map (get_memory_map b.buffers.map_bytes ∷ before)).map_key
        ∷ get_memory_map b.buffers.map_bytes
        ∷ before
  pub accepted : efi_error (fw.status u.calls) ≡ false

leave-ok :
    (fw : Firmware) (answer : MapAnswer) (entries : List MemmapEntry) (w : World)
    {found : List MemmapEntry} {u : World}
    → leave fw answer entries w ≡ (ok (some found), u)
    → (efi_error (fw.status (exit_boot_services answer.map_key ∷ w.calls)) ≡ false)
      × (found ≡ entries)
      × (u.calls ≡ exit_boot_services answer.map_key ∷ w.calls)
unfolding leave
leave-ok fw answer entries w h = ground arith

exit_round-Left :
    (fuel : ℕ) (fw : Firmware) (plan : LoadPlan) (b : MapBuffer) (first : Bool) (w : World)
    {entries : List MemmapEntry} {u : World}
    → exit_round fuel fw plan b first w ≡ (ok (some entries), u)
    → Left fuel fw plan b entries u
unfolding exit_round refuse_if
exit_round-Left fuel fw plan b first w {entries} {u} h =
    go first (efi_error (fw.status v.calls)) refl h
  where
    v : World
    v = record w { calls = get_memory_map b.buffers.map_bytes ∷ w.calls }

    answer : MapAnswer
    answer = fw.memory_map v.calls

    use_map : Bool → Result MapError (List MemmapEntry) → M (Option (List MemmapEntry))
    use_map f r = elim r [ err e ↦ reject f e | ok es ↦ leave fw answer es ]

    translated :
        (f : Bool)
        → efi_error (fw.status v.calls) ≡ false
        → (r : Result MapError (List MemmapEntry)) → translate fuel (input_of plan b answer) ≡ r
        → use_map f r v ≡ (ok (some entries), u)
        → Left fuel fw plan b entries u
    translated f given (err e) t g =
        absurd (reject-ne-ok (Option (List MemmapEntry)) f e v {a = some entries} {u = u} g)
    translated f given (ok es) t g =
        let (accepted, same, calls) = leave-ok fw answer es v g in
        record {
          before = w.calls;
          given = given;
          translated = subst (λ x. translate fuel (input_of plan b answer) ≡ ok x) (sym same) t;
          keyed = calls;
          accepted = subst (λ cs. efi_error (fw.status cs) ≡ false) (sym calls) accepted;
        }

    go :
        (f failed : Bool)
        → efi_error (fw.status v.calls) ≡ failed
        → (refuse_if failed f (fw.status v.calls)
              >> use_map f (translate fuel (input_of plan b answer)))
            v
          ≡ (ok (some entries), u)
        → Left fuel fw plan b entries u
    go f false given g = translated f given (translate fuel (input_of plan b answer)) refl g
    go true true given g = absurd (
        die-ne-ok {A = Option (List MemmapEntry)} get_memory_map_failed (fw.status v.calls) v
          {a = some entries} {u = u} g)
    go false true given g =
        absurd (cc (ap (λ (r : Result Stop (Option (List MemmapEntry)) × World). r.0) g))

pub exit_from-Left :
    (n fuel : ℕ) (fw : Firmware) (plan : LoadPlan) (b : MapBuffer) (first : Bool) (w : World)
    {entries : List MemmapEntry} {u : World}
    → exit_from n fuel fw plan b first w ≡ (ok entries, u)
    → Left fuel fw plan b entries u
unfolding exit_from
exit_from-Left zero fuel fw plan b first w {entries} {u} h =
    absurd (cc (ap (λ (r : Result Stop (List MemmapEntry) × World). r.0) h))
exit_from-Left (suc n) fuel fw plan b first w {entries} {u} h =
    let (found, v, done, rest) = >>=-eq-ok (exit_round fuel fw plan b first) next w h in
    go found v done rest (λ v' g. exit_from-Left n fuel fw plan b false v' g)
  where
    next : Option (List MemmapEntry) → M (List MemmapEntry)
    next found = elim found [ some es ↦ pure es | none ↦ exit_from n fuel fw plan b false ]

    go :
        (found : Option (List MemmapEntry)) (v : World)
        → exit_round fuel fw plan b first w ≡ (ok found, v)
        → next found v ≡ (ok entries, u)
        → ((v' : World)
            → exit_from n fuel fw plan b false v' ≡ (ok entries, u)
            → Left fuel fw plan b entries u)
        → Left fuel fw plan b entries u
    go none v done rest again = again v rest
    go (some es) v done rest again =
        let same : es ≡ entries = cc rest in
        let there : v ≡ u = ap (λ (r : Result Stop (List MemmapEntry) × World). r.1) rest in
        subst (λ x. Left fuel fw plan b x u) same
          (subst (Left fuel fw plan b es) there (exit_round-Left fuel fw plan b first w done))
