-- ===== src/Loader/Trace.antt =====
-- bootloader/uefi/main.c: the calls that `efi_main` makes, in their order.
use sypas.Base.{
  ℕ, zero, suc, ◌+◌, ◌%◌, ◌^◌, length, ◌≤◌, ◌≡◌, refl, arith, ap, Bool, true, false, List, [], ◌∷◌,
  Option, none, some, Result, ok, err, ◌⊎◌, inl, inr,
}
use sypas.Elf.Format.{LoadPlan}
use sypas.Loader.Calls.{
  Call, output_string, get_memory_map, exit_boot_services, Firmware, World, MapAnswer, M, pure,
  get_memory_map_failed, Stop, die, die_ascii, efi_error, ◌>>=◌, ◌>>◌, call,
}
use sypas.BootProto.Info.{BootInfo}
use sypas.Loader.Buffers.{MapBuffer}
use sypas.MemoryMap.Translate.{translate}
use sypas.BootProto.{MemmapEntry}
use sypas.Loader.Exit.{input_of, output_of, reject, refuse_if, leave, exit_round, exit_from}
use sypas.MemoryMap.Types.{MapError, range_overlap, out_of_fuel}
use sypas.Loader.Main.{Platform, load_kernel, fill_bootinfo, map_buffers, hand_over, Jump, efi_main}
use sypas.Loader.Quiet.{
  is_exit, attempts, Quiet, load_kernel-Quiet, fill_bootinfo-Quiet, map_buffers-Quiet,
}

-- The calls that are allowed once the loader has asked to leave the boot services.
abbrev pub recovers : Call → Bool
recovers (get_memory_map size) = true
recovers (exit_boot_services k) = true
recovers c = false

-- An attempt follows on the map that its key comes from, and that map was given.
abbrev pub IsKeyed : Firmware → ℕ → List Call → Type 0
IsKeyed fw k [] = ⊥
IsKeyed fw k (c ∷ cs) =
    (efi_error (fw.status (c ∷ cs)) ≡ false)
    × (k ≡ (fw.memory_map (c ∷ cs)).map_key)
    × ((size : ℕ) × (c ≡ get_memory_map size))

-- The calls of a loader that keeps to the rules, the last one first.
abbrev pub Legal : Firmware → List Call → Type 0
Legal fw [] = Unit {0}
Legal fw (c ∷ cs) =
    ((attempts cs ≡ 0) ⊎ (recovers c ≡ true))
    × ((k : ℕ) → c ≡ exit_boot_services k → IsKeyed fw k cs)
    × Legal fw cs

attempts-Legal : (fw : Firmware) (cs : List Call) → attempts cs ≡ 0 → Legal fw cs
attempts-Legal fw [] z = tt
attempts-Legal fw (c ∷ cs) z =
    let none_before : attempts cs ≡ 0 = ground arith in
    let other : is_exit c ≡ false = ground arith in
    (inl none_before, λ k e. absurd (cc (ap is_exit e, other)), attempts-Legal fw cs none_before)

-- What an attempt's round keeps, and adds.
abbrev Obeys : Firmware → ℕ → World → World → Type 0
Obeys fw n w u = Legal fw u.calls × (attempts u.calls ≤ n + attempts w.calls)

reject-Quiet : (A : Type 0) (e : MapError) → Quiet (reject {A = A} true e)
unfolding reject die die_ascii
reject-Quiet A out_of_fuel w z = z
reject-Quiet A (range_overlap d) w z = z
reject-Quiet A e w z = z

reject-Obeys :
    (fw : Firmware) (A : Type 0) (first : Bool) (e : MapError) (w : World)
    → Legal fw w.calls
    → ((first ≡ true) → attempts w.calls ≡ 0)
    → Obeys fw 0 w (reject {A = A} first e w).1
unfolding reject
reject-Obeys fw A false out_of_fuel w l z = (l, omega arith)
reject-Obeys fw A false e w l z = (l, omega arith)
reject-Obeys fw A true e w l z =
    let q : attempts (reject {A = A} true e w).1.calls ≡ 0 = reject-Quiet A e w (z refl) in
    (attempts-Legal fw (reject {A = A} true e w).1.calls q, omega (arith, q))

exit_round-Obeys :
    (fuel : ℕ) (fw : Firmware) (plan : LoadPlan) (b : MapBuffer) (first : Bool) (w : World)
    → Legal fw w.calls
    → ((first ≡ true) → attempts w.calls ≡ 0)
    → Obeys fw 1 w (exit_round fuel fw plan b first w).1
unfolding exit_round refuse_if leave die
exit_round-Obeys fuel fw plan b first w l z = go first (efi_error st) refl z
  where
    u : World
    u = record w { calls = get_memory_map b.buffers.map_bytes ∷ w.calls }

    st : ℕ
    st = fw.status u.calls

    answer : MapAnswer
    answer = fw.memory_map u.calls

    asked : Legal fw u.calls
    asked = (inr refl, λ k e. absurd (cc e), l)

    translated :
        (f : Bool)
        → efi_error st ≡ false
        → ((f ≡ true) → attempts w.calls ≡ 0)
        → (r : Result MapError (List MemmapEntry))
        → Obeys fw 1 w
            (elim r as (λ _. M (Option (List MemmapEntry))) [
              | err e ↦ reject f e
              | ok entries ↦ leave fw answer entries
            ]
              u).1
    translated f given z (err e) =
        let (legal, few) = reject-Obeys fw (Option (List MemmapEntry)) f e u asked z in
        (legal, omega (arith, few))
    translated f given z (ok entries) =
        ((inr refl, λ k e. (given, cc e, (b.buffers.map_bytes, refl)), asked), omega arith)

    go :
        (f failed : Bool)
        → efi_error st ≡ failed
        → ((f ≡ true) → attempts w.calls ≡ 0)
        → Obeys fw 1 w
            ((refuse_if failed f st
                >> elim (translate fuel (input_of plan b answer))
                    as (λ _. M (Option (List MemmapEntry))) [
                      | err e ↦ reject f e
                      | ok entries ↦ leave fw answer entries
                    ])
              u).1
    go f false given z = translated f given z (translate fuel (input_of plan b answer))
    go true true given z = (
      attempts-Legal fw (die {A = Option (List MemmapEntry)} get_memory_map_failed st u).1.calls
          (z refl),
      omega (arith, z refl),
    )
    go false true given z = (asked, omega arith)

exit_from-Obeys :
    (n fuel : ℕ) (fw : Firmware) (plan : LoadPlan) (b : MapBuffer) (first : Bool) (w : World)
    → Legal fw w.calls
    → ((first ≡ true) → attempts w.calls ≡ 0)
    → Obeys fw n w (exit_from n fuel fw plan b first w).1
unfolding exit_from
exit_from-Obeys zero fuel fw plan b first w l z = (l, omega arith)
exit_from-Obeys (suc n) fuel fw plan b first w l z =
    go (exit_round fuel fw plan b first w) (exit_round-Obeys fuel fw plan b first w l z)
      (λ v k. exit_from-Obeys n fuel fw plan b false v k (λ e. absurd (cc e)))
  where
    go :
        (r : Result Stop (Option (List MemmapEntry)) × World)
        → Obeys fw 1 w r.1
        → ((v : World) → Legal fw v.calls → Obeys fw n v (exit_from n fuel fw plan b false v).1)
        → Obeys fw (suc n) w (
            (elim r.0 as (λ _. Result Stop (List MemmapEntry) × World) [
              | ok found ↦
                  (elim found as (λ _. M (List MemmapEntry)) [
                    | some entries ↦ pure entries
                    | none ↦ exit_from n fuel fw plan b false
                  ])
                    r.1
              | err s ↦ (err s, r.1)
            ]).1)
    go (err s, v) (k, few) rest = (k, omega (arith, few))
    go (ok (some entries), v) (k, few) rest = (k, omega (arith, few))
    go (ok none, v) (k, few) rest = let (k', few') = rest v k in (k', omega (arith, few, few'))

abbrev Tame : {A : Type 0} → Firmware → M A → Type 0
Tame fw m =
    (w : World) → attempts w.calls ≡ 0 → Legal fw (m w).1.calls × (attempts (m w).1.calls ≤ 4)

Tame->>= :
    {A B : Type 0} (fw : Firmware) (m : M A) (f : A → M B)
    → Quiet m
    → ((a : A) → Tame fw (f a))
    → Tame fw (m >>= f)
Tame->>= {A} {B} fw m f qm qf w z = go (m w) (qm w z)
  where
    go :
        (r : Result Stop A × World)
        → attempts r.1.calls ≡ 0
        → let u =
            (elim r.0 as (λ _. Result Stop B × World) [
              | ok a ↦ f a r.1
              | err s ↦ (err s, r.1)
            ]).1 in
          Legal fw u.calls × (attempts u.calls ≤ 4)
    go (ok a, v) q = qf a v q
    go (err s, v) q = (attempts-Legal fw v.calls q, omega (arith, q))

hand_over-Tame :
    (fuel : ℕ) (fw : Firmware) (plan : LoadPlan) (bi : BootInfo) (b : MapBuffer)
    → Tame fw (hand_over fuel fw plan bi b)
unfolding hand_over
hand_over-Tame fuel fw plan bi b w z =
    go (exit_from 4 fuel fw plan b true w)
      (exit_from-Obeys 4 fuel fw plan b true w (attempts-Legal fw w.calls z) (λ _. z))
  where
    jump : List MemmapEntry → M Jump
    jump entries = pure (record {
      entry = plan.entry;
      stack_top = (bi.stack_base + bi.stack_size) % 2 ^ 64;
      bootinfo = record bi { memmap = output_of b; memmap_count = length entries };
      entries = entries;
    })

    go :
        (r : Result Stop (List MemmapEntry) × World)
        → Obeys fw 4 w r.1
        → let u =
            (elim r.0 as (λ _. Result Stop Jump × World) [
              | ok a ↦ jump a r.1
              | err s ↦ (err s, r.1)
            ]).1 in
          Legal fw u.calls × (attempts u.calls ≤ 4)
    go (ok entries, v) (l, few) = (l, omega (arith, few, z))
    go (err s, v) (l, few) = (l, omega (arith, few, z))

-- From a state in which no attempt has been made to leave the boot services, whatever the firmware
-- answers, and however the loader ends: once it has asked to leave them it makes no calls but
-- further ones of GetMemoryMap and ExitBootServices; each ExitBootServices follows at once on a
-- GetMemoryMap that succeeded, with the key of that map; and there are at most four.
pub efi_main-Legal :
    (fuel : ℕ) (p : Platform) (w : World)
    → attempts w.calls ≡ 0
    → Legal p.firmware (efi_main fuel p w).1.calls × (attempts (efi_main fuel p w).1.calls ≤ 4)
unfolding efi_main
efi_main-Legal fuel p =
    let fw = p.firmware in
    let out : LoadPlan → BootInfo → MapBuffer → M Jump =
      λ plan bi b. call fw output_string >>= λ _. hand_over fuel fw plan bi b in
    Tame->>= fw (load_kernel fw)
      (λ plan. fill_bootinfo p plan >>= λ bi. map_buffers fw >>= out plan bi) (load_kernel-Quiet fw)
      (λ plan.
        Tame->>= fw (fill_bootinfo p plan) (λ bi. map_buffers fw >>= out plan bi)
          (fill_bootinfo-Quiet p plan)
          (λ bi. Tame->>= fw (map_buffers fw) (out plan bi) (map_buffers-Quiet fw) (λ b w z.
            hand_over-Tame fuel fw plan bi b (record w { calls = output_string ∷ w.calls }) z)))
