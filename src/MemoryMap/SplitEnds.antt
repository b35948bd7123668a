-- ===== src/MemoryMap/SplitEnds.antt =====
-- bootloader/uefi/memory_map.c: when the splitting loop ends, and when it does not.
use sypas.Base.{
  Among, ℕ, zero, suc, ◌+◌, ◌≤◌, ◌<◌, ◌≡◌, ◌≢◌, refl, arith, ltb, ◌&&◌, if◌then◌else◌, List, [],
  ◌∷◌, Option, none, some, ok, err, add_ok, u64_max, Option-cases, inl, inr, sym, ◌∙◌, subst, ◌⊎◌,
  Result-cases,
}
use sypas.BootProto.{MemmapEntry}
use mathlib.Core.Option.{some-injective}
use sypas.BootProto.MemType
use sypas.Elf.Format.{Segment}
use sypas.MemoryMap.Types.{MapError, out_of_fuel}
use sypas.MemoryMap.Append.{push, append}
use sypas.MemoryMap.Split.{meets, pick, next_from, next_kernel_segment, Output, split_round, split}

-- A segment that begins before the address and ends behind it.
pub record Straddles (end : ℕ) (s : Segment) : Type 0 where
  pub begins : s.page_base < end
  pub ends : end < s.page_end

abbrev pub Clear : ℕ → Segment → Type 0
Clear end s = (s.page_end ≤ end) ⊎ (end ≤ s.page_base)

-- How many segments meet what is left of the range.
abbrev pub remaining : ℕ → ℕ → List Segment → ℕ
remaining cursor end [] = 0
remaining cursor end (s ∷ segs) =
    (if ltb cursor s.page_end && ltb s.page_base end then 1 else 0) + remaining cursor end segs

pick-cases :
    (cursor end : ℕ) (best : Option Segment) (t : Segment)
    → (pick cursor end best t ≡ best)
      ⊎ ((pick cursor end best t ≡ some t) × (cursor < t.page_end) × (t.page_base < end))
unfolding pick meets
pick-cases cursor end none t = ground arith
pick-cases cursor end (some b) t = ground arith

-- What the search finds is the best one it began with, or a segment that meets the range.
next_from-Among :
    (cursor end : ℕ) (best : Option Segment) (segs : List Segment) {s : Segment}
    → next_from cursor end best segs ≡ some s
    → (best ≡ some s) ⊎ (Among s segs × (cursor < s.page_end) × (s.page_base < end))
unfolding next_from
next_from-Among cursor end best [] h = inl h
next_from-Among cursor end best (t ∷ segs) {s} h =
    elim (next_from-Among cursor end (pick cursor end best t) segs h) [
      | inr (among, l, r) ↦ inr (inr among, l, r)
      | inl e ↦ elim (pick-cases cursor end best t) [
        | inl same ↦ inl (sym same ∙ e)
        | inr (taken, l, r) ↦
            let q : t ≡ s = some-injective _ _ (sym taken ∙ e) in
            inr (
              inl (sym q),
              subst (λ x. cursor < x.page_end) q l,
              subst (λ x. x.page_base < end) q r,
            )
      ]
    ]

pick-keeps :
    (cursor end : ℕ) (b t : Segment) → (s : Segment) × (pick cursor end (some b) t ≡ some s)
unfolding pick
pick-keeps cursor end b t =
    (if meets cursor end t && ltb t.page_base b.page_base then t else b, ground arith)

pick-takes :
    (cursor end : ℕ) (best : Option Segment) (t : Segment)
    → cursor < t.page_end
    → t.page_base < end
    → (s : Segment) × (pick cursor end best t ≡ some s)
unfolding pick meets
pick-takes cursor end none t l r = (t, ground arith)
pick-takes cursor end (some b) t l r = pick-keeps cursor end b t

-- If a segment meets the range the search finds one.
next_from-found :
    (cursor end : ℕ) (best : Option Segment) (segs : List Segment)
    → ((b : Segment) × (best ≡ some b))
      ⊎ ((s : Segment) × Among s segs × (cursor < s.page_end) × (s.page_base < end))
    → (s : Segment) × (next_from cursor end best segs ≡ some s)
unfolding next_from
next_from-found cursor end best [] (inl b) = b
next_from-found cursor end best [] (inr (s, among, l, r)) = absurd among
next_from-found cursor end best (t ∷ segs) h =
    next_from-found cursor end (pick cursor end best t) segs (go h)
  where
    go :
        ((b : Segment) × (best ≡ some b))
          ⊎ ((s : Segment) × Among s (t ∷ segs) × (cursor < s.page_end) × (s.page_base < end))
        → ((b : Segment) × (pick cursor end best t ≡ some b))
          ⊎ ((s : Segment) × Among s segs × (cursor < s.page_end) × (s.page_base < end))
    go (inl (b, e)) = inl (
        subst (λ o. (x : Segment) × (pick cursor end o t ≡ some x)) (sym e)
          (pick-keeps cursor end b t))
    go (inr (s, inl e, l, r)) = inl (
        pick-takes cursor end best t (subst (λ x. cursor < x.page_end) e l)
          (subst (λ x. x.page_base < end) e r))
    go (inr (s, inr among, l, r)) = inr (s, among, l, r)

remaining_mono :
    (a b end : ℕ) (segs : List Segment) → a ≤ b → remaining b end segs ≤ remaining a end segs
remaining_mono a b end [] l = omega arith
remaining_mono a b end (s ∷ segs) l = ground (arith, remaining_mono a b end segs l)

remaining-lt :
    (cursor end : ℕ) (s : Segment) (segs : List Segment)
    → Among s segs
    → cursor < s.page_end
    → s.page_base < end
    → remaining s.page_end end segs < remaining cursor end segs
remaining-lt cursor end s [] among l r = absurd among
remaining-lt cursor end s (t ∷ segs) (inl e) l r =
    subst (λ x. remaining s.page_end end (x ∷ segs) < remaining cursor end (x ∷ segs)) e
      (ground (arith, remaining_mono cursor s.page_end end segs))
remaining-lt cursor end s (t ∷ segs) (inr among) l r =
    ground (arith, remaining-lt cursor end s segs among l r)

append-ne-fuel :
    (cap : ℕ) (out : List MemmapEntry) (base end type : ℕ)
    → append cap out base end type ≢ err out_of_fuel
unfolding append push
append-ne-fuel cap [] base end type h = ground arith
append-ne-fuel cap (p ∷ out) base end type h = ground arith

split_round-ne-fuel :
    (cap type cursor end : ℕ) (s : Segment) (o : Output)
    → split_round cap type cursor end s o ≢ err out_of_fuel
unfolding split_round
split_round-ne-fuel cap type cursor end s o h = elim (Option-cases (next_kernel_segment [] 0 0)) [
  | inl e ↦ grind (arith, append-ne-fuel)
  | inr e ↦ grind (arith, append-ne-fuel)
]

split_round-hi :
    (cap type cursor end : ℕ) (s : Segment) (o : Output) {o' : Output} {hi : ℕ}
    → split_round cap type cursor end s o ≡ ok (o', hi)
    → hi ≡ (if ltb s.page_end end then s.page_end else end)
unfolding split_round
split_round-hi cap type cursor end s o h = ground arith

split-suc :
    (fuel cap : ℕ) (segs : List Segment) (type cursor end : ℕ) (o o' : Output) (hi : ℕ)
    (s : Segment)
    → next_kernel_segment segs cursor end ≡ some s
    → split_round cap type cursor end s o ≡ ok (o', hi)
    → split (suc fuel) cap segs type cursor end o ≡ split fuel cap segs type hi end o'
unfolding split
split-suc fuel cap segs type cursor end o o' hi s found round = ground (arith, found, round)

split-suc_err :
    (fuel cap : ℕ) (segs : List Segment) (type cursor end : ℕ) (o : Output) (s : Segment)
    (e : MapError)
    → next_kernel_segment segs cursor end ≡ some s
    → split_round cap type cursor end s o ≡ err e
    → split (suc fuel) cap segs type cursor end o ≡ err e
unfolding split
split-suc_err fuel cap segs type cursor end o s e found round = ground (arith, found, round)

split-suc-none :
    (fuel cap : ℕ) (segs : List Segment) (type cursor end : ℕ) (o : Output)
    → next_kernel_segment segs cursor end ≡ none
    → split (suc fuel) cap segs type cursor end o ≡ ok (o, cursor)
unfolding split
split-suc-none fuel cap segs type cursor end o stop = ground (arith, stop)

pub next-Among :
    (segs : List Segment) (cursor end : ℕ) {s : Segment}
    → next_kernel_segment segs cursor end ≡ some s
    → Among s segs × (cursor < s.page_end) × (s.page_base < end)
unfolding next_kernel_segment
next-Among segs cursor end h = elim (next_from-Among cursor end none segs h) [
  | inl e ↦ absurd (cc)
  | inr found ↦ found
]

-- Where no segment straddles the end of the range, the loop ends within one round for each segment
-- that meets the range and one more: it never runs out of such fuel.
pub split_ends :
    (fuel cap : ℕ) (segs : List Segment) (type cursor end : ℕ) (o : Output)
    → ((s : Segment) → Among s segs → Clear end s)
    → remaining cursor end segs < fuel
    → split fuel cap segs type cursor end o ≢ err out_of_fuel
split_ends zero cap segs type cursor end o clear enough h = absurd (omega arith)
split_ends (suc fuel) cap segs type cursor end o clear enough h =
    elim (Option-cases (next_kernel_segment segs cursor end)) [
      | inl stop ↦ cc (split-suc-none fuel cap segs type cursor end o stop)
      | inr (s, found) ↦ elim (Result-cases (split_round cap type cursor end s o)) [
        | inl (e, bad) ↦
            split_round-ne-fuel cap type cursor end s o
              (cc (split-suc_err fuel cap segs type cursor end o s e found bad))
        | inr ((o', hi), round) ↦
            let (among, l, r) = next-Among segs cursor end found in
            let top : hi ≡ s.page_end =
              split_round-hi cap type cursor end s o round ∙ ground (arith, clear s among) in
            split_ends fuel cap segs type hi end o' clear
              (subst (λ x. remaining x end segs < fuel) (sym top)
                (omega (arith, remaining-lt cursor end s segs among l r)))
              (sym (split-suc fuel cap segs type cursor end o o' hi s found round) ∙ h)
      ]
    ]

append-empty : (cap : ℕ) (out : List MemmapEntry) (at type : ℕ) → append cap out at at type ≡ ok out
unfolding append
append-empty cap [] at type = ground arith
append-empty cap (p ∷ out) at type = ground arith

split_round-stuck :
    (cap type end : ℕ) (s : Segment) (o : Output)
    → Straddles end s
    → o.tagged ≤ u64_max
    → split_round cap type end end s o ≡ ok (o, end)
unfolding split_round add_ok
split_round-stuck cap type end s o over fits = ground (
  arith,
  over.begins,
  over.ends,
  append-empty cap o.out end type,
  append-empty cap o.out end MemType.kernel,
)

-- A segment that straddles the end of the range never lets the loop end there: with the cursor at the
-- end, each round finds one, appends nothing and leaves the cursor, whatever the fuel.
pub split-straddle :
    (fuel cap : ℕ) (segs : List Segment) (type end : ℕ) (o : Output) (s : Segment)
    → Among s segs
    → Straddles end s
    → o.tagged ≤ u64_max
    → split fuel cap segs type end end o ≡ err out_of_fuel
unfolding split next_kernel_segment
split-straddle zero cap segs type end o s among over fits = refl
split-straddle (suc fuel) cap segs type end o s among over fits =
    let (t, found) = next_from-found end end none segs (inr (s, among, over.ends, over.begins)) in
    let (t_among, l, r) = next-Among segs end end found in
    let round = split_round-stuck cap type end t o (record { begins = r; ends = l }) fits in
    split-suc fuel cap segs type end end o o end t found round
    ∙ split-straddle fuel cap segs type end o s among over fits
