-- ===== src/MemoryMap/Capacity.antt =====
-- bootloader/uefi/memory_map.c: the translation never has more entries than the caller has room for.
use sypas.Base.{
  ℕ, zero, suc, ◌+◌, ◌≤◌, ◌≡◌, arith, subst, sym, ltb, if◌then◌else◌, List, [], ◌∷◌, length, ok,
  inl, inr,
}
use sypas.BootProto.{MemmapEntry}
use sypas.BootProto.MemType
use mathlib.Core.List.{reverse_aux}
use sypas.Elf.Format.{Segment}
use sypas.MemoryMap.Sort.{sort_descriptors}
use sypas.MemoryMap.Types.{Descriptor, efi_to_sypas_memtype}
use sypas.MemoryMap.Append.{append, push}
use sypas.MemoryMap.Split.{Output, split}
use sypas.MemoryMap.Splits.{split_round-ok, split-ok}
use sypas.MemoryMap.Sound.{
  place_range-ok, translate_from-ok, split_or_skip-cases, translate-parts, translate_sorted-ok,
}
use sypas.MemoryMap.Translate.{place_range, translate_from, MapInput, translate}

append-length :
    (cap : ℕ) (out : List MemmapEntry) (base end type : ℕ) {out' : List MemmapEntry}
    → length out ≤ cap
    → append cap out base end type ≡ ok out'
    → length out' ≤ cap
unfolding append push
append-length cap [] base end type l h = ground arith
append-length cap (p ∷ out) base end type l h = ground arith

split-length :
    (fuel cap : ℕ) (segs : List Segment) (type cursor end : ℕ) (o : Output) {o' : Output}
    {cursor' : ℕ}
    → length o.out ≤ cap
    → split fuel cap segs type cursor end o ≡ ok (o', cursor')
    → length o'.out ≤ cap
unfolding split
split-length zero cap segs type cursor end o l h = absurd (cc)
split-length (suc fuel) cap segs type cursor end o {o'} {cursor'} l h =
    elim (split-ok fuel cap segs type cursor end o h) [
      | inl (stop, same, stays) ↦ subst (λ (x : Output). length x.out ≤ cap) (sym same) l
      | inr (s, found, ((mid, hi), round, rest)) ↦
          let (before, first, second, e) = split_round-ok cap type cursor end s o round in
          let few =
            append-length cap o.out cursor (if ltb cursor s.page_base then s.page_base else cursor)
              type l first in
          let fewer =
            append-length cap before (if ltb cursor s.page_base then s.page_base else cursor)
              (if ltb s.page_end end then s.page_end else end) MemType.kernel few second in
          split-length fuel cap segs type hi end mid fewer rest
    ]

place_range-length :
    (fuel cap : ℕ) (segs : List Segment) (d : Descriptor) (end : ℕ) (o : Output) {o' : Output}
    → length o.out ≤ cap
    → place_range fuel cap segs d end o ≡ ok o'
    → length o'.out ≤ cap
place_range-length fuel cap segs d end o l h =
    let type = efi_to_sypas_memtype d.type in
    let (p, parts, last) = place_range-ok fuel cap segs d end o h in
    let few : length p.0.out ≤ cap =
      elim (split_or_skip-cases fuel cap segs type d.physical_start end o parts) [
        | inl found ↦ split-length fuel cap segs type d.physical_start end o l found
        | inr same ↦ subst (λ (x : Output × ℕ). length x.0.out ≤ cap) same l
      ] in
    append-length cap p.0.out p.1 end type few last

translate_from-length :
    (fuel cap : ℕ) (segs : List Segment) (address size offset previous_end : ℕ)
    (ds : List Descriptor) (o : Output) {o' : Output}
    → length o.out ≤ cap
    → translate_from fuel cap segs address size offset previous_end ds o ≡ ok o'
    → length o'.out ≤ cap
unfolding translate_from
translate_from-length fuel cap segs address size offset previous_end [] o {o'} l h =
    let same : o ≡ o' = ground arith in subst (λ (x : Output). length x.out ≤ cap) same l
translate_from-length fuel cap segs address size offset previous_end (d ∷ ds) o l h =
    let (end, range, (mid, placed, rest)) =
      translate_from-ok fuel cap segs address size offset previous_end d ds o h in
    translate_from-length fuel cap segs address size (offset + size) end ds mid
      (place_range-length fuel cap segs d end o l placed) rest

length-reverse_aux : (xs ys : List MemmapEntry) → length (reverse_aux xs ys) ≡ length xs + length ys
length-reverse_aux [] ys = omega arith
length-reverse_aux (x ∷ xs) ys = let e = length-reverse_aux xs (x ∷ ys) in omega (arith, e)

-- The map that the translation returns has no more entries than the caller has room for.
pub length-translate :
    (fuel : ℕ) (i : MapInput) {entries : List MemmapEntry}
    → translate fuel i ≡ ok entries
    → length entries ≤ i.out_capacity
length-translate fuel i h =
    let (plan, k, good, sorted) = translate-parts fuel i h in
    let ds = sort_descriptors i.descriptors in
    let (expected, sum_ok, (o, run, tagged, e)) = translate_sorted-ok fuel i plan.segs ds sorted in
    let few =
      translate_from-length fuel i.out_capacity plan.segs i.efi_map i.descriptor_size 0 0 ds
        (record { out = []; tagged = 0 }) (omega arith) run in
    let same = length-reverse_aux o.out [] in
    subst (λ es. length es ≤ i.out_capacity) (sym e) (omega (arith, few, same))
