-- ===== src/MemoryMap/Sourced.antt =====
-- bootloader/uefi/memory_map.c: where the entries of a translated map come from.
use sypas.Base.{
  Among, ℕ, zero, suc, ◌+◌, ◌*◌, ◌%◌, ◌≤◌, ◌<◌, ◌≡◌, refl, arith, subst, sym, ltb, if◌then◌else◌,
  List, [], ◌∷◌, ok, some, Bool-cases, u64_max, All, inl, inr,
}
use sypas.BootProto.{MemmapEntry}
use sypas.BootProto.MemType
use mathlib.Core.List.{reverse_aux}
use sypas.Elf.Format.{Segment, LoadPlan}
use sypas.MemoryMap.Sort.{sort_descriptors}
use sypas.MemoryMap.Types.{Descriptor, efi_to_sypas_memtype}
use sypas.MemoryMap.Append.{
  append, append_nil-ok, append_cons-ok, IsOutput, IsOutput-mono, append-IsOutput,
}
use sypas.MemoryMap.Split.{Output, split, split_round}
use sypas.MemoryMap.Splits.{
  IsPages, Meets, next_kernel_segment-Meets, split_round-ok, split_round-IsOutput, split-ok,
}
use sypas.MemoryMap.SplitEnds.{next-Among}
use sypas.MemoryMap.Sound.{
  expected_bytes-IsPages, range_end-ok, place_range-ok, split_or_skip-cases, split_or_skip-IsOutput,
  place_range-IsOutput, translate_from-ok, translate-parts, translate_sorted-ok, bad_call-false,
}
use sypas.MemoryMap.Translate.{place_range, translate_from, MapInput, translate}

module _ (Source : ℕ → ℕ → Type 0) where
  -- Each address of a range has a source of the type.
  abbrev Covers : ℕ → ℕ → ℕ → Type 0
  Covers type base end = (a : ℕ) → base ≤ a → a < end → Source type a

  abbrev pub Backed : MemmapEntry → Type 0
  Backed e = Covers e.type e.base (e.base + e.length)

  append-Backed :
      (cap : ℕ) (out : List MemmapEntry) (base end type : ℕ) {out' : List MemmapEntry}
      → IsOutput base out
      → base ≤ end
      → end ≤ u64_max
      → Covers type base end
      → All Backed out
      → append cap out base end type ≡ ok out'
      → All Backed out'
  append-Backed cap [] base end type w l fits c b h = elim (append_nil-ok cap base end type h) [
    | inl (e, same) ↦ subst (All Backed) (sym same) tt
    | inr (ne, more) ↦
        subst (All Backed) (sym more) ((λ a lo hi. c a lo (omega (arith, lo, hi))), tt)
  ]
  append-Backed cap (p ∷ out) base end type (w, w1, w2, w3, w4) l fits c (b, bs) h =
      elim (append_cons-ok cap p out base end type w l fits h) [
        | inl (e, same) ↦ subst (All Backed) (sym same) (b, bs)
        | inr (inl (ne, more)) ↦
            subst (All Backed) (sym more) ((λ a lo hi. c a lo (omega (arith, lo, hi))), (b, bs))
        | inr (inr (ne, touch, ty, longer)) ↦ subst (All Backed) (sym longer) (
          (λ a lo hi. elim (Bool-cases (ltb a base)) [
            | inl e ↦ b a lo (ground (arith, touch, e))
            | inr e ↦
                subst (λ t. Source t a) (sym ty)
                  (c a (ground (arith, e)) (omega (arith, hi, touch, l)))
          ]),
          bs,
        )
      ]

  split_round-Backed :
      (cap type cursor end : ℕ) (s : Segment) (o : Output) {o' : Output} {hi : ℕ}
      → IsOutput cursor o.out
      → cursor % 4096 ≡ 0
      → end % 4096 ≡ 0
      → cursor ≤ end
      → end ≤ u64_max
      → Meets cursor end s
      → Covers type cursor end
      → Covers MemType.kernel s.page_base s.page_end
      → All Backed o.out
      → split_round cap type cursor end s o ≡ ok (o', hi)
      → All Backed o'.out
  split_round-Backed cap type cursor end s o w ca ea l fits m c k b h =
      let lo : ℕ = if ltb cursor s.page_base then s.page_base else cursor in
      let top : ℕ = if ltb s.page_end end then s.page_end else end in
      let (before, first, second, e) = split_round-ok cap type cursor end s o h in
      let base_al = m.pages.base_aligned in
      let lo_al : lo % 4096 ≡ 0 = ground (arith, base_al) in
      let up : cursor ≤ lo = ground arith in
      let from : s.page_base ≤ lo = ground arith in
      let order : lo ≤ top = ground (arith, m.behind, m.before, m.pages.some_pages) in
      let below : top ≤ end = ground arith in
      let inside : top ≤ s.page_end = ground arith in
      let w' =
        append-IsOutput cap o.out cursor lo type w up ca lo_al (omega (arith, order, below, fits))
          first in
      let b' =
        append-Backed cap o.out cursor lo type w up (omega (arith, order, below, fits))
          (λ a g r. c a g (omega (arith, r, order, below))) b first in
      append-Backed cap before lo top MemType.kernel w' order (omega (arith, below, fits))
        (λ a g r. k a (omega (arith, g, from)) (omega (arith, r, inside))) b' second

  split-Backed :
      (fuel cap : ℕ) (segs : List Segment) (type cursor end : ℕ) (o : Output) {o' : Output}
      {cursor' : ℕ}
      → All IsPages segs
      → ((s : Segment) → Among s segs → Covers MemType.kernel s.page_base s.page_end)
      → IsOutput cursor o.out
      → cursor % 4096 ≡ 0
      → end % 4096 ≡ 0
      → cursor ≤ end
      → end ≤ u64_max
      → Covers type cursor end
      → All Backed o.out
      → split fuel cap segs type cursor end o ≡ ok (o', cursor')
      → All Backed o'.out × (cursor ≤ cursor')
  unfolding split
  split-Backed zero cap segs type cursor end o pages k w ca ea l fits c b h = absurd (cc)
  split-Backed (suc fuel) cap segs type cursor end o {o'} {cursor'} pages k w ca ea l fits c b h =
      elim (split-ok fuel cap segs type cursor end o h) [
        | inl (stop, same, stays) ↦
            (subst (λ (x : Output). All Backed x.out) (sym same) b, omega (arith, stays))
        | inr (s, found, ((mid, hi), round, rest)) ↦
            let m = next_kernel_segment-Meets segs cursor end pages found in
            let (among, behind, before) = next-Among segs cursor end found in
            let (w', up, below, al, e) =
              split_round-IsOutput cap type cursor end s o w ca ea l fits m round in
            let b' =
              split_round-Backed cap type cursor end s o w ca ea l fits m c (k s among) b round in
            let (last, more) =
              split-Backed fuel cap segs type hi end mid pages k w' al ea below fits
                (λ a g r. c a (omega (arith, g, up)) r) b' rest in
            (last, omega (arith, up, more))
      ]

  place_range-Backed :
      (fuel cap : ℕ) (segs : List Segment) (d : Descriptor) (end : ℕ) (o : Output) {o' : Output}
      → All IsPages segs
      → ((s : Segment) → Among s segs → Covers MemType.kernel s.page_base s.page_end)
      → IsOutput d.physical_start o.out
      → d.physical_start % 4096 ≡ 0
      → end % 4096 ≡ 0
      → d.physical_start ≤ end
      → end ≤ u64_max
      → Covers (efi_to_sypas_memtype d.type) d.physical_start end
      → All Backed o.out
      → place_range fuel cap segs d end o ≡ ok o'
      → All Backed o'.out
  place_range-Backed fuel cap segs d end o {o'} pages k w sa ea l fits c b h =
      let type = efi_to_sypas_memtype d.type in
      let (p, parts, last) = place_range-ok fuel cap segs d end o h in
      let (w', below, al) =
        split_or_skip-IsOutput fuel cap segs type d.physical_start end o p pages w sa ea l fits
          parts in
      let (b', up) : All Backed p.0.out × (d.physical_start ≤ p.1) =
        elim (split_or_skip-cases fuel cap segs type d.physical_start end o parts) [
          | inl found ↦
              split-Backed fuel cap segs type d.physical_start end o pages k w sa ea l fits c b
                found
          | inr same ↦
              subst (λ (x : Output × ℕ). All Backed x.0.out × (d.physical_start ≤ x.1)) same
                (b, omega arith)
        ] in
      append-Backed cap p.0.out p.1 end type w' below fits (λ a g r. c a (omega (arith, g, up)) r)
        b' last

  -- What the types of the descriptors promise.
  abbrev pub Typed : Descriptor → Type 0
  Typed d =
      Covers (efi_to_sypas_memtype d.type) d.physical_start
        (d.physical_start + d.number_of_pages * 4096)

  translate_from-Backed :
      (fuel cap : ℕ) (segs : List Segment) (address size offset previous_end : ℕ)
      (ds : List Descriptor) (o : Output) {o' : Output}
      → All IsPages segs
      → ((s : Segment) → Among s segs → Covers MemType.kernel s.page_base s.page_end)
      → (offset ≡ 0 → previous_end ≡ 0)
      → 0 < size
      → previous_end ≤ u64_max
      → IsOutput previous_end o.out
      → All Typed ds
      → All Backed o.out
      → translate_from fuel cap segs address size offset previous_end ds o ≡ ok o'
      → All Backed o'.out
  unfolding translate_from
  translate_from-Backed fuel cap segs address size offset previous_end [] o {o'} pages k first sz
        fits w t b h =
      let same : o ≡ o' = ground arith in subst (λ (x : Output). All Backed x.out) same b
  translate_from-Backed fuel cap segs address size offset previous_end (d ∷ ds) o pages k first sz
        fits w (t, ts) b h =
      let (end, range, (mid, placed, rest)) =
        translate_from-ok fuel cap segs address size offset previous_end d ds o h in
      let (al, some_pages, after, e, top) =
        range_end-ok address size offset previous_end d first range in
      let start = IsOutput-mono previous_end d.physical_start o.out after w in
      let end_al : end % 4096 ≡ 0 = omega (arith, al, e) in
      let order : d.physical_start ≤ end = omega (arith, e) in
      let w' = place_range-IsOutput fuel cap segs d end o pages start al end_al order top placed in
      let b' =
        place_range-Backed fuel cap segs d end o pages k start al end_al order top
          (λ a g r. t a g (omega (arith, r, e))) b placed in
      translate_from-Backed fuel cap segs address size (offset + size) end ds mid pages k
        (λ z. absurd (omega (arith, sz, z))) sz top w' ts b' rest

  reverse_aux-Backed :
      (out es : List MemmapEntry) → All Backed out → All Backed es → All Backed (reverse_aux out es)
  reverse_aux-Backed [] es bs cs = cs
  reverse_aux-Backed (e ∷ out) es (b, bs) cs = reverse_aux-Backed out (e ∷ es) bs (b, cs)

  pub translate-Backed :
      (fuel : ℕ) (i : MapInput) (plan : LoadPlan) {entries : List MemmapEntry}
      → i.kernel ≡ some plan
      → ((s : Segment) → Among s plan.segs → Covers MemType.kernel s.page_base s.page_end)
      → All Typed (sort_descriptors i.descriptors)
      → translate fuel i ≡ ok entries
      → All Backed entries
  translate-Backed fuel i plan kernel k typed h =
      let (plan', found, good, sorted) = translate-parts fuel i h in
      let same : plan' ≡ plan = cc (found, kernel) in
      let ds = sort_descriptors i.descriptors in
      let (expected, sum_ok, (o, run, tagged, e)) =
        translate_sorted-ok fuel i plan'.segs ds sorted in
      let b =
        translate_from-Backed fuel i.out_capacity plan'.segs i.efi_map i.descriptor_size 0 0 ds
          (record { out = []; tagged = 0 }) (expected_bytes-IsPages 0 plan'.segs sum_ok)
          (λ s among. k s (subst (λ (x : LoadPlan). Among s x.segs) same among)) (λ z. refl)
          (bad_call-false i good) (omega arith) tt typed tt run in
      subst (All Backed) (sym e) (reverse_aux-Backed o.out [] b tt)
