-- ===== src/MemoryMap/Sound.antt =====
-- bootloader/uefi/memory_map.c: a translation that succeeds is a map that the kernel can rely on.
use sypas.Base.{
  ℕ, ◌+◌, ◌*◌, ◌%◌, ◌≤◌, ◌<◌, ◌≡◌, refl, arith, false, ◌==◌, if◌then◌else◌, ◌≢◌, List, [], ◌∷◌,
  some, ok, add_ok, mul_ok, mul_ok-some, sub64, u64_max, All, inl, inr, sym, ◌⊎◌, subst,
}
use sypas.BootProto.{MemmapEntry, IsMap}
use sypas.BootProto.MemType
use mathlib.Core.List.{reverse, reverse_aux}
use sypas.Elf.Format.{Segment, LoadPlan}
use sypas.MemoryMap.Sort.{sort_descriptors}
use sypas.MemoryMap.Types.{Descriptor, efi_to_sypas_memtype}
use sypas.MemoryMap.Append.{append, IsOutput, IsOutput-mono, append-IsOutput}
use sypas.MemoryMap.Split.{Output, split}
use sypas.MemoryMap.Splits.{IsPages, split-IsOutput}
use sypas.MemoryMap.Translate.{
  expected_bytes, range_end, place_range, translate_from, MapInput, bad_call, translate_sorted,
  translate,
}

expected_bytes_cons-ok :
    (sum : ℕ) (s : Segment) (segs : List Segment) {total : ℕ}
    → expected_bytes sum (s ∷ segs) ≡ ok total
    → (s.page_base % 4096 ≡ 0)
      × (s.page_end % 4096 ≡ 0)
      × (s.page_base < s.page_end)
      × ((bytes : ℕ) × (add_ok sum (sub64 s.page_end s.page_base) ≡ some bytes)
          × (expected_bytes bytes segs ≡ ok total))
unfolding expected_bytes
expected_bytes_cons-ok sum s segs h = ground arith

pub expected_bytes-IsPages :
    (sum : ℕ) (segs : List Segment) {total : ℕ}
    → expected_bytes sum segs ≡ ok total
    → All IsPages segs
expected_bytes-IsPages sum [] h = tt
expected_bytes-IsPages sum (s ∷ segs) h =
    let (b, e, l, (bytes, sum_ok, rest)) = expected_bytes_cons-ok sum s segs h in
    (
      record { base_aligned = b; end_aligned = e; some_pages = l },
      expected_bytes-IsPages bytes segs rest,
    )

range_end-parts :
    (address size offset previous_end : ℕ) (d : Descriptor) {end : ℕ}
    → range_end address size offset previous_end d ≡ ok end
    → (d.physical_start % 4096 ≡ 0)
      × (d.number_of_pages ≢ 0)
      × ((offset ≡ 0) ⊎ (previous_end ≤ d.physical_start))
      × ((len : ℕ) × (mul_ok d.number_of_pages 4096 ≡ some len)
          × (add_ok d.physical_start len ≡ some end))
unfolding range_end
range_end-parts address size offset previous_end d h = ground arith

pub range_end-ok :
    (address size offset previous_end : ℕ) (d : Descriptor) {end : ℕ}
    → (offset ≡ 0 → previous_end ≡ 0)
    → range_end address size offset previous_end d ≡ ok end
    → (d.physical_start % 4096 ≡ 0)
      × (d.number_of_pages ≢ 0)
      × (previous_end ≤ d.physical_start)
      × (end ≡ d.physical_start + d.number_of_pages * 4096)
      × (end ≤ u64_max)
unfolding add_ok
range_end-ok address size offset previous_end d {end} first h =
    let (al, some_pages, after, (len, e, f)) =
      range_end-parts address size offset previous_end d h in
    let (product, fits) = mul_ok-some d.number_of_pages 4096 e in
    let top : (end ≡ d.physical_start + len) × (end ≤ u64_max) = ground arith in
    let order : previous_end ≤ d.physical_start = elim after [
      | inl z ↦ omega (arith, first z)
      | inr l ↦ l
    ] in
    (al, some_pages, order, omega (arith, top, product), top.1)

pub place_range-ok :
    (fuel cap : ℕ) (segs : List Segment) (d : Descriptor) (end : ℕ) (o : Output) {o' : Output}
    → place_range fuel cap segs d end o ≡ ok o'
    → (p : Output × ℕ) × ((if efi_to_sypas_memtype d.type == MemType.loader
          then split fuel cap segs (efi_to_sypas_memtype d.type) d.physical_start end o
          else ok (o, d.physical_start))
        ≡ ok p)
      × (append cap p.0.out p.1 end (efi_to_sypas_memtype d.type) ≡ ok o'.out)
unfolding place_range
place_range-ok fuel cap segs d end o h = ground arith

pub translate_from-ok :
    (fuel cap : ℕ) (segs : List Segment) (address size offset previous_end : ℕ) (d : Descriptor)
    (ds : List Descriptor) (o : Output) {o' : Output}
    → translate_from fuel cap segs address size offset previous_end (d ∷ ds) o ≡ ok o'
    → (end : ℕ) × (range_end address size offset previous_end d ≡ ok end)
      × ((mid : Output) × (place_range fuel cap segs d end o ≡ ok mid)
          × (translate_from fuel cap segs address size (offset + size) end ds mid ≡ ok o'))
unfolding translate_from
translate_from-ok fuel cap segs address size offset previous_end d ds o h = ground arith

pub split_or_skip-cases :
    (fuel cap : ℕ) (segs : List Segment) (type start end : ℕ) (o : Output) {p : Output × ℕ}
    → (if type == MemType.loader then split fuel cap segs type start end o else ok (o, start))
      ≡ ok p
    → (split fuel cap segs type start end o ≡ ok p) ⊎ ((o, start) ≡ p)
split_or_skip-cases fuel cap segs type start end o h = ground arith

-- The splitting of a loader's range, or the start of another one.
pub split_or_skip-IsOutput :
    (fuel cap : ℕ) (segs : List Segment) (type start end : ℕ) (o : Output) (p : Output × ℕ)
    → All IsPages segs
    → IsOutput start o.out
    → start % 4096 ≡ 0
    → end % 4096 ≡ 0
    → start ≤ end
    → end ≤ u64_max
    → (if type == MemType.loader then split fuel cap segs type start end o else ok (o, start))
      ≡ ok p
    → IsOutput p.1 p.0.out × (p.1 ≤ end) × (p.1 % 4096 ≡ 0)
split_or_skip-IsOutput fuel cap segs type start end o p pages w sa ea l fits h =
    elim (split_or_skip-cases fuel cap segs type start end o h) [
      | inl found ↦ split-IsOutput fuel cap segs type start end o pages w sa ea l fits found
      | inr same ↦
          subst (λ x. IsOutput x.1 x.0.out × (x.1 ≤ end) × (x.1 % 4096 ≡ 0)) same (w, l, sa)
    ]

pub place_range-IsOutput :
    (fuel cap : ℕ) (segs : List Segment) (d : Descriptor) (end : ℕ) (o : Output) {o' : Output}
    → All IsPages segs
    → IsOutput d.physical_start o.out
    → d.physical_start % 4096 ≡ 0
    → end % 4096 ≡ 0
    → d.physical_start ≤ end
    → end ≤ u64_max
    → place_range fuel cap segs d end o ≡ ok o'
    → IsOutput end o'.out
place_range-IsOutput fuel cap segs d end o pages w sa ea l fits h =
    let type = efi_to_sypas_memtype d.type in
    let (p, parts, last) = place_range-ok fuel cap segs d end o h in
    let (w', below, al) =
      split_or_skip-IsOutput fuel cap segs type d.physical_start end o p pages w sa ea l fits
        parts in
    append-IsOutput cap p.0.out p.1 end type w' below al ea fits last

translate_from-IsOutput :
    (fuel cap : ℕ) (segs : List Segment) (address size offset previous_end : ℕ)
    (ds : List Descriptor) (o : Output) {o' : Output}
    → All IsPages segs
    → (offset ≡ 0 → previous_end ≡ 0)
    → 0 < size
    → previous_end ≤ u64_max
    → IsOutput previous_end o.out
    → translate_from fuel cap segs address size offset previous_end ds o ≡ ok o'
    → (hi : ℕ) × (hi ≤ u64_max) × IsOutput hi o'.out
unfolding translate_from
translate_from-IsOutput fuel cap segs address size offset previous_end [] o {o'} pages first sz fits
      w h =
    let same : o ≡ o' = ground arith in
    (previous_end, fits, subst (λ (x : Output). IsOutput previous_end x.out) same w)
translate_from-IsOutput fuel cap segs address size offset previous_end (d ∷ ds) o {o'} pages first
      sz fits w h =
    let (end, range, (mid, placed, rest)) =
      translate_from-ok fuel cap segs address size offset previous_end d ds o h in
    let (al, some_pages, after, e, top) =
      range_end-ok address size offset previous_end d first range in
    let w' =
      place_range-IsOutput fuel cap segs d end o pages
        (IsOutput-mono previous_end d.physical_start o.out after w) al (omega (arith, al, e))
        (omega (arith, e)) top placed in
    translate_from-IsOutput fuel cap segs address size (offset + size) end ds mid pages
      (λ z. absurd (omega (arith, sz, z))) sz top w' rest

IsMap-lower : (a b : ℕ) (es : List MemmapEntry) → a ≤ b → IsMap b es → IsMap a es
IsMap-lower a b [] l m = tt
IsMap-lower a b (e ∷ es) l (m0, m1, m2, m3, m4, m) = (omega arith, m1, m2, m3, m4, m)

IsOutput-reverse :
    (hi : ℕ) (out es : List MemmapEntry)
    → hi ≤ u64_max
    → IsOutput hi out
    → IsMap hi es
    → IsMap 0 (reverse_aux out es)
IsOutput-reverse hi [] es fits w m = IsMap-lower 0 hi es (omega arith) m
IsOutput-reverse hi (e ∷ out) es fits (w0, w1, w2, w3, w) m =
    IsOutput-reverse e.base out (e ∷ es) (omega arith) w
      (omega arith, w1, w2, w3, omega arith, IsMap-lower (e.base + e.length) hi es w0 m)

pub translate-parts :
    (fuel : ℕ) (i : MapInput) {entries : List MemmapEntry}
    → translate fuel i ≡ ok entries
    → (plan : LoadPlan) × (i.kernel ≡ some plan)
      × (bad_call i ≡ false)
      × (translate_sorted fuel i plan.segs (sort_descriptors i.descriptors) ≡ ok entries)
unfolding translate
translate-parts fuel i h = ground arith

pub translate_sorted-ok :
    (fuel : ℕ) (i : MapInput) (segs : List Segment) (ds : List Descriptor)
    {entries : List MemmapEntry}
    → translate_sorted fuel i segs ds ≡ ok entries
    → (expected : ℕ) × (expected_bytes 0 segs ≡ ok expected)
      × ((o : Output) × (translate_from fuel i.out_capacity segs i.efi_map i.descriptor_size 0 0 ds
              (record { out = []; tagged = 0 })
            ≡ ok o)
          × (o.tagged ≡ expected)
          × (entries ≡ reverse o.out))
unfolding translate_sorted
translate_sorted-ok fuel i segs ds h = ground arith

pub bad_call-false : (i : MapInput) → bad_call i ≡ false → 0 < i.descriptor_size
unfolding bad_call
bad_call-false i h = ground arith

-- Whatever the firmware's map and the plan, a map that the translation returns is sorted,
-- page-aligned, without overlap or empty ranges, and below 2 ^ 64.
pub translate-IsMap :
    (fuel : ℕ) (i : MapInput) {entries : List MemmapEntry}
    → translate fuel i ≡ ok entries
    → IsMap 0 entries
translate-IsMap fuel i h =
    let (plan, k, good, sorted) = translate-parts fuel i h in
    let ds = sort_descriptors i.descriptors in
    let (expected, sum_ok, (o, run, tagged, e)) = translate_sorted-ok fuel i plan.segs ds sorted in
    let (hi, fits, w) =
      translate_from-IsOutput fuel i.out_capacity plan.segs i.efi_map i.descriptor_size 0 0 ds
        (record { out = []; tagged = 0 }) (expected_bytes-IsPages 0 plan.segs sum_ok) (λ z. refl)
        (bad_call-false i good) (omega arith) tt run in
    subst (IsMap 0) (sym e) (IsOutput-reverse hi o.out [] fits w tt)
