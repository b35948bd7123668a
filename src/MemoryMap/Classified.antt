-- ===== src/MemoryMap/Classified.antt =====
-- bootloader/uefi/memory_map.c: the types in a translated map are those of the firmware's map.
use sypas.Base.{
  Among, ℕ, ◌+◌, ◌*◌, ◌≤◌, ◌<◌, ◌≡◌, refl, arith, subst, sym, ◌∙◌, List, [], ◌∷◌, ok, some, All,
  inl, inr, ◌⊎◌,
}
use sypas.BootProto.{MemmapEntry}
use sypas.BootProto.MemType
use mathlib.Core.List.Perm
use mathlib.Core.List.{Mem, mem-cons_self, mem-cons_of_mem}
use sypas.Elf.Format.{Segment, LoadPlan}
use sypas.MemoryMap.Sort.{sort_descriptors}
use sypas.MemoryMap.Sorted.{sort_descriptors-IsSorted}
use sypas.MemoryMap.Types.{Descriptor, efi_to_sypas_memtype}
use sypas.MemoryMap.Translate.{MapInput, translate}
use sypas.MemoryMap.Sourced.{Typed, translate-Backed}

-- The address lies in the descriptor's range.
abbrev pub Spans : Descriptor → ℕ → Type 0
Spans d a = (d.physical_start ≤ a) × (a < d.physical_start + d.number_of_pages * 4096)

-- Why an address has a type: a descriptor of the firmware's map whose type is translated to it, or, for
-- the kernel's type, a segment of the plan.
abbrev pub Source : List Descriptor → List Segment → ℕ → ℕ → Type 0
Source ds segs type a =
    ((d : Descriptor) × (Mem d ds × (efi_to_sypas_memtype d.type ≡ type) × Spans d a))
    ⊎ ((type ≡ MemType.kernel)
        × ((s : Segment) × (Among s segs × (s.page_base ≤ a) × (a < s.page_end))))

All-Mem : {A : Type 0} (P : A → Type 0) (xs : List A) → ((x : A) → Mem x xs → P x) → All P xs
All-Mem P [] f = tt
All-Mem P (x ∷ xs) f = (f x mem-cons_self, All-Mem P xs (λ y m. f y (mem-cons_of_mem x m)))

-- Where the translation succeeds, each address of each entry lies in a descriptor of the firmware's
-- map whose type is translated to the entry's, or in a segment of the kernel, and the entry is the
-- kernel's.
pub translate-Source :
    (fuel : ℕ) (i : MapInput) (plan : LoadPlan) {entries : List MemmapEntry}
    → i.kernel ≡ some plan
    → translate fuel i ≡ ok entries
    → All
        (λ e.
          (a : ℕ) → e.base ≤ a → a < e.base + e.length → Source i.descriptors plan.segs e.type a)
        entries
translate-Source fuel i plan kernel h =
    let ds = i.descriptors in
    let (order, perm) = sort_descriptors-IsSorted ds in
    translate-Backed (Source ds plan.segs) fuel i plan kernel
      (λ s among a l r. inr (refl, (s, (among, l, r))))
      (All-Mem (Typed (Source ds plan.segs)) (sort_descriptors ds)
        (λ d m a l r. inl (d, ((Perm.mem_iff perm).0 m, refl, (l, r)))))
      h

efi_to_sypas_memtype-usable : (t : ℕ) → efi_to_sypas_memtype t ≡ MemType.usable → t ≡ 7
unfolding efi_to_sypas_memtype
efi_to_sypas_memtype-usable t h = ground arith

All-Among : {A : Type 0} (P : A → Type 0) (xs : List A) {x : A} → All P xs → Among x xs → P x
All-Among P [] ps x = elim x [ ]
All-Among P (y ∷ ys) (p, ps) (inl e) = subst P (sym e) p
All-Among P (y ∷ ys) (p, ps) (inr m) = All-Among P ys ps m

-- Where the translation succeeds, an address of an entry that is usable lies in a descriptor of the
-- firmware's map of the type of conventional memory.
pub translate-usable :
    (fuel : ℕ) (i : MapInput) (plan : LoadPlan) (e : MemmapEntry) (a : ℕ)
    {entries : List MemmapEntry}
    → i.kernel ≡ some plan
    → translate fuel i ≡ ok entries
    → Among e entries
    → e.type ≡ MemType.usable
    → e.base ≤ a
    → a < e.base + e.length
    → (d : Descriptor) × (Mem d i.descriptors × (d.type ≡ 7) × Spans d a)
translate-usable fuel i plan e a {entries} kernel h among type l r =
    elim (All-Among
      (λ x. (b : ℕ) → x.base ≤ b → b < x.base + x.length → Source i.descriptors plan.segs x.type b)
      entries (translate-Source fuel i plan kernel h) among a l r) [
        | inl (d, (m, typed, spans)) ↦
            (d, (m, efi_to_sypas_memtype-usable d.type (typed ∙ type), spans))
        | inr (wrong, rest) ↦ absurd (omega (arith, wrong, type))
      ]
