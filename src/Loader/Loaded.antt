-- ===== src/Loader/Loaded.antt =====
-- bootloader/uefi/main.c: the kernel that `load_kernel_elf` leaves in memory is the one in the file.
use sypas.Base.{
  ℕ, zero, suc, ◌+◌, ◌-◌, ◌/◌, ◌%◌, ◌≤◌, ◌<◌, ◌≡◌, refl, arith, sym, ap, subst, ◌∙◌, leb, ltb, ◌&&◌,
  if◌then◌else◌, List, [], ◌∷◌, Result, ok, err, Memory, IsBytes, update, sub64, All, All-map,
  All-zip, ◌⊎◌, inl, inr, Bool-cases,
}
use sypas.Elf.Format.{ElfStatus, Segment, LoadPlan, ehdr_at, phdrs_at}
use sypas.Elf.Plan.{plan_load}
use sypas.Elf.Segments.{IsLoadable, Disjoint}
use sypas.Elf.Accepted.{Accepted, plan_load-Accepted}
use sypas.Loader.Calls.{
  Firmware, World, Stop, load_address_occupied, image_rejected, allocate_pages, modify, pure,
  die_ascii, die_if, efi_error, efi_load_error, ◌>>◌, >>=-eq-ok, die_if-ok, die_ascii-ne-ok,
}
use sypas.Loader.Load.{
  lmemcpy, lmemset, place_segment, load_segment, load_segments, load_kernel_elf,
}

lmemset_lem :
    (n dst c : ℕ) (m : Memory) (a : ℕ)
    → lmemset n dst c m a ≡ (if leb dst a && ltb a (dst + n) then c % 256 else m a)
unfolding lmemset
lmemset_lem zero dst c m a = ground arith
lmemset_lem (suc n) dst c m a = ground (arith, lmemset_lem n (dst + 1) c (update m dst (c % 256)) a)

abbrev Between : ℕ → ℕ → ℕ → Type 0
Between lo hi a = (lo ≤ a) × (a < hi)

lmemcpy_outside :
    (n dst src : ℕ) (m : Memory) (a : ℕ) → (a < dst) ⊎ (dst + n ≤ a) → lmemcpy n dst src m a ≡ m a
unfolding lmemcpy
lmemcpy_outside zero dst src m a out = refl
lmemcpy_outside (suc n) dst src m a out =
    lmemcpy_outside n (dst + 1) (src + 1) (update m dst (m src)) a (ground arith) ∙ ground arith

-- A copy between ranges that do not meet.
lmemcpy_inside :
    (n dst src : ℕ) (m : Memory) (k : ℕ)
    → (dst + n ≤ src) ⊎ (src + n ≤ dst)
    → k < n
    → lmemcpy n dst src m (dst + k) ≡ m (src + k)
unfolding lmemcpy
lmemcpy_inside zero dst src m k apart l = absurd (omega arith)
lmemcpy_inside (suc n) dst src m zero apart l =
    let e : dst + 0 ≡ dst = omega arith in
    let e' : src + 0 ≡ src = omega arith in
    rw (e, e')
      (lmemcpy_outside n (dst + 1) (src + 1) (update m dst (m src)) dst (inl (omega arith))
        ∙ ground arith)
lmemcpy_inside (suc n) dst src m (suc k) apart l =
    let e : dst + suc k ≡ dst + 1 + k = omega arith in
    let e' : src + suc k ≡ src + 1 + k = omega arith in
    rw (e, e')
      (lmemcpy_inside n (dst + 1) (src + 1) (update m dst (m src)) k (ground arith) (omega arith)
        ∙ ground arith)

-- The bytes of a segment's pages, as the file at the address `file` has them in the memory `m`.
abbrev pub image_byte : Memory → ℕ → Segment → ℕ → ℕ
image_byte m file s a =
    if leb s.paddr a && ltb a (s.paddr + s.filesz) then m (file + s.offset + (a - s.paddr)) else 0

-- The buffer of the file and the pages of a segment do not meet.
abbrev pub FileApart : ℕ → ℕ → Segment → Type 0
FileApart file fsize s = (file + fsize ≤ s.page_base) ⊎ (s.page_end ≤ file)

module _ (file fsize : ℕ) (s : Segment) (m : Memory) (load : IsLoadable fsize s) where
  cleared : Memory
  cleared = lmemset (sub64 s.page_end s.page_base) s.page_base 0 m

  cleared_lem : (a : ℕ) → cleared a ≡ (if leb s.page_base a && ltb a s.page_end then 0 else m a)
  unfolding cleared
  cleared_lem a =
      let size : s.page_base + sub64 s.page_end s.page_base ≡ s.page_end =
        omega (arith, load.starts, load.ends, load.in_memory) in
      ground (arith, size, lmemset_lem (sub64 s.page_end s.page_base) s.page_base 0 m a)

  pub place_segment-outside :
      (a : ℕ) → (a < s.page_base) ⊎ (s.page_end ≤ a) → place_segment file s m a ≡ m a
  unfolding place_segment cleared
  place_segment-outside a out =
      lmemcpy_outside s.filesz s.paddr (file + s.offset) cleared a
        (ground (arith, load.starts, load.ends, load.sizes))
      ∙ cleared_lem a
      ∙ ground arith

  pub place_segment-inside :
      FileApart file fsize s
      → (a : ℕ) → s.page_base ≤ a
      → a < s.page_end
      → place_segment file s m a ≡ image_byte m file s a
  unfolding place_segment cleared
  place_segment-inside apart a l r =
      elim (Bool-cases (leb s.paddr a && ltb a (s.paddr + s.filesz))) [
        | inl e ↦
            let low : s.paddr ≤ a = ground arith in
            let high : a < s.paddr + s.filesz = ground arith in
            let k : ℕ = a - s.paddr in
            let at : s.paddr + k ≡ a = omega (arith, low) in
            let source : ℕ = file + s.offset + k in
            let clear : cleared source ≡ m source = ground (
              arith,
              cleared_lem source,
              load.starts,
              load.ends,
              load.sizes,
              load.in_file,
              high,
              at,
            ) in
            let copied =
              lmemcpy_inside s.filesz s.paddr (file + s.offset) cleared k
                (ground (arith, load.starts, load.ends, load.sizes, load.in_file))
                (omega (arith, at, high)) in
            subst (λ b. place_segment file s m b ≡ m source) at (copied ∙ clear) ∙ ground (arith, e)
        | inr e ↦
            lmemcpy_outside s.filesz s.paddr (file + s.offset) cleared a (ground (arith, e))
            ∙ ground (arith, cleared_lem a, e)
      ]

-- What the loop leaves, segment by segment.
abbrev place_all : ℕ → List Segment → Memory → Memory
place_all file [] m = m
place_all file (s ∷ ss) m = place_all file ss (place_segment file s m)

-- Each byte of a segment's pages is the file's, or 0 where the file has none.
abbrev pub Holds : Memory → ℕ → Memory → Segment → Type 0
Holds m file m' s = (a : ℕ) → s.page_base ≤ a → a < s.page_end → m' a ≡ image_byte m file s a

abbrev pub Misses : ℕ → Segment → Type 0
Misses a s = (a < s.page_base) ⊎ (s.page_end ≤ a)

place_all-outside :
    (file fsize : ℕ) (ss : List Segment) (m : Memory) (a : ℕ)
    → All (IsLoadable fsize) ss
    → All (Misses a) ss
    → place_all file ss m a ≡ m a
place_all-outside file fsize [] m a loads out = refl
place_all-outside file fsize (s ∷ ss) m a (load, loads) (miss, out) =
    place_all-outside file fsize ss (place_segment file s m) a loads out
    ∙ place_segment-outside file fsize s m load a miss

-- The bytes of the file are still there after another segment has been placed.
image_byte-place_segment :
    (file fsize : ℕ) (o s : Segment) (m : Memory) (a : ℕ)
    → IsLoadable fsize o
    → FileApart file fsize o
    → IsLoadable fsize s
    → image_byte (place_segment file o m) file s a ≡ image_byte m file s a
image_byte-place_segment file fsize o s m a lo apart ls =
    elim (Bool-cases (leb s.paddr a && ltb a (s.paddr + s.filesz))) [
      | inl e ↦
          let high : a < s.paddr + s.filesz = ground arith in
          let low : s.paddr ≤ a = ground arith in
          ground (
            arith,
            e,
            place_segment-outside file fsize o m lo (file + s.offset + (a - s.paddr))
                (ground (arith, ls.in_file, high, low)),
          )
      | inr e ↦ ground (arith, e)
    ]

place_all-Holds :
    (file fsize : ℕ) (ss : List Segment) (m : Memory)
    → All (IsLoadable fsize) ss
    → All (FileApart file fsize) ss
    → Disjoint ss
    → All (Holds m file (place_all file ss m)) ss
place_all-Holds file fsize [] m loads aparts d = tt
place_all-Holds file fsize (s ∷ ss) m (load, loads) (apart, aparts) (away, d) = (
  λ a l r.
      place_all-outside file fsize ss (place_segment file s m) a loads
        (All-map _ _ ss (λ o h. ground (arith, h)) away)
      ∙ place_segment-inside file fsize s m load apart a l r,
  All-zip (IsLoadable fsize)
      (Holds (place_segment file s m) file (place_all file ss (place_segment file s m))) _ ss
      (λ o lo h a l r. h a l r ∙ image_byte-place_segment file fsize s o m a load apart lo) loads
      (place_all-Holds file fsize ss (place_segment file s m) loads aparts d),
)

load_segment-ok :
    (fw : Firmware) (file : ℕ) (s : Segment) (w : World) {u : World}
    → load_segment fw file s w ≡ (ok tt, u)
    → u.mem ≡ place_segment file s w.mem
unfolding load_segment
load_segment-ok fw file s w {u} h =
    let (unit, v, e, f) =
      >>=-eq-ok (die_if (efi_error st) load_address_occupied st)
        (λ _. modify (place_segment file s)) claimed h in
    let (fine, same) = die_if-ok (efi_error st) load_address_occupied st claimed e in
    ap (λ (r : Result Stop (Unit {0}) × World). r.1.mem) (sym f)
    ∙ ap (λ (x : World). place_segment file s x.mem) same
  where
    claimed : World
    claimed = record w {
      calls = allocate_pages 2 (sub64 s.page_end s.page_base / 4096) s.page_base ∷ w.calls;
    }

    st : ℕ
    st = fw.status claimed.calls

load_segments-ok :
    (fw : Firmware) (file : ℕ) (ss : List Segment) (w : World) {u : World}
    → load_segments fw file ss w ≡ (ok tt, u)
    → u.mem ≡ place_all file ss w.mem
unfolding load_segments
load_segments-ok fw file [] w h = sym (ap (λ (r : Result Stop (Unit {0}) × World). r.1.mem) h)
load_segments-ok fw file (s ∷ ss) w h =
    let (unit, v, e, f) = >>=-eq-ok (load_segment fw file s) (λ _. load_segments fw file ss) w h in
    load_segments-ok fw file ss v f ∙ ap (place_all file ss) (load_segment-ok fw file s w e)

load_kernel_elf-rejected :
    (fw : Firmware) (file fsize : ℕ) (w : World) {e : ElfStatus}
    → plan_load (λ i. w.mem (file + i)) fsize ≡ err e
    → load_kernel_elf fw file fsize w ≡ die_ascii (image_rejected e) efi_load_error w
unfolding load_kernel_elf
load_kernel_elf-rejected fw file fsize w e = rw (e, load_kernel_elf) refl

load_kernel_elf-accepted :
    (fw : Firmware) (file fsize : ℕ) (w : World) {plan : LoadPlan}
    → plan_load (λ i. w.mem (file + i)) fsize ≡ ok plan
    → load_kernel_elf fw file fsize w ≡ (load_segments fw file plan.segs >> pure plan) w
unfolding load_kernel_elf
load_kernel_elf-accepted fw file fsize w e = rw (e, load_kernel_elf) refl

load_kernel_elf-ok :
    (fw : Firmware) (file fsize : ℕ) (w : World) {plan : LoadPlan} {u : World}
    → load_kernel_elf fw file fsize w ≡ (ok plan, u)
    → (plan_load (λ i. w.mem (file + i)) fsize ≡ ok plan) × (u.mem ≡ place_all file plan.segs w.mem)
load_kernel_elf-ok fw file fsize w {plan} {u} h = go (plan_load (λ i. w.mem (file + i)) fsize) refl
  where
    go :
        (r : Result ElfStatus LoadPlan)
        → plan_load (λ i. w.mem (file + i)) fsize ≡ r
        → (plan_load (λ i. w.mem (file + i)) fsize ≡ ok plan)
          × (u.mem ≡ place_all file plan.segs w.mem)
    go (err e) p = absurd (
        die_ascii-ne-ok (image_rejected e) efi_load_error w
          (sym (load_kernel_elf-rejected fw file fsize w p) ∙ h))
    go (ok plan') p =
        let (unit, v, e, f) =
          >>=-eq-ok (load_segments fw file plan'.segs) (λ _. pure plan') w
            (sym (load_kernel_elf-accepted fw file fsize w p) ∙ h) in
        let same : plan' ≡ plan =
          ground (arith, ap (λ (r : Result Stop LoadPlan × World). r.0) f) in
        let there : v ≡ u = ap (λ (r : Result Stop LoadPlan × World). r.1) f in
        (
          p ∙ ap ok same,
          ap (λ (x : World). x.mem) (sym there)
              ∙ load_segments-ok fw file plan'.segs w e
              ∙ ap (λ (x : LoadPlan). place_all file x.segs w.mem) same,
        )

-- In a memory of bytes, where the load succeeds and the firmware gave no page of a segment to the
-- file's buffer, the image was accepted, every byte of each segment's pages is the one of the
-- file, or 0 where the segment has none, and no byte outside the segments' pages has changed.
pub load_kernel_elf-Holds :
    (fw : Firmware) (file fsize : ℕ) (w : World) {plan : LoadPlan} {u : World}
    → IsBytes w.mem
    → load_kernel_elf fw file fsize w ≡ (ok plan, u)
    → All (FileApart file fsize) plan.segs
    → Accepted fsize
        (ehdr_at (λ i. w.mem (file + i)))
        (phdrs_at
          (λ i. w.mem (file + i))
          (ehdr_at (λ i. w.mem (file + i))).e_phoff
          (ehdr_at (λ i. w.mem (file + i))).e_phnum)
        plan
      × All (Holds w.mem file u.mem) plan.segs
      × ((a : ℕ) → All (Misses a) plan.segs → u.mem a ≡ w.mem a)
load_kernel_elf-Holds fw file fsize w {plan} {u} bytes h apart =
    let (accepted, placed) = load_kernel_elf-ok fw file fsize w h in
    let image = plan_load-Accepted (λ i. w.mem (file + i)) fsize (λ i. bytes (file + i)) accepted in
    (
      image,
      subst (λ m'. All (Holds w.mem file m') plan.segs) (sym placed)
          (place_all-Holds file fsize plan.segs w.mem image.loadable apart image.disjoint),
      λ a out.
          ap (λ (m : Memory). m a) placed
          ∙ place_all-outside file fsize plan.segs w.mem a image.loadable out,
    )
