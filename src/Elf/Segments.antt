-- ===== src/Elf/Segments.antt =====
-- bootloader/uefi/elf.c: the loop over the program header table, entry by entry.
use sypas.Base.{
  ℕ, ◌+◌, ◌-◌, ◌%◌, ◌^◌, ◌≤◌, ◌<◌, ◌≡◌, ◌≢◌, arith, false, not, ◌==◌, if◌then◌else◌, ◌&&◌, ◌⊎◌, inl,
  inr, List, [], ◌∷◌, ◌++◌, length, length-append, none, ok, add_ok, u64_max, Bool-cases, All,
  All-append, All-map, sym, ◌∙◌, subst, ap, ne→==, eq→==,
}
use mathlib.Core.List.{append-nil, append_assoc}
use sypas.Elf.Format.{Phdr, Segment, LoadPlan, max_segments}
use sypas.Elf.Plan.{
  check_policy, make_segment, overlaps, overlaps_any, add_segment, plan_entry, plan_entries,
}

-- What an entry's segment is, as a specification: the range of its bytes, rounded out to pages.
abbrev pub segment_of : Phdr → Segment
segment_of ph = record {
  paddr = ph.p_paddr;
  page_base = ph.p_paddr - ph.p_paddr % 4096;
  page_end = (ph.p_paddr + ph.p_memsz + 4095) - (ph.p_paddr + ph.p_memsz + 4095) % 4096;
  offset = ph.p_offset;
  filesz = ph.p_filesz;
  memsz = ph.p_memsz;
  flags = ph.p_flags;
}

-- A segment whose bytes lie in the file and whose pages lie in the address space; its flags are
-- known ones, and it is not both writable and executable.
pub record IsLoadable (fsize : ℕ) (s : Segment) : Type 0 where
  pub some_bytes : 0 < s.memsz
  pub sizes : s.filesz ≤ s.memsz
  pub in_file : s.offset + s.filesz ≤ fsize
  pub base_aligned : s.page_base % 4096 ≡ 0
  pub end_aligned : s.page_end % 4096 ≡ 0
  pub starts : s.page_base ≤ s.paddr
  pub starts_close : s.paddr < s.page_base + 4096
  pub ends : s.paddr + s.memsz ≤ s.page_end
  pub ends_close : s.page_end < s.paddr + s.memsz + 4096
  pub in_memory : s.page_end ≤ u64_max
  pub known_flags : s.flags < 8
  pub not_wx : s.flags % 4 ≢ 3

-- The fields of an entry have 32 and 64 bits.
pub record IsPhdr (ph : Phdr) : Type 0 where
  pub type_fits : ph.p_type < 2 ^ 32
  pub flags_fits : ph.p_flags < 2 ^ 32
  pub offset_fits : ph.p_offset ≤ u64_max
  pub vaddr_fits : ph.p_vaddr ≤ u64_max
  pub paddr_fits : ph.p_paddr ≤ u64_max
  pub filesz_fits : ph.p_filesz ≤ u64_max
  pub memsz_fits : ph.p_memsz ≤ u64_max
  pub align_fits : ph.p_align ≤ u64_max

abbrev pub Apart : Segment → Segment → Type 0
Apart s o = (s.page_end ≤ o.page_base) ⊎ (o.page_end ≤ s.page_base)

abbrev pub Disjoint : List Segment → Type 0
Disjoint [] = Unit
Disjoint (s ∷ ss) = All (Apart s) ss × Disjoint ss

make_segment-ok :
    (fsize : ℕ) (ph : Phdr) {seg : Segment}
    → IsPhdr ph
    → make_segment fsize ph ≡ ok seg
    → (seg ≡ segment_of ph)
      × (ph.p_offset + ph.p_filesz ≤ fsize)
      × (ph.p_paddr + ph.p_memsz + 4095 ≤ u64_max)
unfolding make_segment add_ok
make_segment-ok fsize ph fit h = (ground arith, ground arith, ground arith)

check_policy-none :
    (ph : Phdr)
    → check_policy ph ≡ none
    → (ph.p_filesz ≤ ph.p_memsz)
      × (ph.p_vaddr ≡ ph.p_paddr)
      × (ph.p_flags < 8)
      × (ph.p_flags % 4 ≢ 3)
unfolding check_policy
check_policy-none ph h = ground arith

overlaps_any-false :
    (seg : Segment) (os : List Segment) → overlaps_any seg os ≡ false → All (Apart seg) os
unfolding overlaps_any overlaps
overlaps_any-false seg [] h = tt
overlaps_any-false seg (o ∷ os) h = (ground arith, overlaps_any-false seg os (ground arith))

Disjoint-append :
    (seg : Segment) (os : List Segment)
    → Disjoint os
    → All (Apart seg) os
    → Disjoint (os ++ seg ∷ [])
Disjoint-append seg [] d a = (tt, tt)
Disjoint-append seg (o ∷ os) (oa, d) (so, a) =
    (All-append (Apart o) os (seg ∷ []) oa (ground arith, tt), Disjoint-append seg os d a)

segment_of-IsLoadable :
    (fsize : ℕ) (ph : Phdr)
    → check_policy ph ≡ none
    → ph.p_memsz ≢ 0
    → ph.p_offset + ph.p_filesz ≤ fsize
    → ph.p_paddr + ph.p_memsz + 4095 ≤ u64_max
    → IsLoadable fsize (segment_of ph)
segment_of-IsLoadable fsize ph policy some_mem in_file in_mem =
    let (sizes, vaddr, flags, wx) = check_policy-none ph policy in
    record {
      some_bytes = omega arith;
      sizes = sizes;
      in_file = in_file;
      base_aligned = omega arith;
      end_aligned = omega arith;
      starts = omega arith;
      starts_close = omega arith;
      ends = omega arith;
      ends_close = omega arith;
      in_memory = omega arith;
      known_flags = flags;
      not_wx = wx;
    }

-- The segments that an entry of the table stands for: one, if it is a PT_LOAD with some bytes.
abbrev pub segments_of : List Phdr → List Segment
segments_of [] = []
segments_of (ph ∷ phs) =
    if ph.p_type == 1 && not (ph.p_memsz == 0)
    then segment_of ph ∷ segments_of phs
    else segments_of phs

abbrev pub Within : LoadPlan → Segment → Type 0
Within plan s = (plan.phys_base ≤ s.page_base) × (s.page_end ≤ plan.phys_end)

pub record Plans (fsize : ℕ) (plan : LoadPlan) : Type 0 where
  pub loadable : All (IsLoadable fsize) plan.segs
  pub disjoint : Disjoint plan.segs
  pub few : length plan.segs ≤ max_segments
  pub within : All (Within plan) plan.segs
  pub end_fits : plan.phys_end ≤ u64_max

add_segment-Plans :
    (fsize : ℕ) (plan : LoadPlan) (seg : Segment)
    → Plans fsize plan
    → IsLoadable fsize seg
    → length plan.segs ≢ 16
    → overlaps_any seg plan.segs ≡ false
    → Plans fsize (add_segment plan seg)
unfolding add_segment
add_segment-Plans fsize plan seg i load more free = record {
  loadable = All-append (IsLoadable fsize) plan.segs (seg ∷ []) i.loadable (load, tt);
  disjoint = Disjoint-append seg plan.segs i.disjoint (overlaps_any-false seg plan.segs free);
  few = omega (arith, i.few, length-append plan.segs (seg ∷ []));
  within =
      All-append (Within (add_segment plan seg)) plan.segs (seg ∷ [])
        (All-map (Within plan) (Within (add_segment plan seg)) plan.segs (λ s w. ground arith)
          i.within)
        (ground arith, tt);
  end_fits = ground (arith, i.end_fits, load.in_memory);
}

-- The three ways in which the body of the loop goes on.
plan_entry-ok :
    (fsize : ℕ) (plan : LoadPlan) (ph : Phdr) {plan' : LoadPlan}
    → plan_entry fsize plan ph ≡ ok plan'
    → ((plan' ≡ plan) × (ph.p_type ≢ 1))
      ⊎ ((plan' ≡ plan) × (ph.p_memsz ≡ 0) × (check_policy ph ≡ none))
      ⊎ ((ph.p_type ≡ 1)
          × (ph.p_memsz ≢ 0)
          × (check_policy ph ≡ none)
          × (length plan.segs ≢ 16)
          × ((seg : Segment) × (make_segment fsize ph ≡ ok seg)
              × (overlaps_any seg plan.segs ≡ false)
              × (plan' ≡ add_segment plan seg)))
unfolding plan_entry
plan_entry-ok fsize plan ph h = ground arith

-- A PT_LOAD entry that passed: the policy, also where it has no bytes.
abbrev pub Passes : Phdr → Type 0
Passes ph = ph.p_type ≡ 1 → check_policy ph ≡ none

plan_entry-Plans :
    (fsize : ℕ) (plan : LoadPlan) (ph : Phdr) {plan' : LoadPlan}
    → IsPhdr ph
    → Plans fsize plan
    → plan_entry fsize plan ph ≡ ok plan'
    → Plans fsize plan' × (plan'.segs ≡ plan.segs ++ segments_of (ph ∷ [])) × Passes ph
unfolding add_segment
plan_entry-Plans fsize plan ph {plan'} fit i h = elim (plan_entry-ok fsize plan ph h) [
  | inl (e, other) ↦ (
    subst (Plans fsize) (sym e) i,
    rw (e, ne→== ph.p_type 1 other) (sym (append-nil plan.segs)),
    λ load. absurd (other load),
  )
  | inr (inl (e, empty, policy)) ↦ (
    subst (Plans fsize) (sym e) i,
    rw (e, empty)
        (elim (Bool-cases (ph.p_type == 1)) [
          | inl b ↦ rw b (sym (append-nil plan.segs))
          | inr b ↦ rw b (sym (append-nil plan.segs))
        ]),
    λ load. policy,
  )
  | inr (inr (load, some_mem, policy, more, (seg, made, free, e))) ↦
      let (seg_eq, in_file, in_mem) = make_segment-ok fsize ph fit made in
      let good = segment_of-IsLoadable fsize ph policy some_mem in_file in_mem in
      (
        subst (Plans fsize) (sym e) (
            add_segment-Plans fsize plan seg i (subst (IsLoadable fsize) (sym seg_eq) good) more
              free),
        ap (λ x. x.segs) e ∙ ap (λ x. plan.segs ++ x ∷ []) seg_eq ∙ one load some_mem,
        λ l. policy,
      )
]
  where
    one :
        ph.p_type ≡ 1
        → ph.p_memsz ≢ 0
        → plan.segs ++ segment_of ph ∷ [] ≡ plan.segs ++ segments_of (ph ∷ [])
    one load some_mem = rw (eq→== ph.p_type 1 load, ne→== ph.p_memsz 0 some_mem)

plan_entries-cons :
    (fsize : ℕ) (plan : LoadPlan) (ph : Phdr) (phs : List Phdr) {plan' : LoadPlan}
    → plan_entries fsize plan (ph ∷ phs) ≡ ok plan'
    → (mid : LoadPlan) × (plan_entry fsize plan ph ≡ ok mid)
      × (plan_entries fsize mid phs ≡ ok plan')
unfolding plan_entries
plan_entries-cons fsize plan ph phs h = ground arith

segments_of-cons :
    (ph : Phdr) (phs : List Phdr)
    → segments_of (ph ∷ []) ++ segments_of phs ≡ segments_of (ph ∷ phs)
segments_of-cons ph phs = elim (Bool-cases (ph.p_type == 1 && not (ph.p_memsz == 0))) [
  | inl e ↦ rw e
  | inr e ↦ rw e
]

pub plan_entries-Plans :
    (fsize : ℕ) (plan : LoadPlan) (phs : List Phdr) {plan' : LoadPlan}
    → All IsPhdr phs
    → Plans fsize plan
    → plan_entries fsize plan phs ≡ ok plan'
    → Plans fsize plan' × (plan'.segs ≡ plan.segs ++ segments_of phs) × All Passes phs
unfolding plan_entries
plan_entries-Plans fsize plan [] {plan'} fits i h =
    let e : plan ≡ plan' = ground arith in
    (subst (Plans fsize) e i, rw (← e) (sym (append-nil plan.segs)), tt)
plan_entries-Plans fsize plan (ph ∷ phs) {plan'} (fit, fits) i h =
    let (mid, first, rest) = plan_entries-cons fsize plan ph phs h in
    let (i', segs, pass) = plan_entry-Plans fsize plan ph fit i first in
    let (i'', segs', passes) = plan_entries-Plans fsize mid phs fits i' rest in
    (
      i'',
      segs'
          ∙ ap (λ x. x ++ segments_of phs) segs
          ∙ append_assoc plan.segs (segments_of (ph ∷ [])) (segments_of phs)
          ∙ ap (λ x. plan.segs ++ x) (segments_of-cons ph phs),
      (pass, passes),
    )
