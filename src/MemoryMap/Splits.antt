-- ===== src/MemoryMap/Splits.antt =====
-- bootloader/uefi/memory_map.c: the splitting loop keeps the output in order.
use sypas.Base.{
  ℕ, zero, suc, ◌%◌, ◌≤◌, ◌<◌, ◌≡◌, arith, ltb, if◌then◌else◌, List, [], ◌∷◌, Option, none, some,
  ok, u64_max, All, inl, inr, sym, subst, ◌⊎◌,
}
use sypas.BootProto.{MemmapEntry}
use sypas.BootProto.MemType
use sypas.Elf.Format.{Segment}
use sypas.MemoryMap.Append.{append, IsOutput, append-IsOutput}
use sypas.MemoryMap.Split.{meets, pick, next_from, next_kernel_segment, Output, split_round, split}

-- A page-aligned range that is not empty.
pub record IsPages (s : Segment) : Type 0 where
  pub base_aligned : s.page_base % 4096 ≡ 0
  pub end_aligned : s.page_end % 4096 ≡ 0
  pub some_pages : s.page_base < s.page_end

pub record Meets (cursor end : ℕ) (s : Segment) : Type 0 where
  pub pages : IsPages s
  pub behind : cursor < s.page_end
  pub before : s.page_base < end

pick-some :
    (cursor end : ℕ) (best : Option Segment) (t : Segment) {x : Segment}
    → pick cursor end best t ≡ some x
    → (best ≡ some x) ⊎ ((x ≡ t) × (cursor < t.page_end) × (t.page_base < end))
unfolding pick meets
pick-some cursor end none t e = ground arith
pick-some cursor end (some b) t e = ground arith

next_from-Meets :
    (cursor end : ℕ) (best : Option Segment) (segs : List Segment) {s : Segment}
    → All IsPages segs
    → ((b : Segment) → best ≡ some b → Meets cursor end b)
    → next_from cursor end best segs ≡ some s
    → Meets cursor end s
unfolding next_from
next_from-Meets cursor end best [] {s} pages b h = b s h
next_from-Meets cursor end best (t ∷ segs) {s} (p, pages) b h =
    next_from-Meets cursor end (pick cursor end best t) segs pages better h
  where
    better : (x : Segment) → pick cursor end best t ≡ some x → Meets cursor end x
    better x e = elim (pick-some cursor end best t e) [
      | inl old ↦ b x old
      | inr (same, behind, before) ↦
          subst (Meets cursor end) (sym same)
            (record { pages = p; behind = behind; before = before })
    ]

pub next_kernel_segment-Meets :
    (segs : List Segment) (cursor end : ℕ) {s : Segment}
    → All IsPages segs
    → next_kernel_segment segs cursor end ≡ some s
    → Meets cursor end s
unfolding next_kernel_segment
next_kernel_segment-Meets segs cursor end pages h =
    next_from-Meets cursor end none segs pages (λ b e. absurd (cc)) h

pub split_round-ok :
    (cap type cursor end : ℕ) (s : Segment) (o : Output) {o' : Output} {hi : ℕ}
    → split_round cap type cursor end s o ≡ ok (o', hi)
    → (before : List MemmapEntry) × (append cap o.out cursor
          (if ltb cursor s.page_base then s.page_base else cursor)
          type
        ≡ ok before)
      × (append cap before
            (if ltb cursor s.page_base then s.page_base else cursor)
            (if ltb s.page_end end then s.page_end else end)
            MemType.kernel
          ≡ ok o'.out)
      × (hi ≡ (if ltb s.page_end end then s.page_end else end))
unfolding split_round
split_round-ok cap type cursor end s o h = ground arith

pub split_round-IsOutput :
    (cap type cursor end : ℕ) (s : Segment) (o : Output) {o' : Output} {hi : ℕ}
    → IsOutput cursor o.out
    → cursor % 4096 ≡ 0
    → end % 4096 ≡ 0
    → cursor ≤ end
    → end ≤ u64_max
    → Meets cursor end s
    → split_round cap type cursor end s o ≡ ok (o', hi)
    → IsOutput hi o'.out
      × (cursor ≤ hi)
      × (hi ≤ end)
      × (hi % 4096 ≡ 0)
      × (hi ≡ (if ltb s.page_end end then s.page_end else end))
split_round-IsOutput cap type cursor end s o {o'} {hi} w ca ea l fits m h =
    let lo : ℕ = if ltb cursor s.page_base then s.page_base else cursor in
    let top : ℕ = if ltb s.page_end end then s.page_end else end in
    let (before, first, second, e) = split_round-ok cap type cursor end s o h in
    let base_al = m.pages.base_aligned in
    let end_al = m.pages.end_aligned in
    let lo_al : lo % 4096 ≡ 0 = ground (arith, base_al) in
    let top_al : top % 4096 ≡ 0 = ground (arith, end_al) in
    let up : cursor ≤ lo = ground arith in
    let order : lo ≤ top = ground (arith, m.behind, m.before, m.pages.some_pages) in
    let below : top ≤ end = ground arith in
    let w' =
      append-IsOutput cap o.out cursor lo type w up ca lo_al (omega (arith, order, below)) first in
    let w'' =
      append-IsOutput cap before lo top MemType.kernel w' order lo_al top_al (omega (arith, below))
        second in
    (
      subst (λ x. IsOutput x o'.out) (sym e) w'',
      omega (arith, e, up, order),
      omega (arith, e, below),
      omega (arith, e, top_al),
      e,
    )

pub split-ok :
    (fuel cap : ℕ) (segs : List Segment) (type cursor end : ℕ) (o : Output) {o' : Output}
    {cursor' : ℕ}
    → split (suc fuel) cap segs type cursor end o ≡ ok (o', cursor')
    → ((next_kernel_segment segs cursor end ≡ none) × (o' ≡ o) × (cursor' ≡ cursor))
      ⊎ ((s : Segment) × (next_kernel_segment segs cursor end ≡ some s)
          × ((p : Output × ℕ) × (split_round cap type cursor end s o ≡ ok p)
              × (split fuel cap segs type p.1 end p.0 ≡ ok (o', cursor'))))
unfolding split
split-ok fuel cap segs type cursor end o h = ground arith

-- The loop, where it ends, keeps the output in order up to the cursor that it leaves.
pub split-IsOutput :
    (fuel cap : ℕ) (segs : List Segment) (type cursor end : ℕ) (o : Output) {o' : Output}
    {cursor' : ℕ}
    → All IsPages segs
    → IsOutput cursor o.out
    → cursor % 4096 ≡ 0
    → end % 4096 ≡ 0
    → cursor ≤ end
    → end ≤ u64_max
    → split fuel cap segs type cursor end o ≡ ok (o', cursor')
    → IsOutput cursor' o'.out × (cursor' ≤ end) × (cursor' % 4096 ≡ 0)
unfolding split
split-IsOutput zero cap segs type cursor end o pages w ca ea l fits h = absurd (cc)
split-IsOutput (suc fuel) cap segs type cursor end o {o'} {cursor'} pages w ca ea l fits h =
    elim (split-ok fuel cap segs type cursor end o h) [
      | inl (stop, same, stays) ↦ (
        subst (λ x. IsOutput x o'.out) (sym stays)
            (subst (λ x. IsOutput cursor x.out) (sym same) w),
        omega (arith, stays),
        omega (arith, stays),
      )
      | inr (s, found, ((mid, hi), round, rest)) ↦
          let m = next_kernel_segment-Meets segs cursor end pages found in
          let (w', up, below, al, e) =
            split_round-IsOutput cap type cursor end s o w ca ea l fits m round in
          split-IsOutput fuel cap segs type hi end mid pages w' al ea below fits rest
    ]
