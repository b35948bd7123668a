-- ===== src/Pmm/AllocCorrect.antt =====
-- kernel/mm/pmm.c: `pmm_alloc_page` on a valid allocator.
use sypas.Base.{
  ℕ, zero, suc, ◌+◌, ◌-◌, ◌*◌, ◌/◌, ◌%◌, ◌^◌, ◌≤◌, ◌<◌, ◌≡◌, refl, true, false, arith, ltb, ltb→ge,
  ltb→lt, lt→ltb, ◌∙◌, leb, if◌then◌else◌, some, add64, sub64, ◌⊎◌, inl, inr, Bool-cases,
}
use native.Mathlib.Nat.{mod-eq_of_lt, mod-eq-sub-mod}
use native.Mathlib.Decide.{dec_lt}
use sypas.Pmm.Bitmap.{
  bit_set, bit_test-set, bit_set-IsBytes, clear_count-set, clear_count-all_set, clear_count-pos,
  clear_count-le, bit_test-full_byte,
}
use sypas.Pmm.State.{Pmm, IsValid, is_allocated}
use sypas.Pmm.Alloc.{found, skipped, scan, alloc_from, alloc_page}

-- How many rounds of one page lead from the cursor `c` to the page `q`, round `h`.
abbrev distance : ℕ → ℕ → ℕ → ℕ
distance h c q = if leb c q then q - c else q + h - c

-- After `n` pages from the cursor `c` all pages passed are allocated.
record Passed (c n : ℕ) (s : Pmm) : Type 0 where
  here : n < s.highest_page → (c + n ≡ s.cursor) ⊎ (c + n ≡ s.cursor + s.highest_page)
  seen : (q : ℕ) → q < s.highest_page → distance s.highest_page c q < n → is_allocated s q ≡ true

wrap-lem : (x h : ℕ) → x < h + h → x % h ≡ (if ltb x h then x else x - h)
wrap-lem x h l = elim (dec_lt x h) [
  | yes k ↦ rw (mod-eq_of_lt k) (ground arith)
  | no k ↦
      rw
        (
          mod-eq-sub-mod {n = x} {m = h} (omega arith),
          mod-eq_of_lt {n = x - h} {m = h} (omega arith),
        )
        (ground arith)
]

module _ (c n : ℕ) (s : Pmm) (v : IsValid s) (c_in : c < s.highest_page) (more : n < s.highest_page)
    (pass : Passed c n s) where
  Passed-one :
      is_allocated s s.cursor ≡ true
      → Passed c (n + 1) (record s { cursor = add64 s.cursor 1 % s.highest_page })
  Passed-one taken = record {
    here = λ l.
        ground (arith, v.cursor_in, v.fits, pass.here more, wrap-lem (s.cursor + 1) s.highest_page);
    seen = λ q l d. ground (arith, pass.here more, pass.seen q l);
  }

  Passed-eight :
      s.cursor % 8 ≡ 0
      → s.mem (s.bitmap + s.cursor / 8) ≡ 255
      → Passed c (n + 8) (record s { cursor = add64 s.cursor 8 % s.highest_page })
  Passed-eight start full = record {
    here = λ l. ground (
      arith,
      v.cursor_in,
      v.fits,
      v.low_tracked,
      pass.here more,
      wrap-lem (s.cursor + 8) s.highest_page,
    );
    seen = λ q l d. ground (
      arith,
      v.low_tracked,
      pass.here more,
      pass.seen q l,
      v.low_reserved q,
      bit_test-full_byte s.mem s.bitmap s.cursor q,
    );
  }

-- Every page is allocated, and nothing but the cursor changes.
abbrev pub Exhausted : Pmm → ℕ → Pmm → Type 0
Exhausted s address t = (s.free_pages ≡ 0) × (address ≡ 0) × (t ≡ record s { cursor = t.cursor })

-- The address is that of a tracked page above 1 MiB which was free, and now is not; nothing else
-- changes but the count and the cursor.
abbrev pub Takes : Pmm → ℕ → Pmm → Type 0
Takes s address t =
    (p : ℕ) × (p < s.highest_page)
    × (256 ≤ p)
    × (is_allocated s p ≡ false)
    × (address ≡ p * 4096)
    × (t ≡ record s {
      mem = bit_set s.mem s.bitmap p;
      free_pages = s.free_pages - 1;
      cursor = t.cursor;
    })

abbrev Outcome : Pmm → ℕ → Pmm → Type 0
Outcome s address t = IsValid t × (Exhausted s address t ⊎ Takes s address t)

take-IsValid :
    (s : Pmm) (c : ℕ)
    → IsValid s
    → s.cursor < s.highest_page
    → is_allocated s s.cursor ≡ false
    → c < s.highest_page
    → IsValid (record s {
      mem = bit_set s.mem s.bitmap s.cursor;
      free_pages = s.free_pages - 1;
      cursor = c;
    })
take-IsValid s c v l free c_in = record {
  bytes = bit_set-IsBytes s.mem s.bitmap s.cursor v.bytes;
  fits = v.fits;
  low_tracked = v.low_tracked;
  low_reserved =
      λ p k. ground (arith, bit_test-set s.mem s.bitmap s.cursor v.bytes p, v.low_reserved p);
  cursor_in = c_in;
  counted = omega (
    arith,
    v.counted,
    clear_count-set s.mem (bit_set s.mem s.bitmap s.cursor) s.bitmap s.cursor
        (bit_test-set s.mem s.bitmap s.cursor v.bytes) free s.highest_page l,
  );
}

move-IsValid :
    (s : Pmm) (c : ℕ) → IsValid s → c < s.highest_page → IsValid (record s { cursor = c })
move-IsValid s c v c_in = record {
  bytes = v.bytes;
  fits = v.fits;
  low_tracked = v.low_tracked;
  low_reserved = v.low_reserved;
  cursor_in = c_in;
  counted = v.counted;
}

abbrev moved : Pmm → ℕ → Pmm
moved s k = record s { cursor = add64 s.cursor k % s.highest_page }

-- The three ways through a round.
scan-cases :
    (s : Pmm)
    → ((scan s ≡ skipped 8 (moved s 8))
        × (s.cursor % 8 ≡ 0)
        × (s.mem (s.bitmap + s.cursor / 8) ≡ 255))
      ⊎ ((scan s ≡ skipped 1 (moved s 1)) × (is_allocated s s.cursor ≡ true))
      ⊎ ((scan s
            ≡ found ((s.cursor * 4096) % 2 ^ 64) (record (moved s 1) {
              mem = bit_set s.mem s.bitmap s.cursor;
              free_pages = sub64 s.free_pages 1;
            }))
          × (is_allocated s s.cursor ≡ false))
unfolding scan
scan-cases s = ground arith

free-pos :
    (s : Pmm)
    → IsValid s
    → s.cursor < s.highest_page
    → is_allocated s s.cursor ≡ false
    → 0 < s.free_pages
free-pos s v l h =
    omega (arith, v.counted, clear_count-pos s.mem s.bitmap s.highest_page s.cursor l h)

free-le : (s : Pmm) → IsValid s → s.free_pages ≤ s.highest_page
free-le s v = omega (arith, v.counted, clear_count-le s.mem s.bitmap s.highest_page)

found-Outcome :
    (s : Pmm)
    → IsValid s
    → is_allocated s s.cursor ≡ false
    → Outcome s ((s.cursor * 4096) % 2 ^ 64) (record (moved s 1) {
      mem = bit_set s.mem s.bitmap s.cursor;
      free_pages = sub64 s.free_pages 1;
    })
found-Outcome s v free =
    let pos : 0 < s.free_pages = free-pos s v v.cursor_in free in
    let e : sub64 s.free_pages 1 ≡ s.free_pages - 1 = omega (arith, free-le s v, v.fits) in
    let low : 256 ≤ s.cursor = ground (arith, v.low_reserved s.cursor) in
    let a : (s.cursor * 4096) % 2 ^ 64 ≡ s.cursor * 4096 = omega (arith, v.cursor_in, v.fits) in
    rw e (
      take-IsValid s _ v v.cursor_in free (omega (arith, v.cursor_in)),
      inr (s.cursor, v.cursor_in, low, free, a, refl),
    )

all-Exhausted :
    (s : Pmm) (c n : ℕ)
    → IsValid s
    → c < s.highest_page
    → Passed c n s
    → s.highest_page ≤ n
    → Exhausted s 0 s
all-Exhausted s c n v c_in pass done = (
  v.counted
      ∙ clear_count-all_set s.mem s.bitmap s.highest_page (λ q l. pass.seen q l (ground arith)),
  refl,
  refl,
)

alloc_from-skipped :
    (fuel n k : ℕ) (s u : Pmm)
    → n < s.highest_page
    → n + k < 2 ^ 64
    → scan s ≡ skipped k u
    → alloc_from (suc fuel) n s ≡ alloc_from fuel (n + k) u
unfolding alloc_from
alloc_from-skipped fuel n k s u more small eq =
    let e : add64 n k ≡ n + k = omega arith in
    rw (lt→ltb n s.highest_page more, alloc_from) (rw (eq, e))

alloc_from-Outcome :
    (fuel n c : ℕ) (s : Pmm)
    → IsValid s
    → c < s.highest_page
    → Passed c n s
    → 0 < fuel
    → s.highest_page < n + fuel
    → n ≤ s.highest_page + 7
    → (r : ℕ) × (t : Pmm) × (alloc_from fuel n s ≡ some (r, t)) × Outcome s r t
unfolding alloc_from
alloc_from-Outcome zero n c s v c_in pass some_left enough bound = elim some_left [ ]
alloc_from-Outcome (suc fuel) n c s v c_in pass some_left enough bound =
    elim (Bool-cases (ltb n s.highest_page)) [
      | inr e ↦ (
        0,
        s,
        rw (e, alloc_from),
        (v, inl (all-Exhausted s c n v c_in pass (ltb→ge n s.highest_page e))),
      )
      | inl e ↦ elim (scan-cases s) [
        | inr (inr (eq, free)) ↦ (_, _, rw (e, alloc_from) (rw eq), found-Outcome s v free)
        | inr (inl (eq, taken)) ↦
            let more = ltb→lt n s.highest_page e in
            let (r, t, eq', o) =
              alloc_from-Outcome fuel (n + 1) c (moved s 1)
                (move-IsValid s _ v (omega (arith, v.cursor_in))) c_in
                (Passed-one c n s v c_in more pass taken) (omega (arith, more))
                (omega (arith, more)) (omega (arith, more)) in
            (
              r,
              t,
              alloc_from-skipped fuel n 1 s (moved s 1) more (omega (arith, v.fits)) eq ∙ eq',
              o,
            )
        | inl (eq, start, full) ↦
            let more = ltb→lt n s.highest_page e in
            let (r, t, eq', o) =
              alloc_from-Outcome fuel (n + 8) c (moved s 8)
                (move-IsValid s _ v (omega (arith, v.cursor_in))) c_in
                (Passed-eight c n s v c_in more pass start full) (omega (arith, more))
                (omega (arith, more)) (omega (arith, more)) in
            (
              r,
              t,
              alloc_from-skipped fuel n 8 s (moved s 8) more (omega (arith, v.fits)) eq ∙ eq',
              o,
            )
      ]
    ]

-- On a valid allocator `pmm_alloc_page` returns, the fuel of one round for each page being enough,
-- and the state stays valid. Either no page is free and the address is 0, or the address is that
-- of a page which was free, and of the state only that page's bit, the count and the cursor change.
pub alloc_page-Outcome :
    (s : Pmm)
    → IsValid s
    → (r : ℕ) × (t : Pmm) × (alloc_page s ≡ some (r, t))
      × IsValid t
      × (Exhausted s r t ⊎ Takes s r t)
unfolding alloc_page
alloc_page-Outcome s v =
    let (r, t, eq, (vt, o)) =
      alloc_from-Outcome (suc s.highest_page) 0 s.cursor s v v.cursor_in start (omega arith)
        (omega arith) (omega arith) in
    (r, t, eq, vt, o)
  where
    start : Passed s.cursor 0 s
    start = record { here = λ l. inl (omega arith); seen = λ q l d. absurd (omega arith) }
