-- ===== src/Pmm/SelftestLoops.antt =====
-- kernel/mm/pmm.c: what the loops of `pmm_selftest` do on a valid allocator.
use sypas.Base.{
  ℕ, zero, suc, ◌+◌, ◌*◌, ◌/◌, ◌%◌, ◌≤◌, ◌<◌, ◌≡◌, refl, arith, ap, subst, sym, ◌∙◌, Bool, true,
  false, ◌==◌, ◌||◌, if◌then◌else◌, List, [], ◌∷◌, length, ok, err, Memory, IsBytes, u64_at,
  put_u64, put_u64_outside, u64_at-window, u64_at-put_u64, ◌⊎◌, inl, inr, All,
}
use sypas.Pmm.State.{Pmm, IsValid, is_allocated}
use sypas.Pmm.AllocCorrect.{Takes, alloc_page-Outcome}
use sypas.Pmm.Free.{
  free_page, free_page-Frees, taken-is_allocated, taken-highest_page, taken-free_pages,
}
use sypas.Pmm.Selftest.{
  exhausted, take_pages, test_pattern, is_repeated, write_patterns, check_patterns, free_pages_of,
}

-- Whether the page `q` is one of those at the addresses.
abbrev pub holds : List ℕ → ℕ → Bool
holds [] q = false
holds (a ∷ rest) q = (q == a / 4096) || holds rest q

-- No two of the addresses are of one page.
abbrev pub Separate : List ℕ → Type 0
Separate [] = Unit {0}
Separate (a ∷ rest) = (holds rest (a / 4096) ≡ false) × Separate rest

abbrev pub IsPage : ℕ → ℕ → Type 0
IsPage h a = (a % 4096 ≡ 0) × (256 ≤ a / 4096) × (a / 4096 < h)

pub record Taken (s : Pmm) (got : List ℕ) (t : Pmm) : Type 0 where
  pub valid : IsValid t
  pub pages : All (IsPage s.highest_page) got
  pub separate : Separate got
  pub bits : (q : ℕ) → is_allocated t q ≡ (holds got q || is_allocated s q)
  pub fresh : (q : ℕ) → holds got q ≡ true → is_allocated s q ≡ false
  pub same_bitmap : t.bitmap ≡ s.bitmap
  pub same_top : t.highest_page ≡ s.highest_page
  pub count : t.free_pages + length got ≡ s.free_pages

-- One page more at the front.
Taken-more :
    (s t u : Pmm) (a : ℕ) (rest : List ℕ)
    → IsValid s
    → Takes s a t
    → Taken t rest u
    → Taken s (a ∷ rest) u
Taken-more s t u a rest v (p, l, low, free, e, t_eq) r =
    let page : a / 4096 ≡ p = omega (arith, e) in
    let bits = taken-is_allocated s t v p l free t_eq in
    let top = taken-highest_page s t v p l free t_eq in
    record {
      valid = r.valid;
      pages = (
        (omega (arith, e), omega (arith, page, low), omega (arith, page, l)),
        subst (λ h. All (IsPage h) rest) top r.pages,
      );
      separate = (ground (arith, r.fresh (a / 4096), bits (a / 4096), page), r.separate);
      bits = λ q. ground (arith, r.bits q, bits q, page);
      fresh = λ q h. ground (arith, r.fresh q, bits q, page);
      same_bitmap = r.same_bitmap ∙ ap (λ x. x.bitmap) t_eq;
      same_top = r.same_top ∙ top;
      count = omega (arith, r.count, taken-free_pages s t v p l free t_eq);
    }

-- The loop takes its pages if so many are free, and else stops when none is left.
abbrev TakesAll : ℕ → ℕ → Pmm → Type 0
TakesAll n i s =
    ((n ≤ s.free_pages)
      × ((got : List ℕ) × (t : Pmm) × (take_pages n i s ≡ ok (got, t))
          × Taken s got t
          × (length got ≡ n)))
    ⊎ ((s.free_pages < n) × (take_pages n i s ≡ err (exhausted (i + s.free_pages))))

pub take_pages-TakesAll : (n i : ℕ) (s : Pmm) → IsValid s → TakesAll n i s
unfolding take_pages
take_pages-TakesAll zero i s v = inl (
  omega arith,
  (
    [],
    s,
    refl,
    record {
      valid = v;
      pages = tt;
      separate = tt;
      bits = λ q. refl;
      fresh = λ q h. absurd (cc);
      same_bitmap = refl;
      same_top = refl;
      count = omega arith;
    },
    refl,
  ),
)
take_pages-TakesAll (suc n) i s v =
    let (a, t, e, vt, out) = alloc_page-Outcome s v in
    elim out [
      | inl (none_free, zero_address, t_eq) ↦
          let here : i + s.free_pages ≡ i = omega (arith, none_free) in
          inr (omega (arith, none_free), rw (e, take_pages) (rw (zero_address, here) refl))
      | inr (p, l, low, free, a_eq, t_eq) ↦
          let some_address : a == 0 ≡ false = ground (arith, a_eq, low) in
          let count = taken-free_pages s t v p l free t_eq in
          elim (take_pages-TakesAll n (i + 1) t vt) [
            | inl (enough, (got, u, ran, taken, len)) ↦ inl (
              omega (arith, enough, count),
              (
                a ∷ got,
                u,
                rw (e, take_pages) (rw some_address (rw ran refl)),
                Taken-more s t u a got v (p, l, low, free, a_eq, t_eq) taken,
                ap suc len,
              ),
            )
            | inr (few, ran) ↦
                let total : i + 1 + t.free_pages ≡ i + s.free_pages = omega (arith, count) in
                inr (
                  omega (arith, few, count),
                  rw (e, take_pages) (rw some_address (rw (ran, total) refl)),
                )
          ]
    ]

is_repeated-holds :
    (a : ℕ) (rest : List ℕ) → holds rest (a / 4096) ≡ false → is_repeated a rest ≡ false
unfolding is_repeated
is_repeated-holds a [] h = refl
is_repeated-holds a (b ∷ rest) h = ground (arith, is_repeated-holds a rest)

put_u64-IsBytes : (m : Memory) (a v : ℕ) → IsBytes m → IsBytes (put_u64 m a v)
unfolding put_u64
put_u64-IsBytes m a v bytes i = ground (arith, bytes i)

-- The patterns are in place, and no byte of another page has changed.
pub record Written (m : Memory) (got : List ℕ) (m' : Memory) : Type 0 where
  pub bytes : IsBytes m'
  pub outside : (i : ℕ) → holds got (i / 4096) ≡ false → m' i ≡ m i
  pub patterns : All (λ a. u64_at m' a ≡ test_pattern a) got

pub write_patterns-Written :
    (h : ℕ) (got : List ℕ) (m : Memory)
    → IsBytes m
    → Separate got
    → All (IsPage h) got
    → (m' : Memory) × (write_patterns got m ≡ ok m') × Written m got m'
unfolding write_patterns test_pattern
write_patterns-Written h [] m bytes apart pages =
    (m, refl, record { bytes = bytes; outside = λ i k. refl; patterns = tt })
write_patterns-Written h (a ∷ rest) m bytes (here, apart) ((aligned, low, l), pages) =
    let once : is_repeated a rest ≡ false = is_repeated-holds a rest here in
    let n : Memory = put_u64 m a (test_pattern a) in
    let (m', ran, w) =
      write_patterns-Written h rest n (put_u64-IsBytes m a (test_pattern a) bytes) apart pages in
    let kept : u64_at m' a ≡ u64_at n a =
      u64_at-window m' n a (a + 8)
        (λ i l r. w.outside i (
          let same : i / 4096 ≡ a / 4096 = omega (arith, aligned) in
          subst (λ q. holds rest q ≡ false) (sym same) here))
        a (omega arith) (omega arith) in
    (
      m',
      rw once ran,
      record {
        bytes = w.bytes;
        outside = λ i k.
            w.outside i (ground (arith, k))
            ∙ put_u64_outside m a (test_pattern a) i (ground (arith, k, aligned));
        patterns = (kept ∙ u64_at-put_u64 m a (test_pattern a) (omega arith), w.patterns);
      },
    )

pub check_patterns-ok :
    (got : List ℕ) (m : Memory)
    → All (λ a. u64_at m a ≡ test_pattern a) got
    → check_patterns got m ≡ ok tt
unfolding check_patterns
check_patterns-ok [] m p = refl
check_patterns-ok (a ∷ rest) m (e, p) = ground (arith, e, check_patterns-ok rest m p)

-- The pages are free again, and no other bit has changed.
pub record Freed (s : Pmm) (got : List ℕ) (t : Pmm) : Type 0 where
  pub valid : IsValid t
  pub bits : (q : ℕ) → is_allocated t q ≡ (if holds got q then false else is_allocated s q)
  pub count : t.free_pages ≡ s.free_pages + length got
  pub same_top : t.highest_page ≡ s.highest_page

pub free_pages_of-Freed :
    (got : List ℕ) (s : Pmm)
    → IsValid s
    → Separate got
    → All (IsPage s.highest_page) got
    → ((q : ℕ) → q < s.highest_page → holds got q ≡ true → is_allocated s q ≡ true)
    → (t : Pmm) × (free_pages_of got s ≡ ok t) × Freed s got t
unfolding free_pages_of
free_pages_of-Freed [] s v apart pages taken =
    (s, refl, record { valid = v; bits = λ q. refl; count = omega arith; same_top = refl })
free_pages_of-Freed (a ∷ rest) s v (here, apart) ((aligned, low, l), pages) taken =
    let (t, ran, vt, (shape, bits)) =
      free_page-Frees s v (a / 4096) low l (taken (a / 4096) l (ground arith)) in
    let back : a / 4096 * 4096 ≡ a = omega (arith, aligned) in
    let ran' : free_page s a ≡ ok t = subst (λ x. free_page s x ≡ ok t) back ran in
    let top : t.highest_page ≡ s.highest_page = ap (λ x. x.highest_page) shape in
    let (u, ran'', f) =
      free_pages_of-Freed rest t vt apart (subst (λ h. All (IsPage h) rest) (sym top) pages)
        (λ q k h. ground (arith, bits q, taken q, here, top)) in
    (
      u,
      rw (ran', free_pages_of) ran'',
      record {
        valid = f.valid;
        bits = λ q. ground (arith, f.bits q, bits q, here);
        count = omega (arith, f.count, ap (λ x. x.free_pages) shape);
        same_top = f.same_top ∙ top;
      },
    )
