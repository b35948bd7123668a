-- ===== src/Pmm/History.antt =====
-- kernel/mm/pmm.c: whatever the order of its calls, the allocator has one owner for each page.
use sypas.Base.{
  ℕ, ◌+◌, ◌*◌, ◌/◌, ◌%◌, ◌≤◌, ◌<◌, ◌≡◌, ◌≢◌, refl, arith, ap, subst, ◌∙◌, true, false, ◌==◌,
  if◌then◌else◌, List, [], ◌∷◌, length, get_elem?, Option, none, some, Option-cases, ok, err, ◌⊎◌,
  inl, inr, All, All-map, All-zip, Distinct, drop_at, All-get_elem?, All-drop_at, length-drop_at,
  Distinct-drop_at, ne-drop_at,
}
use sypas.Pmm.State.{Pmm, IsValid, is_allocated}
use sypas.Pmm.Alloc.{alloc_page}
use sypas.Pmm.AllocCorrect.{Exhausted, Takes, alloc_page-Outcome}
use sypas.Pmm.Free.{
  free_page, Frees, free_page-Frees, taken-is_allocated, taken-highest_page, taken-free_pages,
}

-- A call of a client: a page is taken, or one of those that are held is given back.
pub data Request : Type 0 where
  take : Request
  give_back : (i : ℕ) → Request

-- The allocator, and the addresses that clients hold. `none` is a panic, or an endless loop.
abbrev pub serve : Request → Pmm → List ℕ → Option (Pmm × List ℕ)
serve take s held = elim (alloc_page s) [
  | none ↦ none
  | some (address, t) ↦ some (t, if address == 0 then held else address ∷ held)
]
serve (give_back i) s held = elim (get_elem? held i) [
  | none ↦ some (s, held)
  | some address ↦ elim (free_page s address) [ err panic ↦ none | ok t ↦ some (t, drop_at i held) ]
]

abbrev pub serve_all : List Request → Pmm → List ℕ → Option (Pmm × List ℕ)
serve_all [] s held = some (s, held)
serve_all (r ∷ rs) s held = elim (serve r s held) [
  | none ↦ none
  | some (t, held') ↦ serve_all rs t held'
]

-- The address of a page from 1 MiB on that is tracked and allocated.
pub record IsHeld (s : Pmm) (address : ℕ) : Type 0 where
  pub aligned : address % 4096 ≡ 0
  pub high : 256 ≤ address / 4096
  pub tracked : address / 4096 < s.highest_page
  pub allocated : is_allocated s (address / 4096) ≡ true

-- A valid allocator all of whose pages that are held have one owner.
pub record Owned (s : Pmm) (held : List ℕ) : Type 0 where
  pub valid : IsValid s
  pub pages : All (IsHeld s) held
  pub distinct : Distinct held

-- What a call leaves: the pages that are free and those that are held are as many as before.
pub record Kept (s : Pmm) (held : List ℕ) (t : Pmm) (held' : List ℕ) : Type 0 where
  pub owned : Owned t held'
  pub total : t.free_pages + length held' ≡ s.free_pages + length held

IsHeld-keeps :
    (s t : Pmm) (a : ℕ)
    → t.highest_page ≡ s.highest_page
    → is_allocated t (a / 4096) ≡ true
    → IsHeld s a
    → IsHeld t a
IsHeld-keeps s t a same bit h = record {
  aligned = h.aligned;
  high = h.high;
  tracked = omega (arith, same, h.tracked);
  allocated = bit;
}

serve_take-Kept :
    (s t : Pmm) (held : List ℕ) (address : ℕ)
    → Owned s held
    → IsValid t
    → Exhausted s address t ⊎ Takes s address t
    → Kept s held t (if address == 0 then held else address ∷ held)
serve_take-Kept s t held address o vt (inl (empty, zero_address, e)) =
    let same : t.highest_page ≡ s.highest_page = ap (λ x. x.highest_page) e in
    let bits : (q : ℕ) → is_allocated t q ≡ is_allocated s q = λ q. ap (λ x. is_allocated x q) e in
    rw zero_address (record {
      owned = record {
        valid = vt;
        pages =
            All-map _ _ held (λ a h. IsHeld-keeps s t a same (bits (a / 4096) ∙ h.allocated) h)
              o.pages;
        distinct = o.distinct;
      };
      total = omega (arith, ap (λ x. x.free_pages) e);
    })
serve_take-Kept s t held address o vt (inr (p, l, low, free, e, t_eq)) =
    let same = taken-highest_page s t o.valid p l free t_eq in
    let bits = taken-is_allocated s t o.valid p l free t_eq in
    let count = taken-free_pages s t o.valid p l free t_eq in
    let page : address / 4096 ≡ p = omega (arith, e) in
    let taken : address == 0 ≡ false = ground (arith, e, low) in
    rw taken (record {
      owned = record {
        valid = vt;
        pages = (
          record {
            aligned = omega (arith, e);
            high = omega (arith, e, low);
            tracked = omega (arith, e, l, same);
            allocated = ground (arith, bits (address / 4096), page);
          },
          All-map _ _ held
              (λ a h. IsHeld-keeps s t a same (ground (arith, bits (a / 4096), h.allocated)) h)
              o.pages,
        );
        distinct = (
          All-map _ _ held
              (λ a h k.
                absurd
                  (ground (arith, h.allocated, free, page, ap (λ x. is_allocated s (x / 4096)) k)))
              o.pages,
          o.distinct,
        );
      };
      total = omega (arith, count);
    })

serve_back-Kept :
    (s t : Pmm) (held : List ℕ) (i address : ℕ)
    → Owned s held
    → get_elem? held i ≡ some address
    → IsValid t
    → Frees s (address / 4096) t
    → Kept s held t (drop_at i held)
serve_back-Kept s t held i address o e vt (shape, bits) =
    let here = All-get_elem? (IsHeld s) held i o.pages e in
    let same : t.highest_page ≡ s.highest_page = ap (λ x. x.highest_page) shape in
    let others = ne-drop_at held i o.distinct e in
    let rest = All-drop_at (IsHeld s) held i o.pages in
    record {
      owned = record {
        valid = vt;
        pages =
            All-zip (IsHeld s) (λ b. address ≢ b) (IsHeld t) (drop_at i held)
              (λ b h ne.
                IsHeld-keeps s t b same
                  (ground (arith, bits (b / 4096), h.allocated, apart b h ne here)) h)
              rest others;
        distinct = Distinct-drop_at held i o.distinct;
      };
      total = omega (arith, ap (λ x. x.free_pages) shape, length-drop_at held i e);
    }
  where
    apart : (b : ℕ) → IsHeld s b → address ≢ b → IsHeld s address → b / 4096 ≢ address / 4096
    apart b h ne here k = ne (omega (arith, h.aligned, here.aligned, k))

-- On a valid allocator whose held pages have one owner, each call returns, and it stays so.
serve-Kept :
    (r : Request) (s : Pmm) (held : List ℕ)
    → Owned s held
    → (t : Pmm) × (held' : List ℕ) × (serve r s held ≡ some (t, held')) × Kept s held t held'
serve-Kept take s held o =
    let (address, t, e, vt, out) = alloc_page-Outcome s o.valid in
    (
      t,
      if address == 0 then held else address ∷ held,
      rw (e, serve) refl,
      serve_take-Kept s t held address o vt out,
    )
serve-Kept (give_back i) s held o = elim (Option-cases (get_elem? held i)) [
  | inl e ↦ (s, held, rw (e, serve) refl, record { owned = o; total = refl })
  | inr (address, e) ↦
      let here = All-get_elem? (IsHeld s) held i o.pages e in
      let (t, ran, vt, frees) =
        free_page-Frees s o.valid (address / 4096) here.high here.tracked here.allocated in
      let back : address / 4096 * 4096 ≡ address = omega (arith, here.aligned) in
      let ran' : free_page s address ≡ ok t = subst (λ a. free_page s a ≡ ok t) back ran in
      (
        t,
        drop_at i held,
        rw (e, serve) (rw (ran', serve) refl),
        serve_back-Kept s t held i address o e vt frees,
      )
]

-- From a valid allocator all of whose held pages are allocated and have one owner, whatever the
-- calls of pmm_alloc_page and pmm_free_page and their order, where a client gives back only what it
-- holds, none panics or fails to return: after them the allocator is valid, each page that is held
-- is allocated and has one owner, and no page is lost.
pub serve_all-Kept :
    (rs : List Request) (s : Pmm) (held : List ℕ)
    → Owned s held
    → (t : Pmm) × (held' : List ℕ) × (serve_all rs s held ≡ some (t, held')) × Kept s held t held'
serve_all-Kept [] s held o = (s, held, refl, record { owned = o; total = refl })
serve_all-Kept (r ∷ rs) s held o =
    let (t, held', e, k) = serve-Kept r s held o in
    let (u, held'', e', k') = serve_all-Kept rs t held' k.owned in
    (u, held'', rw (e, serve_all) e', record { owned = k'.owned; total = k'.total ∙ k.total })
