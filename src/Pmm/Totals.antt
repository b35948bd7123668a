-- ===== src/Pmm/Totals.antt =====
-- kernel/mm/pmm.c: what pass 1 of `pmm_init` adds up on a map that is sorted and does not overlap.
use sypas.Base.{
  ℕ, ◌+◌, ◌%◌, ◌≤◌, ◌≡◌, refl, Bool, true, arith, ◌==◌, if◌then◌else◌, ◌||◌, not, ◌⊎◌, List, [],
  ◌∷◌, u64_max,
}
use sypas.BootProto.MemType
use sypas.BootProto.{MemmapEntry, is_usable, IsMap}
use sypas.Pmm.Init.{Totals, total_entry, totals}
use sypas.Pmm.Ranges.{EndsBelow}

-- The bytes of the entries that a test accepts.
abbrev pub bytes_of : (MemmapEntry → Bool) → List MemmapEntry → ℕ
bytes_of p [] = 0
bytes_of p (e ∷ es) = (if p e then e.length else 0) + bytes_of p es

abbrev pub is_mmio : MemmapEntry → Bool
is_mmio e = e.type == MemType.mmio

abbrev pub is_reserved : MemmapEntry → Bool
is_reserved e = not (is_usable e || is_mmio e)

EndsBelow-mono : (a b : ℕ) (map : List MemmapEntry) → a ≤ b → EndsBelow a map → EndsBelow b map
EndsBelow-mono a b [] l h = tt
EndsBelow-mono a b (e ∷ es) l (h, hs) = (λ u. omega (arith, h u), EndsBelow-mono a b es l hs)

-- One more entry, where no sum wraps.
total_entry_lem :
    (t : Totals) (e : MemmapEntry) (lo : ℕ)
    → t.usable_bytes + t.reserved_bytes + t.mmio_bytes ≤ lo
    → lo ≤ e.base
    → e.base + e.length ≤ u64_max
    → (t' : Totals) × (total_entry t e ≡ t')
      × (t'.usable_bytes ≡ t.usable_bytes + (if is_usable e then e.length else 0))
      × (t'.mmio_bytes ≡ t.mmio_bytes + (if is_mmio e then e.length else 0))
      × (t'.reserved_bytes ≡ t.reserved_bytes + (if is_reserved e then e.length else 0))
      × (t.max_addr ≤ t'.max_addr)
      × (is_usable e ≡ true → e.base + e.length ≤ t'.max_addr)
      × ((t'.max_addr ≡ t.max_addr) ⊎ (t'.max_addr ≡ e.base + e.length))
unfolding total_entry
total_entry_lem t e lo small ge fits = (
  total_entry t e,
  refl,
  ground arith,
  ground arith,
  ground arith,
  ground arith,
  λ u. ground arith,
  ground arith,
)

pub record Adds (t : Totals) (map : List MemmapEntry) (r : Totals) : Type 0 where
  pub usable : r.usable_bytes ≡ t.usable_bytes + bytes_of is_usable map
  pub mmio : r.mmio_bytes ≡ t.mmio_bytes + bytes_of is_mmio map
  pub reserved : r.reserved_bytes ≡ t.reserved_bytes + bytes_of is_reserved map
  pub grows : t.max_addr ≤ r.max_addr
  pub ends : EndsBelow r.max_addr map
  pub aligned : r.max_addr % 4096 ≡ 0
  pub below : r.max_addr ≤ u64_max

pub totals-Adds :
    (t : Totals) (lo : ℕ) (map : List MemmapEntry)
    → IsMap lo map
    → t.usable_bytes + t.reserved_bytes + t.mmio_bytes ≤ lo
    → t.max_addr % 4096 ≡ 0
    → t.max_addr ≤ u64_max
    → Adds t map (totals t map)
unfolding totals
totals-Adds t lo [] w small al below = record {
  usable = omega arith;
  mmio = omega arith;
  reserved = omega arith;
  grows = omega arith;
  ends = tt;
  aligned = al;
  below = below;
}
totals-Adds t lo (e ∷ es) (ge, base_al, len_al, some_len, end_fits, w) small al below =
    let (t', eq, u, m, r, grow, end, from) = total_entry_lem t e lo small ge end_fits in
    let ih = totals-Adds t' (e.base + e.length) es w (ground arith) (ground arith) (ground arith) in
    rw eq (record {
      usable = omega (arith, ih.usable, u);
      mmio = omega (arith, ih.mmio, m);
      reserved = omega (arith, ih.reserved, r);
      grows = omega (arith, ih.grows, grow);
      ends = (λ us. omega (arith, ih.grows, end us), ih.ends);
      aligned = ih.aligned;
      below = ih.below;
    })
