-- ===== src/Reloc/Applied.antt =====
-- bootloader/uefi/reloc.c: what a relocation that succeeds has written. The loop, which reads each
-- entry from the memory that it is changing, is compared with one over the list of the entries.
use sypas.Base.{
  ℕ, zero, suc, ◌+◌, ◌-◌, ◌*◌, ◌/◌, ◌%◌, ◌^◌, ◌≤◌, ◌<◌, ◌≡◌, refl, arith, ◌∙◌, sym, ap, subst, true,
  List, [], ◌∷◌, none, some, Memory, IsBytes, u64_at, u64_at-lt, put_u64, put_u64_outside,
  u64_at-put_u64, u64_at-window, add_ok, add64, u64_max, Option-cases, ◌⊎◌, inl, inr, All, All-map,
}
use mathlib.Core.Option.{some-injective}
use sypas.Reloc.Apply.{
  Rela, rela_at, add_signed_ok, Table, no_table, read_dynamic, relocate, relocate_all, apply_table,
  reloc,
}
use sypas.Reloc.Inside.{relocate-some}
use sypas.Reloc.Reads.{rela_at-Same, relocate_all-none, relocate_all-some}

-- The entries as they stand in memory before the loop.
abbrev pub entries : ℕ → ℕ → Memory → List Rela
entries zero a m = []
entries (suc n) a m = rela_at m a ∷ entries n (a + 24) m

abbrev relocate_list : ℕ → ℕ → List Rela → Memory → ℕ × Memory
relocate_list base size [] m = (0, m)
relocate_list base size (r ∷ rs) m = elim (relocate base size r m) [
  | none ↦ (1, m)
  | some m' ↦ relocate_list base size rs m'
]

-- The target of a relocation lies outside of the addresses from `lo` to `hi`.
abbrev pub Misses : ℕ → ℕ → ℕ → Rela → Type 0
Misses base lo hi r = (base + r.r_offset + 8 ≤ lo) ⊎ (hi ≤ base + r.r_offset)

abbrev pub Apart : Rela → Rela → Type 0
Apart r s = (r.r_offset + 8 ≤ s.r_offset) ⊎ (s.r_offset + 8 ≤ r.r_offset)

abbrev pub AllApart : List Rela → Type 0
AllApart [] = Unit {0}
AllApart (r ∷ rs) = All (Apart r) rs × AllApart rs

-- The target holds the base and the addend.
abbrev pub Holds : ℕ → Memory → Rela → Type 0
Holds base m r = u64_at m (base + r.r_offset) ≡ (base + r.r_addend) % 2 ^ 64

entries-put_u64 :
    (n a : ℕ) (m : Memory) (target value lo hi : ℕ)
    → (target + 8 ≤ lo) ⊎ (hi ≤ target)
    → lo ≤ a
    → a + 24 * n ≤ hi
    → entries n a (put_u64 m target value) ≡ entries n a m
entries-put_u64 zero a m target value lo hi miss low high = refl
entries-put_u64 (suc n) a m target value lo hi miss low high =
    let outside : (i : ℕ) → lo ≤ i → i < lo + (hi - lo) → put_u64 m target value i ≡ m i =
      λ i l r. put_u64_outside m target value i (ground arith) in
    rw
      (
        rela_at-Same lo (hi - lo) (put_u64 m target value) m a outside low (omega arith),
        entries-put_u64 n (a + 24) m target value lo hi miss (omega arith) (omega arith),
      )
      refl

relocate_list-none :
    (base size : ℕ) (r : Rela) (rs : List Rela) (m : Memory)
    → relocate base size r m ≡ none
    → relocate_list base size (r ∷ rs) m ≡ (1, m)
relocate_list-none base size r rs m e = rw (e, relocate_list) refl

relocate_list-some :
    (base size : ℕ) (r : Rela) (rs : List Rela) (m : Memory) {m' : Memory}
    → relocate base size r m ≡ some m'
    → relocate_list base size (r ∷ rs) m ≡ relocate_list base size rs m'
relocate_list-some base size r rs m e = rw (e, relocate_list) refl

relocate_all-list :
    (n base size a : ℕ) (m : Memory) (lo hi : ℕ)
    → base + size ≤ u64_max
    → All (Misses base lo hi) (entries n a m)
    → lo ≤ a
    → a + 24 * n ≤ hi
    → relocate_all n base size a m ≡ relocate_list base size (entries n a m) m
unfolding relocate_all
relocate_all-list zero base size a m lo hi fits miss low high = refl
relocate_all-list (suc n) base size a m lo hi fits (miss, misses) low high =
    elim (Option-cases (relocate base size (rela_at m a) m)) [
      | inl e ↦
          relocate_all-none n base size a m refl e
          ∙ sym (relocate_list-none base size (rela_at m a) (entries n (a + 24) m) m e)
      | inr (m', e) ↦
          let (inside, info, (value, value_ok, f)) =
            relocate-some base size (rela_at m a) m fits e in
          let stored : put_u64 m (base + (rela_at m a).r_offset) value ≡ m' =
            some-injective _ _ f in
          let unchanged : entries n (a + 24) m' ≡ entries n (a + 24) m =
            subst (λ (x : Memory). entries n (a + 24) x ≡ entries n (a + 24) m) stored
              (entries-put_u64 n (a + 24) m (base + (rela_at m a).r_offset) value lo hi miss
                (omega arith) (omega arith)) in
          let rest =
            relocate_all-list n base size (a + 24) m' lo hi fits
              (subst (All (Misses base lo hi)) (sym unchanged) misses) (omega arith)
              (omega arith) in
          relocate_all-some n base size a m refl e
          ∙ rest
          ∙ ap (λ x. relocate_list base size x m') unchanged
          ∙ sym (relocate_list-some base size (rela_at m a) (entries n (a + 24) m) m e)
    ]

-- A relocation that succeeds, in a loop that does.
relocate_list-parts :
    (base size : ℕ) (r : Rela) (rs : List Rela) (m : Memory) {m' : Memory}
    → base + size ≤ u64_max
    → relocate_list base size (r ∷ rs) m ≡ (0, m')
    → (value : ℕ) × (add_signed_ok base r.r_addend ≡ some value)
      × (relocate_list base size rs (put_u64 m (base + r.r_offset) value) ≡ (0, m'))
relocate_list-parts base size r rs m {m'} fits h = elim (Option-cases (relocate base size r m)) [
  | inl e ↦ absurd (status (sym (relocate_list-none base size r rs m e) ∙ h))
  | inr (m1, e) ↦
      let (inside, info, (value, value_ok, f)) = relocate-some base size r m fits e in
      (
        value,
        value_ok,
        ap (relocate_list base size rs) (some-injective _ _ f)
            ∙ sym (relocate_list-some base size r rs m e)
            ∙ h,
      )
]
  where
    status : {x y : Memory} → ◌≡◌ {A = ℕ × Memory} (1, x) (0, y) → ⊥
    status e = absurd (omega (arith, ap (λ (x : ℕ × Memory). x.0) e))

relocate_list-keeps :
    (base size : ℕ) (rs : List Rela) (m : Memory) (k : ℕ) {m' : Memory}
    → base + size ≤ u64_max
    → All (Misses base k (k + 8)) rs
    → relocate_list base size rs m ≡ (0, m')
    → u64_at m' k ≡ u64_at m k
relocate_list-keeps base size [] m k fits misses h = ap (λ (x : ℕ × Memory). u64_at x.1 k) (sym h)
relocate_list-keeps base size (r ∷ rs) m k fits (miss, misses) h =
    let (value, value_ok, rest) = relocate_list-parts base size r rs m fits h in
    let stored = put_u64 m (base + r.r_offset) value in
    relocate_list-keeps base size rs stored k fits misses rest
    ∙ u64_at-window stored m k (k + 8)
        (λ i l l'. put_u64_outside m (base + r.r_offset) value i (ground (arith, miss))) k
        (omega arith) (omega arith)

add_signed_ok-some :
    (base addend : ℕ) {value : ℕ}
    → base ≤ u64_max
    → addend ≤ u64_max
    → add_signed_ok base addend ≡ some value
    → value ≡ (base + addend) % 2 ^ 64
unfolding add_signed_ok add_ok
add_signed_ok-some base addend l r h = ground arith

All-Apart :
    (base : ℕ) (r : Rela) (rs : List Rela)
    → All (Apart r) rs
    → All (Misses base (base + r.r_offset) (base + r.r_offset + 8)) rs
All-Apart base r rs h = All-map _ _ rs (λ s a. ground (arith, a)) h

relocate_list-Holds :
    (base size : ℕ) (rs : List Rela) (m : Memory) {m' : Memory}
    → base + size ≤ u64_max
    → All (λ r. r.r_addend ≤ u64_max) rs
    → AllApart rs
    → relocate_list base size rs m ≡ (0, m')
    → All (Holds base m') rs
relocate_list-Holds base size [] m fits words apart h = tt
relocate_list-Holds base size (r ∷ rs) m {m'} fits (word, words) (away, apart) h =
    let (value, value_ok, rest) = relocate_list-parts base size r rs m fits h in
    let sum : value ≡ (base + r.r_addend) % 2 ^ 64 =
      add_signed_ok-some base r.r_addend (omega arith) word value_ok in
    let stored = put_u64 m (base + r.r_offset) value in
    (
      relocate_list-keeps base size rs stored (base + r.r_offset) fits (All-Apart base r rs away)
            rest
          ∙ u64_at-put_u64 m (base + r.r_offset) value (omega (arith, sum))
          ∙ sum,
      relocate_list-Holds base size rs stored fits words apart rest,
    )

entries-words : (n a : ℕ) (m : Memory) → IsBytes m → All (λ r. r.r_addend ≤ u64_max) (entries n a m)
unfolding rela_at
entries-words zero a m bytes = tt
entries-words (suc n) a m bytes =
    (omega (arith, u64_at-lt m (a + 16) bytes), entries-words n (a + 24) m bytes)

abbrev pub table_of : ℕ → ℕ → ℕ → Memory → Table
table_of base size dynamic m = read_dynamic ((base + size - dynamic) / 16) m dynamic no_table

abbrev pub rela_entries : ℕ → Table → Memory → List Rela
rela_entries base t m = entries (t.relasz / 24) (base + t.rela) m

apply_table-zero :
    (base size : ℕ) (t : Table) (m : Memory) {m' : Memory}
    → base + size ≤ u64_max
    → t.have_rela ≡ true
    → apply_table base size t m ≡ (0, m')
    → (t.rela + t.relasz ≤ size)
      × (t.relasz % 24 ≡ 0)
      × (relocate_all (t.relasz / 24) base size (base + t.rela) m ≡ (0, m'))
unfolding apply_table
apply_table-zero base size t m fits have h =
    let at : t.rela ≤ size → add64 base t.rela ≡ base + t.rela = λ l. omega arith in
    ground (arith, at)

reloc-zero :
    (base size dynamic : ℕ) (m : Memory) {m' : Memory}
    → size ≤ u64_max
    → reloc base size dynamic m ≡ (0, m')
    → (base + size ≤ u64_max) × (apply_table base size (table_of base size dynamic m) m ≡ (0, m'))
unfolding reloc add_ok
reloc-zero base size dynamic m word h = ground arith

-- In a memory of bytes, for an image whose size is of 64 bits and whose dynamic table names a
-- table of relocations, no target of which meets the table or another target: where sypas_reloc
-- returns 0, the table lies in the image and each target holds the base plus the signed addend.
pub reloc-Holds :
    (base size dynamic : ℕ) (m : Memory) {m' : Memory}
    → IsBytes m
    → size ≤ u64_max
    → (table_of base size dynamic m).have_rela ≡ true
    → All
        (Misses base
          (base + (table_of base size dynamic m).rela)
          (base + (table_of base size dynamic m).rela + (table_of base size dynamic m).relasz))
        (rela_entries base (table_of base size dynamic m) m)
    → AllApart (rela_entries base (table_of base size dynamic m) m)
    → reloc base size dynamic m ≡ (0, m')
    → ((table_of base size dynamic m).rela + (table_of base size dynamic m).relasz ≤ size)
      × All (Holds base m') (rela_entries base (table_of base size dynamic m) m)
reloc-Holds base size dynamic m bytes word have misses apart h =
    let t = table_of base size dynamic m in
    let (fits, applied) = reloc-zero base size dynamic m word h in
    let (inside, whole, run) = apply_table-zero base size t m fits have applied in
    let n : ℕ = t.relasz / 24 in
    let a : ℕ = base + t.rela in
    let list =
      relocate_all-list n base size a m a (a + t.relasz) fits misses (omega arith) (omega arith) in
    (
      inside,
      relocate_list-Holds base size (entries n a m) m fits (entries-words n a m bytes) apart
          (sym list ∙ run),
    )
