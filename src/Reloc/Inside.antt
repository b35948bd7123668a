-- ===== src/Reloc/Inside.antt =====
-- bootloader/uefi/reloc.c: `sypas_reloc` writes inside the image only.
use sypas.Base.{
  ℕ, zero, suc, ◌+◌, ◌-◌, ◌/◌, ◌%◌, ◌^◌, ◌≤◌, ◌<◌, ◌≡◌, refl, arith, ◌∙◌, sym, ap, some, Memory,
  put_u64, put_u64_outside, add_ok, add64, u64_max, Option-cases, ◌⊎◌, inl, inr,
}
use mathlib.Core.Option.{some-injective}
use sypas.Reloc.Apply.{
  Rela, rela_at, add_signed_ok, Table, no_table, read_dynamic, relocate, relocate_all, apply_table,
  reloc,
}

abbrev pub Outside : ℕ → ℕ → ℕ → Type 0
Outside base size i = (i < base) ⊎ (base + size ≤ i)

-- A relocation that is applied is one store, inside the image.
pub relocate-some :
    (base size : ℕ) (r : Rela) (m : Memory) {m' : Memory}
    → base + size ≤ u64_max
    → relocate base size r m ≡ some m'
    → (r.r_offset + 8 ≤ size)
      × (r.r_info % 2 ^ 32 ≡ 8)
      × ((value : ℕ) × (add_signed_ok base r.r_addend ≡ some value)
          × (some (put_u64 m (base + r.r_offset) value) ≡ some m'))
unfolding relocate add_ok
relocate-some base size r m fits h = ground arith

relocate_all-suc :
    (n base size a : ℕ) (m : Memory)
    → (relocate_all (suc n) base size a m ≡ (1, m))
      ⊎ ((m' : Memory) × (relocate base size (rela_at m a) m ≡ some m')
          × (relocate_all (suc n) base size a m ≡ relocate_all n base size (a + 24) m'))
unfolding relocate_all
relocate_all-suc n base size a m = elim (Option-cases (relocate base size (rela_at m a) m)) [
  | inl e ↦ inl (ground (arith, e))
  | inr (m', e) ↦ inr (m', e, ground (arith, e))
]

relocate-Outside :
    (base size : ℕ) (r : Rela) (m : Memory) {m' : Memory}
    → base + size ≤ u64_max
    → relocate base size r m ≡ some m'
    → (i : ℕ) → Outside base size i
    → m' i ≡ m i
relocate-Outside base size r m {m'} fits h i out =
    let (inside, info, (value, value_ok, e)) = relocate-some base size r m fits h in
    let same : put_u64 m (base + r.r_offset) value ≡ m' = some-injective _ _ e in
    sym (ap (λ f. f i) same) ∙ put_u64_outside m (base + r.r_offset) value i (omega arith)

relocate_all-Outside :
    (n base size a : ℕ) (m : Memory)
    → base + size ≤ u64_max
    → (i : ℕ) → Outside base size i
    → (relocate_all n base size a m).1 i ≡ m i
unfolding relocate_all
relocate_all-Outside zero base size a m fits i out = refl
relocate_all-Outside (suc n) base size a m fits i out = elim (relocate_all-suc n base size a m) [
  | inl e ↦ ap (λ (r : ℕ × Memory). r.1 i) e
  | inr (m', one, e) ↦
      ap (λ (r : ℕ × Memory). r.1 i) e
      ∙ relocate_all-Outside n base size (a + 24) m' fits i out
      ∙ relocate-Outside base size (rela_at m a) m fits one i out
]

apply_table-cases :
    (base size : ℕ) (t : Table) (m : Memory)
    → (apply_table base size t m ≡ (1, m))
      ⊎ (apply_table base size t m ≡ (0, m))
      ⊎ ((t.rela + t.relasz ≤ size)
          × (t.relasz % 24 ≡ 0)
          × (apply_table base size t m
              ≡ relocate_all (t.relasz / 24) base size (add64 base t.rela) m))
unfolding apply_table
apply_table-cases base size t m = ground arith

reloc-cases :
    (base size dynamic : ℕ) (m : Memory)
    → size ≤ u64_max
    → (reloc base size dynamic m ≡ (1, m))
      ⊎ ((base + size ≤ u64_max)
          × (base ≤ dynamic)
          × (dynamic + 16 ≤ base + size)
          × (reloc base size dynamic m
              ≡ apply_table base size
                  (read_dynamic ((base + size - dynamic) / 16) m dynamic no_table)
                  m))
unfolding reloc add_ok
reloc-cases base size dynamic m word = ground arith

-- Whatever the memory holds, each byte outside the image is as before, whether the status is 0 or 1.
pub reloc-Outside :
    (base size dynamic : ℕ) (m : Memory) (i : ℕ)
    → size ≤ u64_max
    → Outside base size i
    → (reloc base size dynamic m).1 i ≡ m i
reloc-Outside base size dynamic m i word out = elim (reloc-cases base size dynamic m word) [
  | inl e ↦ ap (λ (r : ℕ × Memory). r.1 i) e
  | inr (fits, low, high, e) ↦
      let t = read_dynamic ((base + size - dynamic) / 16) m dynamic no_table in
      ap (λ (r : ℕ × Memory). r.1 i) e ∙ elim (apply_table-cases base size t m) [
        | inl f ↦ ap (λ (r : ℕ × Memory). r.1 i) f
        | inr (inl f) ↦ ap (λ (r : ℕ × Memory). r.1 i) f
        | inr (inr (inside, whole, f)) ↦
            ap (λ (r : ℕ × Memory). r.1 i) f
            ∙ relocate_all-Outside (t.relasz / 24) base size (add64 base t.rela) m fits i out
      ]
]
