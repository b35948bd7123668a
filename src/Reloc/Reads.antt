-- ===== src/Reloc/Reads.antt =====
-- bootloader/uefi/reloc.c: `sypas_reloc` reads inside the image only.
use sypas.Base.{
  ℕ, zero, suc, ◌+◌, ◌-◌, ◌*◌, ◌/◌, ◌%◌, ◌^◌, ◌≤◌, ◌<◌, ◌≡◌, refl, arith, ◌∙◌, sym, ap, subst, true,
  ltb, ◌==◌, ◌||◌, if◌then◌else◌, none, some, Memory, put_u64, u64_at-window, add_ok, add64,
  u64_max, Option-cases, Bool-cases, ◌⊎◌, inl, inr,
}
use sypas.Reloc.Apply.{
  Dyn, dyn_at, note, Rela, rela_at, add_signed_ok, Table, no_table, read_dynamic, relocate,
  relocate_all, apply_table, reloc,
}

-- The memories agree on the image.
abbrev pub Same : ℕ → ℕ → Memory → Memory → Type 0
Same base size f g = (i : ℕ) → base ≤ i → i < base + size → f i ≡ g i

-- The same status, and the same bytes in the image.
abbrev pub SameResult : ℕ → ℕ → ℕ × Memory → ℕ × Memory → Type 0
SameResult base size r s = (r.0 ≡ s.0) × Same base size r.1 s.1

dyn_at-Same :
    (base size : ℕ) (f g : Memory) (a : ℕ)
    → Same base size f g
    → base ≤ a
    → a + 16 ≤ base + size
    → dyn_at f a ≡ dyn_at g a
unfolding dyn_at
dyn_at-Same base size f g a same low high =
    let tag = u64_at-window f g base (base + size) same a (omega arith) (omega arith) in
    let val = u64_at-window f g base (base + size) same (a + 8) (omega arith) (omega arith) in
    rw (tag, val)

pub rela_at-Same :
    (base size : ℕ) (f g : Memory) (a : ℕ)
    → Same base size f g
    → base ≤ a
    → a + 24 ≤ base + size
    → rela_at f a ≡ rela_at g a
unfolding rela_at
rela_at-Same base size f g a same low high =
    let offset = u64_at-window f g base (base + size) same a (omega arith) (omega arith) in
    let info = u64_at-window f g base (base + size) same (a + 8) (omega arith) (omega arith) in
    let addend = u64_at-window f g base (base + size) same (a + 16) (omega arith) (omega arith) in
    rw (offset, info, addend)

read_dynamic-suc :
    (n : ℕ) (m : Memory) (a : ℕ) (t : Table) {d : Dyn}
    → dyn_at m a ≡ d
    → read_dynamic (suc n) m a t ≡ (
        if d.d_tag == 0
        then record t { terminated = true }
        else read_dynamic n m (a + 16) (note d t))
unfolding read_dynamic
read_dynamic-suc n m a t e = ground (arith, e)

read_dynamic-Same :
    (n : ℕ) (base size : ℕ) (f g : Memory) (a : ℕ) (t : Table)
    → Same base size f g
    → base ≤ a
    → a + 16 * n ≤ base + size
    → read_dynamic n f a t ≡ read_dynamic n g a t
unfolding read_dynamic
read_dynamic-Same zero base size f g a t same low high = refl
read_dynamic-Same (suc n) base size f g a t same low high =
    let d = dyn_at-Same base size f g a same low (omega arith) in
    let rest =
      read_dynamic-Same n base size f g (a + 16) (note (dyn_at f a) t) same (omega arith)
        (omega arith) in
    read_dynamic-suc n f a t refl
    ∙ ap (λ x. if (dyn_at f a).d_tag == 0 then record t { terminated = true } else x) rest
    ∙ sym (read_dynamic-suc n g a t (sym d))

put_u64-Same :
    (base size : ℕ) (f g : Memory) (a v : ℕ)
    → Same base size f g
    → Same base size (put_u64 f a v) (put_u64 g a v)
unfolding put_u64
put_u64-Same base size f g a v same i low high = ground (arith, same i low high)

relocate-pair :
    (base size : ℕ) (r : Rela) (f g : Memory)
    → ((relocate base size r f ≡ none) × (relocate base size r g ≡ none))
      ⊎ ((p : ℕ × ℕ) × (relocate base size r f ≡ some (put_u64 f p.0 p.1))
          × (relocate base size r g ≡ some (put_u64 g p.0 p.1)))
unfolding relocate
relocate-pair base size r f g = elim (Option-cases (add_ok base r.r_offset)) [
  | inl e ↦ inl (ground (arith, e))
  | inr (target, e) ↦ elim (Option-cases (add_signed_ok base r.r_addend)) [
    | inl e' ↦ inl (ground (arith, e, e'))
    | inr (value, e') ↦ elim (Bool-cases (r.r_info % 2 ^ 32 == 8)) [
      | inr b ↦ inl (ground (arith, b))
      | inl b ↦ elim (Bool-cases (ltb size r.r_offset || ltb (size - r.r_offset) 8)) [
        | inl c ↦ inl (ground (arith, c))
        | inr c ↦ inr ((target, value), ground (arith, e, e', b, c), ground (arith, e, e', b, c))
      ]
    ]
  ]
]

apply_table-pair :
    (base size : ℕ) (t : Table) (f g : Memory)
    → ((apply_table base size t f ≡ (1, f)) × (apply_table base size t g ≡ (1, g)))
      ⊎ ((apply_table base size t f ≡ (0, f)) × (apply_table base size t g ≡ (0, g)))
      ⊎ ((t.rela + t.relasz ≤ size)
          × (t.relasz % 24 ≡ 0)
          × (apply_table base size t f
              ≡ relocate_all (t.relasz / 24) base size (add64 base t.rela) f)
          × (apply_table base size t g
              ≡ relocate_all (t.relasz / 24) base size (add64 base t.rela) g))
unfolding apply_table
apply_table-pair base size t f g = ground arith

reloc-pair :
    (base size dynamic : ℕ) (f g : Memory)
    → size ≤ u64_max
    → ((reloc base size dynamic f ≡ (1, f)) × (reloc base size dynamic g ≡ (1, g)))
      ⊎ ((base + size ≤ u64_max)
          × (base ≤ dynamic)
          × (dynamic + 16 ≤ base + size)
          × (reloc base size dynamic f
              ≡ apply_table base size
                  (read_dynamic ((base + size - dynamic) / 16) f dynamic no_table)
                  f)
          × (reloc base size dynamic g
              ≡ apply_table base size
                  (read_dynamic ((base + size - dynamic) / 16) g dynamic no_table)
                  g))
unfolding reloc add_ok
reloc-pair base size dynamic f g word = ground arith

pub relocate_all-none :
    (n base size a : ℕ) (m : Memory) {r : Rela}
    → rela_at m a ≡ r
    → relocate base size r m ≡ none
    → relocate_all (suc n) base size a m ≡ (1, m)
unfolding relocate_all
relocate_all-none n base size a m e h = rw (e, h, relocate_all) refl

pub relocate_all-some :
    (n base size a : ℕ) (m : Memory) {r : Rela} {m' : Memory}
    → rela_at m a ≡ r
    → relocate base size r m ≡ some m'
    → relocate_all (suc n) base size a m ≡ relocate_all n base size (a + 24) m'
unfolding relocate_all
relocate_all-some n base size a m e h = rw (e, h, relocate_all) refl

SameResult-transport :
    (base size : ℕ) {x y x' y' : ℕ × Memory}
    → x ≡ x'
    → y ≡ y'
    → SameResult base size x' y'
    → SameResult base size x y
SameResult-transport base size {x} {y} {x'} {y'} e e' s =
    subst (λ (z : ℕ × Memory). SameResult base size z y) (sym e)
      (subst (λ (z : ℕ × Memory). SameResult base size x' z) (sym e') s)

relocate_all-Same :
    (n base size a : ℕ) (f g : Memory)
    → Same base size f g
    → base ≤ a
    → a + 24 * n ≤ base + size
    → SameResult base size (relocate_all n base size a f) (relocate_all n base size a g)
unfolding relocate_all
relocate_all-Same zero base size a f g same low high = (refl, same)
relocate_all-Same (suc n) base size a f g same low high =
    let r = rela_at-Same base size f g a same low (omega arith) in
    elim (relocate-pair base size (rela_at f a) f g) [
      | inl (e, e') ↦
          SameResult-transport base size (relocate_all-none n base size a f refl e)
            (relocate_all-none n base size a g (sym r) e') (refl, same)
      | inr ((target, value), e, e') ↦
          let same' = put_u64-Same base size f g target value same in
          let rest =
            relocate_all-Same n base size (a + 24) (put_u64 f target value) (put_u64 g target value)
              same' (omega arith) (omega arith) in
          SameResult-transport base size (relocate_all-some n base size a f refl e)
            (relocate_all-some n base size a g (sym r) e') rest
    ]

apply_table-Same :
    (base size : ℕ) (t : Table) (f g : Memory)
    → base + size ≤ u64_max
    → Same base size f g
    → SameResult base size (apply_table base size t f) (apply_table base size t g)
apply_table-Same base size t f g fits same = elim (apply_table-pair base size t f g) [
  | inl (e, e') ↦ SameResult-transport base size e e' (refl, same)
  | inr (inl (e, e')) ↦ SameResult-transport base size e e' (refl, same)
  | inr (inr (inside, whole, e, e')) ↦
      let at : add64 base t.rela ≡ base + t.rela = omega arith in
      SameResult-transport base size e e' (
        relocate_all-Same (t.relasz / 24) base size (add64 base t.rela) f g same (omega (arith, at))
          (omega (arith, at)))
]

-- Two memories that agree on the image get the same status, and agree on the image afterwards: no
-- byte outside the image is read.
pub reloc-SameResult :
    (base size dynamic : ℕ) (f g : Memory)
    → size ≤ u64_max
    → Same base size f g
    → SameResult base size (reloc base size dynamic f) (reloc base size dynamic g)
reloc-SameResult base size dynamic f g word same = elim (reloc-pair base size dynamic f g word) [
  | inl (e, e') ↦ SameResult-transport base size e e' (refl, same)
  | inr (fits, low, high, e, e') ↦
      let n : ℕ = (base + size - dynamic) / 16 in
      let t = read_dynamic-Same n base size f g dynamic no_table same low (omega arith) in
      let table = apply_table-Same base size (read_dynamic n f dynamic no_table) f g fits same in
      SameResult-transport base size e (e' ∙ ap (λ x. apply_table base size x g) (sym t)) table
]
