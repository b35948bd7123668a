-- ===== src/Reloc/Apply.antt =====
-- bootloader/uefi/reloc.c: `sypas_reloc` on the memory that holds the loader's image.
use sypas.Base.{
  ℕ, zero, suc, ◌+◌, ◌-◌, ◌/◌, ◌%◌, ◌^◌, Bool, true, false, not, ltb, ◌==◌, ◌||◌, if◌then◌else◌,
  Option, none, some, Memory, u64_at, put_u64, add_ok, add64, sub64,
}

pub record Dyn : Type 0 where
  pub d_tag : ℕ
  pub d_val : ℕ

unfoldable pub dyn_at : Memory → ℕ → Dyn
dyn_at m a = record { d_tag = u64_at m a; d_val = u64_at m (a + 8) }

-- The addend is the 64-bit word that holds the signed number.
pub record Rela : Type 0 where
  pub r_offset : ℕ
  pub r_info : ℕ
  pub r_addend : ℕ

unfoldable pub rela_at : Memory → ℕ → Rela
rela_at m a = record {
  r_offset = u64_at m a;
  r_info = u64_at m (a + 8);
  r_addend = u64_at m (a + 16);
}

-- A word from 2 ^ 63 on is a negative number.
unfoldable pub add_signed_ok : ℕ → ℕ → Option ℕ
add_signed_ok base addend =
    let magnitude = sub64 0 addend in
    if ltb addend (2 ^ 63)
    then add_ok base addend
    else if ltb base magnitude
    then none
    else some (sub64 base magnitude)

-- What the loop over the dynamic table has found.
pub record Table : Type 0 where
  pub rela : ℕ
  pub relasz : ℕ
  pub relaent : ℕ
  pub have_rela : Bool
  pub have_relasz : Bool
  pub terminated : Bool

abbrev pub no_table : Table
no_table = record {
  rela = 0;
  relasz = 0;
  relaent = 24;
  have_rela = false;
  have_relasz = false;
  terminated = false;
}

-- `switch (d->d_tag)`
unfoldable pub note : Dyn → Table → Table
note d t =
    if d.d_tag == 7
    then record t { rela = d.d_val; have_rela = true }
    else if d.d_tag == 8
    then record t { relasz = d.d_val; have_relasz = true }
    else if d.d_tag == 9
    then record t { relaent = d.d_val }
    else t

-- The loop over at most so many entries, from an address on.
unfoldable pub read_dynamic : ℕ → Memory → ℕ → Table → Table
read_dynamic zero m a t = t
read_dynamic (suc n) m a t =
    let d = dyn_at m a in
    elim (d.d_tag == 0) [
      | true ↦ record t { terminated = true }
      | false ↦ read_dynamic n m (a + 16) (note d t)
    ]

-- One relocation; `none` is the return of 1.
unfoldable pub relocate : ℕ → ℕ → Rela → Memory → Option Memory
relocate base size r m =
    if not (r.r_info % 2 ^ 32 == 8)
    then none
    else if ltb size r.r_offset || ltb (size - r.r_offset) 8
    then none
    else elim (add_ok base r.r_offset) [
      | none ↦ none
      | some target ↦ elim (add_signed_ok base r.r_addend) [
        | none ↦ none
        | some value ↦ some (put_u64 m target value)
      ]
    ]

-- The loop over the relocations: the status, and the memory. An entry is read when its turn comes.
unfoldable pub relocate_all : ℕ → ℕ → ℕ → ℕ → Memory → ℕ × Memory
relocate_all zero base size a m = (0, m)
relocate_all (suc n) base size a m = elim (relocate base size (rela_at m a) m) [
  | none ↦ (1, m)
  | some m' ↦ relocate_all n base size (a + 24) m'
]

-- What follows the loop over the dynamic table.
unfoldable pub apply_table : ℕ → ℕ → Table → Memory → ℕ × Memory
apply_table base size t m =
    if not t.terminated || not (if t.have_rela then t.have_relasz else not t.have_relasz)
    then (1, m)
    else if not t.have_rela
    then (0, m)
    else if not (t.relaent == 24) || not (t.relasz % t.relaent == 0)
    then (1, m)
    else if ltb size t.rela || ltb (size - t.rela) t.relasz
    then (1, m)
    else relocate_all (t.relasz / t.relaent) base size (add64 base t.rela) m

unfoldable pub reloc : ℕ → ℕ → ℕ → Memory → ℕ × Memory
reloc base size dynamic m = elim (if size == 0 then none else add_ok base size) [
  | none ↦ (1, m)
  | some image_end ↦
      if ltb dynamic base || ltb image_end dynamic || ltb (image_end - dynamic) 16
      then (1, m)
      else apply_table base size (read_dynamic ((image_end - dynamic) / 16) m dynamic no_table) m
]
