-- ===== src/Elf/ReadsInside.antt =====
-- bootloader/uefi/elf.c: `elf_plan_load` reads within the file only.
use sypas.Base.{
  ℕ, zero, suc, ◌+◌, ◌*◌, ◌^◌, ◌≤◌, ◌<◌, ◌≡◌, refl, arith, not, ltb, if◌then◌else◌, List, ◌∷◌, none,
  some, Result, err, Memory, IsBytes, Bool-cases, Option-cases, inl, inr, ◌∙◌, ap, u16_at-same,
  u32_at-same, u64_at-same, ltb→ge, ap₂, ◌>>=◌,
}
use sypas.Elf.Format.{
  Ehdr, ehdr_at, Phdr, phdr_at, phdrs_at, LoadPlan, ElfStatus, truncated, phdr_bounds,
}
use sypas.Elf.Plan.{check_header, table_fits, plan_entries, no_plan, finish, plan_load}
use sypas.Elf.Accepted.{check_header-none, eh_fits}

module _ (f g : Memory) (n : ℕ) (same : (i : ℕ) → i < n → f i ≡ g i) where
  ehdr_at-same : 64 ≤ n → ehdr_at f ≡ ehdr_at g
  unfolding ehdr_at
  ehdr_at-same l = λ i. record {
    e_magic = u32_at-same f g n same 0 (omega arith) i;
    e_class = same 4 (omega arith) i;
    e_data = same 5 (omega arith) i;
    e_iversion = same 6 (omega arith) i;
    e_osabi = same 7 (omega arith) i;
    e_abiversion = same 8 (omega arith) i;
    e_type = u16_at-same f g n same 16 (omega arith) i;
    e_machine = u16_at-same f g n same 18 (omega arith) i;
    e_version = u32_at-same f g n same 20 (omega arith) i;
    e_entry = u64_at-same f g n same 24 (omega arith) i;
    e_phoff = u64_at-same f g n same 32 (omega arith) i;
    e_shoff = u64_at-same f g n same 40 (omega arith) i;
    e_flags = u32_at-same f g n same 48 (omega arith) i;
    e_ehsize = u16_at-same f g n same 52 (omega arith) i;
    e_phentsize = u16_at-same f g n same 54 (omega arith) i;
    e_phnum = u16_at-same f g n same 56 (omega arith) i;
    e_shentsize = u16_at-same f g n same 58 (omega arith) i;
    e_shnum = u16_at-same f g n same 60 (omega arith) i;
    e_shstrndx = u16_at-same f g n same 62 (omega arith) i;
  }

  phdr_at-same : (a : ℕ) → a + 56 ≤ n → phdr_at f a ≡ phdr_at g a
  unfolding phdr_at
  phdr_at-same a l = λ i. record {
    p_type = u32_at-same f g n same a (omega arith) i;
    p_flags = u32_at-same f g n same (a + 4) (omega arith) i;
    p_offset = u64_at-same f g n same (a + 8) (omega arith) i;
    p_vaddr = u64_at-same f g n same (a + 16) (omega arith) i;
    p_paddr = u64_at-same f g n same (a + 24) (omega arith) i;
    p_filesz = u64_at-same f g n same (a + 32) (omega arith) i;
    p_memsz = u64_at-same f g n same (a + 40) (omega arith) i;
    p_align = u64_at-same f g n same (a + 48) (omega arith) i;
  }

  phdrs_at-same : (k a : ℕ) → a + k * 56 ≤ n → phdrs_at f a k ≡ phdrs_at g a k
  unfolding phdrs_at
  phdrs_at-same zero a l = refl
  phdrs_at-same (suc k) a l =
      ap₂ ◌∷◌ (phdr_at-same a (omega arith)) (phdrs_at-same k (a + 56) (omega arith))

  -- Two buffers that agree on the first `n` bytes, the file, get the same verdict and the same plan.
  pub plan_load-same : IsBytes g → plan_load f n ≡ plan_load g n
  unfolding plan_load
  plan_load-same bytes = elim (Bool-cases (ltb n 64)) [
    | inl short ↦ rw short
    | inr long ↦
        ap (λ e. if ltb n 64 then err truncated else after f e) (ehdr_at-same (ltb→ge n 64 long))
        ∙ ap (λ r. if ltb n 64 then err truncated else r)
            (rest (ehdr_at g) (eh_fits g n bytes).0 (eh_fits g n bytes).1)
  ]
    where
      after : Memory → Ehdr → Result ElfStatus LoadPlan
      after m e = elim (check_header e) [
        | some status ↦ err status
        | none ↦
            if not (table_fits e n)
            then err phdr_bounds
            else (plan_entries n no_plan (phdrs_at m e.e_phoff e.e_phnum) >>= λ plan.
                finish e.e_entry plan)
      ]

      over : Ehdr → List Phdr → Result ElfStatus LoadPlan
      over e table = elim (check_header e) [
        | some status ↦ err status
        | none ↦
            if not (table_fits e n)
            then err phdr_bounds
            else (plan_entries n no_plan table >>= λ plan. finish e.e_entry plan)
      ]

      rest : (e : Ehdr) → e.e_phnum < 2 ^ 16 → e.e_phoff < 2 ^ 64 → after f e ≡ after g e
      rest e num off = elim (Option-cases (check_header e)) [
        | inr (status, bad) ↦ ground (arith, bad)
        | inl fine ↦ elim (Bool-cases (table_fits e n)) [
          | inr outside ↦ ground (arith, fine, outside)
          | inl inside ↦ ap (over e) (
              phdrs_at-same e.e_phnum e.e_phoff
                (check_header-none e n num off fine inside).table_in_file)
        ]
      ]
