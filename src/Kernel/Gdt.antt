-- ===== src/Kernel/Gdt.antt =====
-- kernel/arch/x86_64/gdt.c: the descriptors, and the segment that the interrupt gates name.
use sypas.Base.{
  ℕ, ◌/◌, ◌%◌, ◌^◌, ◌<◌, ◌≡◌, refl, arith, List, length, set, get_elem?, some, length-set,
  get_elem?-set_self, get_elem?-set_ne, ◌∙◌, subst, sym,
}
use sypas.Interrupts.Idt.{IdtEntry, idt_init}
use sypas.Interrupts.Gates.{target, idt_init-target}

pub record GdtEntry : Type 0 where
  pub limit_lo : ℕ
  pub base_lo : ℕ
  pub base_mid : ℕ
  pub access : ℕ
  pub gran : ℕ
  pub base_hi : ℕ

unfoldable pub gdt_set : ℕ → ℕ → ℕ → List GdtEntry → List GdtEntry
gdt_set i access gran gdt = set gdt i (record {
  limit_lo = 0xffff;
  base_lo = 0;
  base_mid = 0;
  access = access;
  gran = gran;
  base_hi = 0;
})

-- The table of three entries; the instructions that load it are left out.
unfoldable pub gdt_init : List GdtEntry → List GdtEntry
gdt_init gdt = gdt_set 2 0x92 0xc0 (gdt_set 1 0x9a 0xa0 (gdt_set 0 0 0 gdt))

-- A present code segment of ring 0 in 64-bit mode, by the bits of its access and granularity bytes.
pub record IsKernelCode (e : GdtEntry) : Type 0 where
  pub present : e.access / 2 ^ 7 % 2 ≡ 1
  pub ring : e.access / 2 ^ 5 % 4 ≡ 0
  pub segment : e.access / 2 ^ 4 % 2 ≡ 1
  pub code : e.access / 2 ^ 3 % 2 ≡ 1
  pub long : e.gran / 2 ^ 5 % 2 ≡ 1
  pub not_default : e.gran / 2 ^ 6 % 2 ≡ 0

abbrev code : GdtEntry
code = record {
  limit_lo = 0xffff;
  base_lo = 0;
  base_mid = 0;
  access = 0x9a;
  gran = 0xa0;
  base_hi = 0;
}

code-IsKernelCode : IsKernelCode code
code-IsKernelCode = record {
  present = refl;
  ring = refl;
  segment = refl;
  code = refl;
  long = refl;
  not_default = refl;
}

gdt_init-code : (gdt : List GdtEntry) → length gdt ≡ 3 → get_elem? (gdt_init gdt) 1 ≡ some code
unfolding gdt_init gdt_set
gdt_init-code gdt size =
    get_elem?-set_ne (set (gdt_set 0 0 0 gdt) 1 code) {i = 2} {j = 1}
      (record code { access = 0x92; gran = 0xc0 }) (λ e. absurd (omega (arith, e)))
    ∙ get_elem?-set_self (gdt_set 0 0 0 gdt) 1 code
        (omega (arith, size, length-set gdt 0 (record code { access = 0; gran = 0 })))

-- In tables of 256 gates and 3 segments, each vector leads to its stub, at a 64-bit address, in a
-- segment that the table of gdt_init has, as a present code segment of ring 0 in 64-bit mode.
pub idt_init-gdt_init :
    (stubs : ℕ → ℕ) (idt : List IdtEntry) (gdt : List GdtEntry) (vec : ℕ)
    → length idt ≡ 256
    → length gdt ≡ 3
    → vec < 256
    → stubs vec < 2 ^ 64
    → (g : IdtEntry) × (get_elem? (idt_init stubs idt) vec ≡ some g)
      × (target g ≡ stubs vec)
      × ((e : GdtEntry) × (get_elem? (gdt_init gdt) (g.selector / 8) ≡ some e) × IsKernelCode e)
idt_init-gdt_init stubs idt gdt vec size three l word =
    let (g, found, leads, selector, attr) = idt_init-target stubs idt vec size l word in
    (
      g,
      found,
      leads,
      (
        code,
        subst (λ n. get_elem? (gdt_init gdt) (n / 8) ≡ some code) (sym selector)
            (gdt_init-code gdt three),
        code-IsKernelCode,
      ),
    )
