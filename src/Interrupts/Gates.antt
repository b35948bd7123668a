-- ===== src/Interrupts/Gates.antt =====
-- kernel/arch/x86_64/idt.c: every vector has a gate, and a gate leads to its stub.
use sypas.Base.{
  ℕ, zero, suc, ◌+◌, ◌*◌, ◌^◌, ◌<◌, ◌≡◌, ◌∙◌, refl, arith, List, some, length, get_elem?, set,
  length-set, subst, get_elem?-set_self, get_elem?-set_ne,
}
use sypas.Interrupts.Idt.{IdtEntry, gate, idt_set, idt_init_from, idt_init}

-- The address that the processor puts together from a gate.
abbrev pub target : IdtEntry → ℕ
target e = e.offset_lo + e.offset_mid * 2 ^ 16 + e.offset_hi * 2 ^ 32

idt_init_from-below :
    (n vec : ℕ) (stubs : ℕ → ℕ) (idt : List IdtEntry) (i : ℕ)
    → i < vec
    → get_elem? (idt_init_from n vec stubs idt) i ≡ get_elem? idt i
unfolding idt_init_from idt_set
idt_init_from-below zero vec stubs idt i l = refl
idt_init_from-below (suc n) vec stubs idt i l =
    idt_init_from-below n (vec + 1) stubs (set idt vec (gate (stubs vec))) i (omega arith)
    ∙ get_elem?-set_ne idt (gate (stubs vec)) (λ e. absurd (omega (arith, e)))

idt_init_from-gate :
    (n vec : ℕ) (stubs : ℕ → ℕ) (idt : List IdtEntry) (k : ℕ)
    → k < n
    → vec + k < length idt
    → get_elem? (idt_init_from n vec stubs idt) (vec + k) ≡ some (gate (stubs (vec + k)))
unfolding idt_init_from idt_set
idt_init_from-gate zero vec stubs idt k l r = absurd (omega arith)
idt_init_from-gate (suc n) vec stubs idt zero l r =
    let e : vec + 0 ≡ vec = omega arith in
    rw e (
      idt_init_from-below n (vec + 1) stubs (set idt vec (gate (stubs vec))) vec (omega arith)
      ∙ get_elem?-set_self idt vec (gate (stubs vec)) (omega arith))
idt_init_from-gate (suc n) vec stubs idt (suc k) l r =
    let e : vec + suc k ≡ vec + 1 + k = omega arith in
    let keeps = length-set idt vec (gate (stubs vec)) in
    rw e (
      idt_init_from-gate n (vec + 1) stubs (set idt vec (gate (stubs vec))) k (omega arith)
        (omega (arith, keeps)))

gate-target : (addr : ℕ) → addr < 2 ^ 64 → target (gate addr) ≡ addr
unfolding gate
gate-target addr l = omega arith

-- In a table of 256 entries each vector gets a present interrupt gate of the kernel's code segment,
-- whose parts give back the address of the vector's stub.
pub idt_init-target :
    (stubs : ℕ → ℕ) (idt : List IdtEntry) (vec : ℕ)
    → length idt ≡ 256
    → vec < 256
    → stubs vec < 2 ^ 64
    → (e : IdtEntry) × (get_elem? (idt_init stubs idt) vec ≡ some e)
      × (target e ≡ stubs vec)
      × (e.selector ≡ 0x08)
      × (e.type_attr ≡ 0x8e)
unfolding idt_init gate
idt_init-target stubs idt vec size l word = (
  gate (stubs vec),
  subst (λ v. get_elem? (idt_init_from 256 0 stubs idt) v ≡ some (gate (stubs v))) (start vec)
      (idt_init_from-gate 256 0 stubs idt vec l (omega (arith, size))),
  gate-target (stubs vec) word,
  refl,
  refl,
)
  where
    start : (v : ℕ) → 0 + v ≡ v
    start v = omega arith
