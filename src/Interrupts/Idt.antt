-- ===== src/Interrupts/Idt.antt =====
-- kernel/arch/x86_64/idt.c: the gates and the dispatch of an interrupt.
use sypas.Base.{
  ℕ, zero, suc, ◌+◌, ◌-◌, ◌/◌, ◌%◌, ◌^◌, ltb, ◌==◌, if◌then◌else◌, List, ◌∷◌, Option, none, some,
  Result, ok, err, get_or, set,
}
use sypas.Interrupts.Pic.{Device, call, Machine, pic_handle_spurious, pic_send_eoi}

pub record IdtEntry : Type 0 where
  pub offset_lo : ℕ
  pub selector : ℕ
  pub ist : ℕ
  pub type_attr : ℕ
  pub offset_mid : ℕ
  pub offset_hi : ℕ
  pub zero : ℕ

unfoldable pub gate : ℕ → IdtEntry
gate addr = record {
  offset_lo = addr % 2 ^ 16;
  selector = 0x08;
  ist = 0;
  type_attr = 0x8e;
  offset_mid = addr / 2 ^ 16 % 2 ^ 16;
  offset_hi = addr / 2 ^ 32 % 2 ^ 32;
  zero = 0;
}

unfoldable pub idt_set : ℕ → ℕ → List IdtEntry → List IdtEntry
idt_set vec stub idt = set idt vec (gate stub)

-- The loop over the vectors, the last of them `vec + n - 1`; the stubs are those of isr.S.
unfoldable pub idt_init_from : ℕ → ℕ → (ℕ → ℕ) → List IdtEntry → List IdtEntry
idt_init_from zero vec stubs idt = idt
idt_init_from (suc n) vec stubs idt = idt_init_from n (vec + 1) stubs (idt_set vec (stubs vec) idt)

unfoldable pub idt_init : (ℕ → ℕ) → List IdtEntry → List IdtEntry
idt_init stubs idt = idt_init_from 256 0 stubs idt

unfoldable pub irq_install : ℕ → Option ℕ → Machine → Machine
irq_install irq handler s =
    if ltb irq 16 then record s { irq_handlers = set s.irq_handlers irq handler } else s

-- The two ends in `panic_with_frame`.
pub data IsrPanic : Type 0 where
  exception : (vector : ℕ) → IsrPanic
  unexpected_vector : (vector : ℕ) → IsrPanic

unfoldable pub run_handler : Option ℕ → Machine → Machine
run_handler none s = s
run_handler (some handler) s = record s { events = call handler ∷ s.events }

unfoldable pub dispatch_irq : Device → ℕ → Machine → Machine
dispatch_irq device irq s =
    let (spurious, s') = pic_handle_spurious device irq s in
    if spurious then s' else pic_send_eoi irq (run_handler (get_or s'.irq_handlers irq none) s')

unfoldable pub isr_dispatch : Device → ℕ → Machine → Result IsrPanic Machine
isr_dispatch device vector s =
    if ltb vector 32
    then err (exception vector)
    else if ltb vector 48
    then ok (dispatch_irq device (vector - 32) s)
    else if vector == 240
    then ok (record s { isr_test_hits = (s.isr_test_hits + 1) % 2 ^ 64 })
    else err (unexpected_vector vector)
