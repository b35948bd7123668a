-- ===== src/Interrupts/Tests.antt =====
-- kernel/arch/x86_64/pic.c and idt.c: runs, and the theorems at a machine with a timer.
use sypas.Base.{
  ℕ, ◌≤◌, ◌+◌, ◌*◌, ◌≡◌, refl, arith, ◌⊎◌, List, [], ◌∷◌, none, some, replicate, byte_test,
  byte_clear, true, false, ok, err,
}
use sypas.Interrupts.Pic.{
  outb, inb, call, Device, Machine, write, read, io_wait, slow_write, pic_init, clear_mask,
  pic_unmask, pic_send_eoi, pic_read_isr, count_spurious, pic_handle_spurious,
}
use sypas.Interrupts.Idt.{
  IdtEntry, gate, idt_set, idt_init_from, idt_init, irq_install, exception, run_handler,
  dispatch_irq, isr_dispatch,
}
use sypas.Interrupts.Eoi.{in_service, Served, Ignored, isr_dispatch-Served}
use sypas.Interrupts.Timer.{pit_init, timer_ms, sleep_until, sleep_ticks, sleep_ticks-ends}

program : Unit {0}
unfolding byte_test byte_clear write read io_wait slow_write pic_init clear_mask pic_unmask
    pic_send_eoi pic_read_isr count_spurious pic_handle_spurious gate idt_set idt_init_from idt_init
    irq_install run_handler dispatch_irq isr_dispatch
program = tt

-- A device with no line in service.
abbrev idle : Device
idle events port = 0

-- The handler 1 is installed on line 0.
abbrev machine : Machine
machine = record {
  events = [];
  spurious_irqs = 0;
  irq_handlers = some 1 ∷ replicate 15 none;
  isr_test_hits = 0;
}

isr_dispatch_timer :
    isr_dispatch idle 32 machine ≡ ok (record machine { events = outb 0x20 0x20 ∷ call 1 ∷ [] })
unfolding program
isr_dispatch_timer = refl

isr_dispatch_spurious :
    isr_dispatch idle 47 machine
    ≡ ok (record machine {
      events = outb 0x20 0x20 ∷ inb 0xa0 ∷ outb 0xa0 0x0b ∷ [];
      spurious_irqs = 1;
    })
unfolding program
isr_dispatch_spurious = refl

isr_dispatch_fault : isr_dispatch idle 14 machine ≡ err (exception 14)
unfolding program
isr_dispatch_fault = refl

pic_unmask_slave :
    (pic_unmask idle 12 machine).events ≡ outb 0x21 0 ∷ inb 0x21 ∷ outb 0xa1 0 ∷ inb 0xa1 ∷ []
unfolding program
pic_unmask_slave = refl

isr_dispatch-Served_example :
    (t : Machine) × (isr_dispatch idle 39 machine ≡ ok t)
    × (((in_service idle 7 machine ≡ true) × Served 7 machine t)
        ⊎ ((in_service idle 7 machine ≡ false) × Ignored 7 machine t))
isr_dispatch-Served_example = isr_dispatch-Served idle 7 machine (omega arith)

abbrev empty_gate : IdtEntry
empty_gate = record {
  offset_lo = 0;
  selector = 0;
  ist = 0;
  type_attr = 0;
  offset_mid = 0;
  offset_hi = 0;
  zero = 0;
}

abbrev stubs : ℕ → ℕ
stubs vec = 0xffffffff80100000 + 16 * vec

-- The command, 11931 low byte first, and line 0 unmasked.
pit_init_run :
    (pit_init idle 5 machine).events
    ≡ outb 0x21 0 ∷ inb 0x21 ∷ outb 0x40 46 ∷ outb 0x40 155 ∷ outb 0x43 0x34 ∷ []
unfolding program pit_init
pit_init_run = refl

abbrev waits : List ℕ
waits = 1 ∷ 0 ∷ 1 ∷ 2 ∷ 1 ∷ []

sleep_ticks_run :
    (sleep_ticks 3 waits 100 ≡ some 104) × (sleep_ticks 6 waits 100 ≡ none) × (timer_ms 104 ≡ 1040)
unfolding sleep_ticks sleep_until timer_ms
sleep_ticks_run = (refl, refl, refl)

sleep_ticks-ends_example : (t : ℕ) × (sleep_ticks 3 waits 100 ≡ some t) × (100 + 3 ≤ t)
sleep_ticks-ends_example = sleep_ticks-ends 3 waits 100 (omega arith) (omega arith)
