-- ===== src/Interrupts/Pic.antt =====
-- kernel/arch/x86_64/pic.c and io.h: the two 8259 controllers, seen through the ports.
use sypas.Base.{
  ℕ, ◌+◌, ◌-◌, ◌%◌, ◌^◌, Bool, true, false, ltb, ◌==◌, if◌then◌else◌, List, ◌∷◌, Option, byte_test,
  byte_clear,
}

-- What the processor does outside of memory. A handler is known by a number; what it does is its own.
pub data Event : Type 0 where
  outb : (port value : ℕ) → Event
  inb : (port : ℕ) → Event
  call : (handler : ℕ) → Event

-- The hardware: the byte that a read of a port gives, after the events so far, the last one first.
abbrev pub Device : Type 0
Device = List Event → ℕ → ℕ

-- `spurious_irqs` of pic.c, `irq_handlers` and `isr_test_hits` of idt.c, and the events so far.
pub record Machine : Type 0 where
  pub events : List Event
  pub spurious_irqs : ℕ
  pub irq_handlers : List (Option ℕ)
  pub isr_test_hits : ℕ

unfoldable pub write : ℕ → ℕ → Machine → Machine
write port value s = record s { events = outb port value ∷ s.events }

-- The byte that is read, and the machine afterwards.
unfoldable pub read : Device → ℕ → Machine → ℕ × Machine
read device port s = (device s.events port, record s { events = inb port ∷ s.events })

unfoldable pub io_wait : Machine → Machine
io_wait s = write 0x80 0 s

unfoldable pub slow_write : ℕ → ℕ → Machine → Machine
slow_write port value s = io_wait (write port value s)

unfoldable pub pic_init : Machine → Machine
pic_init s =
    let started = slow_write 0xa0 0x11 (slow_write 0x20 0x11 s) in
    let vectors = slow_write 0xa1 0x28 (slow_write 0x21 0x20 started) in
    let wired = slow_write 0xa1 0x02 (slow_write 0x21 0x04 vectors) in
    let mode = slow_write 0xa1 0x01 (slow_write 0x21 0x01 wired) in
    write 0xa1 0xff (write 0x21 0xff mode)

unfoldable pub clear_mask : Device → ℕ → ℕ → Machine → Machine
clear_mask device port bit s =
    let (value, s') = read device port s in write port (byte_clear value bit) s'

-- The call of the function itself, for the cascade line 2, takes the first branch.
unfoldable pub pic_unmask : Device → ℕ → Machine → Machine
pic_unmask device irq s =
    if ltb irq 8
    then clear_mask device 0x21 irq s
    else clear_mask device 0x21 2 (clear_mask device 0xa1 (irq - 8) s)

unfoldable pub pic_send_eoi : ℕ → Machine → Machine
pic_send_eoi irq s = write 0x20 0x20 (if ltb irq 8 then s else write 0xa0 0x20 s)

unfoldable pub pic_read_isr : Device → ℕ → Machine → ℕ × Machine
pic_read_isr device cmd_port s = read device cmd_port (write cmd_port 0x0b s)

unfoldable pub count_spurious : Machine → Machine
count_spurious s = record s { spurious_irqs = (s.spurious_irqs + 1) % 2 ^ 64 }

unfoldable pub pic_handle_spurious : Device → ℕ → Machine → Bool × Machine
pic_handle_spurious device irq s =
    let (master, s7) = pic_read_isr device 0x20 s in
    let (slave, s15) = pic_read_isr device 0xa0 s in
    if irq == 7
    then (if byte_test master 7 then (false, s7) else (true, count_spurious s7))
    else if irq == 15
    then (if byte_test slave 7 then (false, s15) else (true, write 0x20 0x20 (count_spurious s15)))
    else (false, s)
