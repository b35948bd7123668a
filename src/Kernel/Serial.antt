-- ===== src/Kernel/Serial.antt =====
-- kernel/arch/x86_64/serial.c: the serial port COM1, seen through its registers.
use sypas.Base.{ℕ, zero, suc, ◌+◌, ◌%◌, Bool, true, false, not, ◌==◌, if◌then◌else◌, byte_test}
use sypas.Interrupts.Pic.{Device, Machine, write, read}

abbrev pub com1 : ℕ
com1 = 0x3f8

-- `present`, and the machine whose ports it uses.
pub record Uart : Type 0 where
  pub present : Bool
  pub machine : Machine

-- The writes from the probe to the one that is read back.
unfoldable pub set_up : Machine → Machine
set_up s =
    let divisor = write com1 0x01 (write (com1 + 3) 0x80 (write (com1 + 1) 0x00 s)) in
    let line = write (com1 + 3) 0x03 (write (com1 + 1) 0x00 divisor) in
    write com1 0xa5 (write (com1 + 4) 0x1e (write (com1 + 2) 0xc7 line))

-- The return value, and the state.
unfoldable pub serial_init : Device → Uart → Bool × Uart
serial_init device s =
    let (scratch, probed) = read device (com1 + 7) (write (com1 + 7) 0x5a s.machine) in
    let (looped, tested) = read device com1 (set_up probed) in
    if not (scratch == 0x5a)
    then (false, record s { machine = probed })
    else if not (looped == 0xa5)
    then (false, record s { machine = tested })
    else (true, record { present = true; machine = write (com1 + 4) 0x0f tested })

-- The loop that waits, with its rounds left.
unfoldable pub wait_empty : ℕ → Device → Machine → Machine
wait_empty zero device s = s
wait_empty (suc n) device s = elim (byte_test (read device (com1 + 5) s).0 5) [
  | true ↦ (read device (com1 + 5) s).1
  | false ↦ wait_empty n device (read device (com1 + 5) s).1
]

abbrev pub wait_limit : ℕ
wait_limit = 100000

-- A character is one of 256.
unfoldable pub send : Device → ℕ → Machine → Machine
send device c s = write com1 (c % 256) (wait_empty wait_limit device s)

-- The call of the function itself, for the return before a line feed, takes no line feed.
unfoldable pub serial_putc : Device → ℕ → Uart → Uart
serial_putc device c s = if not s.present then s else record s {
  machine = send device c (if c == 10 then send device 13 s.machine else s.machine);
}
