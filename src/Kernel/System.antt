-- ===== src/Kernel/System.antt =====
-- kernel/debug/kprintf.c with the two sinks of the kernel, and the panics of kernel/debug/panic.c on
-- the state that `kmain` keeps.
use sypas.Base.{ℕ, ltb, if◌then◌else◌, List, [], ◌∷◌, ◌++◌, length, Result, ok, ◌>>=◌}
use sypas.Interrupts.Pic.{Device, Machine}
use sypas.Interrupts.Idt.{IdtEntry}
use sypas.Console.Cursor.{Console, fbcon_putc, fbcon_set_colors}
use sypas.Kernel.Print.{PrintError, kvprintf, max_sinks}
use sypas.Kernel.Serial.{Uart, serial_putc}
use sypas.Kernel.Gdt.{GdtEntry}
use sypas.Kernel.Panic.{Call}

-- The functions that are registered.
pub data Sink : Type 0 where
  serial framebuffer : Sink

-- The static variables of the kernel but those of pmm.c. The ports' machine is a part of `uart`.
pub record System : Type 0 where
  pub uart : Uart
  pub console : Console
  pub sinks : List Sink
  pub gdt : List GdtEntry
  pub idt : List IdtEntry
  pub ticks : ℕ

-- What is not the kernel's: the ports and the font.
pub record Hardware : Type 0 where
  pub device : Device
  pub font : ℕ → ℕ → ℕ

abbrev pub with_machine : Machine → System → System
with_machine m s = record s { uart = record s.uart { machine = m } }

unfoldable pub register_sink : Sink → System → System
register_sink fn s =
    if ltb (length s.sinks) max_sinks then record s { sinks = s.sinks ++ (fn ∷ []) } else s

unfoldable pub call_sink : Hardware → Sink → ℕ → System → System
call_sink hw serial c s = record s { uart = serial_putc hw.device c s.uart }
call_sink hw framebuffer c s = record s { console = fbcon_putc hw.font c s.console }

unfoldable pub emit_to : Hardware → List Sink → ℕ → System → System
emit_to hw [] c s = s
emit_to hw (fn ∷ fns) c s = emit_to hw fns c (call_sink hw fn c s)

unfoldable pub emit_text : Hardware → List ℕ → System → System
emit_text hw [] s = s
emit_text hw (c ∷ cs) s = emit_text hw cs (emit_to hw s.sinks c s)

unfoldable pub kprintf : Hardware → Call → System → Result PrintError System
kprintf hw (fmt, args) s = do cs ← kvprintf fmt args; ok (emit_text hw cs s)

-- Calls one after another.
unfoldable pub kprintf_all : Hardware → List Call → System → Result PrintError System
kprintf_all hw [] s = ok s
kprintf_all hw (c ∷ calls) s = do t ← kprintf hw c s; kprintf_all hw calls t

-- What `panic` and `panic_with_frame` do before the processor halts, with the calls of the one that is
-- called.
unfoldable pub halt_with : Hardware → List Call → System → Result PrintError System
halt_with hw calls s =
    kprintf_all hw calls (record s { console = fbcon_set_colors 0x00ffb4ab 0x00330a0a s.console })
