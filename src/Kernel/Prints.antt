-- ===== src/Kernel/Prints.antt =====
-- kernel/debug/kprintf.c on the kernel's state: printing changes the events of the ports and the
-- console, and the console stays inside its framebuffer.
use sypas.Base.{ℕ, ◌≡◌, refl, ap, ◌∙◌, List, [], ◌∷◌, ok, All}
use sypas.Interrupts.Pic.{Event, Machine}
use sypas.Console.Cursor.{fbcon_set_colors}
use sypas.Console.Inside.{Stays, Stays-refl, Stays-trans, putc_Stays, fbcon_set_colors-Stays}
use sypas.Kernel.Printed.{IsArgument}
use sypas.Kernel.Kinds.{Fits}
use sypas.Kernel.Formats.{kvprintf-Fits}
use sypas.Kernel.Sent.{serial_putc_same}
use sypas.Kernel.Panic.{Call}
use sypas.Kernel.System.{
  System, Hardware, Sink, serial, framebuffer, call_sink, emit_to, emit_text, kprintf, kprintf_all,
  halt_with,
}

-- The machine but for the events.
abbrev pub with_events : List Event → Machine → Machine
with_events es m = record m { events = es }

pub record Prints (s t : System) : Type 0 where
  pub same : t ≡ record s {
    uart = record s.uart { machine = with_events t.uart.machine.events s.uart.machine };
    console = t.console;
  }
  pub console : Stays s.console t.console

pub Prints-refl : (s : System) → Prints s s
Prints-refl s = record { same = refl; console = Stays-refl s.console }

pub Prints-trans : (s t u : System) → Prints s t → Prints t u → Prints s u
Prints-trans s t u p q = record {
  same =
      q.same
      ∙ ap
          (λ (x : System). record x {
            uart = record x.uart { machine = with_events u.uart.machine.events x.uart.machine };
            console = u.console;
          })
          p.same;
  console = Stays-trans s.console t.console u.console p.console q.console;
}

call_sink-Prints : (hw : Hardware) (fn : Sink) (c : ℕ) (s : System) → Prints s (call_sink hw fn c s)
unfolding call_sink
call_sink-Prints hw serial c s = record {
  same = ap (λ u. record s { uart = u }) (serial_putc_same hw.device c s.uart);
  console = Stays-refl s.console;
}
call_sink-Prints hw framebuffer c s = record {
  same = refl;
  console = putc_Stays hw.font c s.console;
}

emit_to-Prints :
    (hw : Hardware) (fns : List Sink) (c : ℕ) (s : System) → Prints s (emit_to hw fns c s)
unfolding emit_to
emit_to-Prints hw [] c s = Prints-refl s
emit_to-Prints hw (fn ∷ fns) c s =
    Prints-trans s (call_sink hw fn c s) _ (call_sink-Prints hw fn c s)
      (emit_to-Prints hw fns c (call_sink hw fn c s))

emit_text-Prints : (hw : Hardware) (cs : List ℕ) (s : System) → Prints s (emit_text hw cs s)
unfolding emit_text
emit_text-Prints hw [] s = Prints-refl s
emit_text-Prints hw (c ∷ cs) s =
    let t : System = emit_to hw s.sinks c s in
    Prints-trans s t _ (emit_to-Prints hw s.sinks c s) (emit_text-Prints hw cs t)

-- A call whose format asks for what it is given.
abbrev pub IsCall : Call → Type 0
IsCall c = All IsArgument c.1 × Fits c.0 c.1

pub kprintf-Prints :
    (hw : Hardware) (c : Call) (s : System)
    → IsCall c
    → (t : System) × (kprintf hw c s ≡ ok t) × Prints s t
unfolding kprintf
kprintf-Prints hw (fmt, args) s (a, f) =
    let (cs, e) = kvprintf-Fits fmt args a f in
    (emit_text hw cs s, rw e refl, emit_text-Prints hw cs s)

pub kprintf_all-Prints :
    (hw : Hardware) (calls : List Call) (s : System)
    → All IsCall calls
    → (t : System) × (kprintf_all hw calls s ≡ ok t) × Prints s t
unfolding kprintf_all
kprintf_all-Prints hw [] s f = (s, refl, Prints-refl s)
kprintf_all-Prints hw (c ∷ calls) s (f, fs) =
    let (t, e, p) = kprintf-Prints hw c s f in
    let (u, e', q) = kprintf_all-Prints hw calls t fs in
    (u, rw (e, kprintf_all) e', Prints-trans s t u p q)

pub halt_with-Prints :
    (hw : Hardware) (calls : List Call) (s : System)
    → All IsCall calls
    → (t : System) × (halt_with hw calls s ≡ ok t) × Prints s t
unfolding halt_with
halt_with-Prints hw calls s f =
    let coloured : System = record s {
      console = fbcon_set_colors 0x00ffb4ab 0x00330a0a s.console;
    } in
    let (t, e, p) = kprintf_all-Prints hw calls coloured f in
    (
      t,
      e,
      Prints-trans s coloured t
          (record { same = refl; console = fbcon_set_colors-Stays 0x00ffb4ab 0x00330a0a s.console })
          p,
    )
