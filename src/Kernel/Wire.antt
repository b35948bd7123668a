-- ===== src/Kernel/Wire.antt =====
-- kernel/debug/kprintf.c and kernel/arch/x86_64/serial.c: what `kprintf` sends over the serial port.
use sypas.Base.{
  ℕ, ◌*◌, ◌<◌, ◌≡◌, refl, sym, subst, ap, ◌∙◌, true, false, List, [], ◌∷◌, length, ok, All, ◌⊎◌,
  inl, inr,
}
use sypas.Kernel.Print.{Argument, kvprintf}
use sypas.Kernel.Serial.{Uart, serial_init, serial_putc}
use sypas.Kernel.Sent.{Sends, crlf, put_all, serial_init-put_all}
use sypas.Kernel.System.{
  System, Hardware, Sink, serial, framebuffer, call_sink, emit_to, emit_text, kprintf,
}

-- The port is the first of the sinks, and only the first.
pub record IsFirst (s : System) (fns : List Sink) : Type 0 where
  pub sinks : s.sinks ≡ serial ∷ fns
  pub others : All (λ fn. fn ≡ framebuffer) fns

-- The other sinks leave the port alone.
emit_to_others :
    (hw : Hardware) (fns : List Sink) (c : ℕ) (s : System)
    → All (λ fn. fn ≡ framebuffer) fns
    → ((emit_to hw fns c s).uart ≡ s.uart) × ((emit_to hw fns c s).sinks ≡ s.sinks)
unfolding emit_to call_sink
emit_to_others hw [] c s o = (refl, refl)
emit_to_others hw (serial ∷ fns) c s (e, o) = absurd (cc)
emit_to_others hw (framebuffer ∷ fns) c s (e, o) = emit_to_others hw fns c _ o

emit_to-IsFirst :
    (hw : Hardware) (fns : List Sink) (c : ℕ) (s : System)
    → IsFirst s fns
    → ((emit_to hw s.sinks c s).uart ≡ serial_putc hw.device c s.uart)
      × IsFirst (emit_to hw s.sinks c s) fns
unfolding emit_to call_sink
emit_to-IsFirst hw fns c s f =
    let (port, same) = emit_to_others hw fns c (call_sink hw serial c s) f.others in
    subst
      (λ l.
        ((emit_to hw l c s).uart ≡ serial_putc hw.device c s.uart) × IsFirst (emit_to hw l c s) fns)
      (sym f.sinks) (port, record { sinks = same ∙ f.sinks; others = f.others })

emit_text-put_all :
    (hw : Hardware) (fns : List Sink) (cs : List ℕ) (s : System)
    → IsFirst s fns
    → (emit_text hw cs s).uart ≡ put_all hw.device cs s.uart
unfolding emit_text
emit_text-put_all hw fns [] s f = refl
emit_text-put_all hw fns (c ∷ cs) s f =
    let (port, g) = emit_to-IsFirst hw fns c s f in
    emit_text-put_all hw fns cs (emit_to hw s.sinks c s) g ∙ ap (put_all hw.device cs) port

-- Where the port has been set up by serial_init for the first time, is the first of the sinks and
-- the others are the framebuffer console, and the format and arguments give a text of bytes,
-- kprintf ends. If serial_init had returned true, then the whole text has been sent over the port,
-- in order and with a return before each line feed, and no other port has been written, whatever
-- the port answers: it is asked at most 100000 times before each byte, so the text takes at most
-- 200002 reads and writes for each character. If serial_init had returned false, then the port is
-- as before.
pub kprintf-Sends :
    (hw : Hardware) (fns : List Sink) (u : Uart) (s : System) (fmt cs : List ℕ)
    (args : List Argument)
    → u.present ≡ false
    → s.uart ≡ (serial_init hw.device u).1
    → IsFirst s fns
    → kvprintf fmt args ≡ ok cs
    → All (λ c. c < 256) cs
    → (t : System) × (kprintf hw (fmt, args) s ≡ ok t)
      × ((((serial_init hw.device u).0 ≡ true)
            × Sends (200002 * length cs) s.uart.machine (crlf cs) t.uart.machine)
          ⊎ (((serial_init hw.device u).0 ≡ false) × (t.uart ≡ s.uart)))
unfolding kprintf
kprintf-Sends hw fns u s fmt cs args off port f e bytes =
    let sent : (emit_text hw cs s).uart ≡ put_all hw.device cs (serial_init hw.device u).1 =
      emit_text-put_all hw fns cs s f ∙ ap (put_all hw.device cs) port in
    (
      emit_text hw cs s,
      rw e refl,
      elim (serial_init-put_all hw.device u cs off bytes) [
        | inl (there, sends) ↦ inl (
          there,
          subst
              (λ (y : Uart).
                Sends (200002 * length cs) y.machine (crlf cs) (emit_text hw cs s).uart.machine)
              (sym port)
              (subst
                (λ (y : Uart).
                  Sends (200002 * length cs) (serial_init hw.device u).1.machine (crlf cs)
                    y.machine)
                (sym sent) sends),
        )
        | inr (absent, same) ↦ inr (absent, sent ∙ same ∙ sym port)
      ],
    )
