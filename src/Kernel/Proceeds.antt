-- ===== src/Kernel/Proceeds.antt =====
-- kernel/main.c: what `kmain` does with the console, the interrupts and the timer.
use sypas.Base.{
  ℕ, zero, suc, ◌+◌, ◌%◌, ◌^◌, ◌≤◌, ◌<◌, ◌≡◌, refl, arith, ◌∙◌, Bool, true, false, ltb, ◌==◌,
  if◌then◌else◌, Option, none, some, get_or, length, ap, List, [], ◌∷◌, ok, All, sub64, Bool-cases,
  inl, inr,
}
use sypas.BootProto.Info.{BootInfo}
use sypas.Interrupts.Pic.{Machine}
use sypas.Interrupts.Idt.{isr_dispatch, dispatch_irq, run_handler, irq_install}
use sypas.Interrupts.Pic.{pic_handle_spurious, pic_send_eoi, write, read, pic_unmask, clear_mask}
use sypas.Interrupts.Timer.{pit_irq, pit_init, sum, set-get_or}
use sypas.Console.Cursor.{fbcon_init}
use sypas.Console.Inside.{Stays-refl, Stays-trans}
use sypas.Kernel.Kinds.{parsing}
use sypas.Kernel.Prints.{IsCall}
use sypas.Kernel.System.{framebuffer, System, register_sink, with_machine}
use sypas.Kernel.Messages.{framebuffer_line, acpi_line, timer_line}
use sypas.Kernel.Main.{
  BootInput, Halt, waiting, say, framebuffer_of, start_console, test_vector, test_interrupts,
  count_tick, timer_interrupt, timer_interrupts, sleep, start_timer,
}
use sypas.Kernel.Outcome.{Ends, Ends->>=, Ends-map, Later, Later-refl, Later-trans, say-Later}
use sypas.Kernel.Starts.{after, register_sink-Later, IsInfo}

framebuffer_line-IsCall :
    (b : Bool) (bi : BootInfo) → IsInfo bi → All IsCall (framebuffer_line b bi ∷ acpi_line bi ∷ [])
unfolding parsing
framebuffer_line-IsCall true bi i = (
  ((omega (arith, i.width), (omega (arith, i.height), (omega (arith, i.pitch), (tt, tt)))), refl),
  (((tt, (i.rsdp, tt)), refl), tt),
)
framebuffer_line-IsCall false bi i = ((tt, refl), (((tt, (i.rsdp, tt)), refl), tt))

-- The console is what `fbcon_init` gives.
abbrev pub consoled : BootInput → BootInfo → System → System
consoled x bi s = record s { console = (fbcon_init (framebuffer_of x bi) s.console).1 }

pub start_console_ends :
    (E : Halt → Type 0) (x : BootInput) (bi : BootInfo) (s : System)
    → IsInfo bi
    → Ends
        (λ (r : Bool × System).
          (r.0 ≡ (fbcon_init (framebuffer_of x bi) s.console).0) × Later (consoled x bi s) r.1)
        E
        (start_console x bi s)
unfolding start_console
start_console_ends E x bi s i =
    let fb_ok : Bool = (fbcon_init (framebuffer_of x bi) s.console).0 in
    let t : System = consoled x bi s in
    Ends->>= (Later t) _ E _ (λ u. ok (fb_ok, u))
      (after E x (framebuffer_line fb_ok bi ∷ acpi_line bi ∷ []) t
        (if fb_ok then register_sink framebuffer t else t) (registered fb_ok t)
        (framebuffer_line-IsCall fb_ok bi i))
      (λ u p. (refl, p))
  where
    registered : (b : Bool) (t : System) → Later t (if b then register_sink framebuffer t else t)
    registered true t = register_sink-Later framebuffer t
    registered false t = Later-refl t

-- A software interrupt at the private vector is counted.
abbrev pub hit : System → System
hit s =
    with_machine
      (record s.uart.machine { isr_test_hits = (s.uart.machine.isr_test_hits + 1) % 2 ^ 64 }) s

test_vector-hit : (x : BootInput) (s : System) → test_vector x s ≡ ok (hit s)
unfolding test_vector isr_dispatch
test_vector-hit x s = refl

pub test_interrupts_ends :
    (E : Halt → Type 0) (x : BootInput) (s : System)
    → Ends (Later (hit (hit s))) E (test_interrupts x s)
unfolding test_interrupts test_vector isr_dispatch parsing
test_interrupts_ends E x s =
    let both : ((s.uart.machine.isr_test_hits + 1) % 2 ^ 64 + 1) % 2 ^ 64
          == (s.uart.machine.isr_test_hits + 2) % 2 ^ 64
        ≡ true =
      ground arith in
    rw both (say-Later E x _ (hit (hit s)) ((tt, refl), tt))

-- So many timer interrupts later.
abbrev pub ticked : ℕ → System → System
ticked n s = record s { ticks = s.ticks + n }

run_handler_keeps :
    (h : Option ℕ) (m : Machine)
    → ((run_handler h m).irq_handlers ≡ m.irq_handlers)
      × ((run_handler h m).isr_test_hits ≡ m.isr_test_hits)
unfolding run_handler
run_handler_keeps none m = (refl, refl)
run_handler_keeps (some h) m = (refl, refl)

-- The timer's handler is installed.
abbrev pub Timed : BootInput → System → Type 0
Timed x s = get_or s.uart.machine.irq_handlers 0 none ≡ some x.timer

pub Timed-Later :
    (x : BootInput) (n : ℕ) (s t : System) → Timed x s → Later (ticked n s) t → Timed x t
Timed-Later x n s t h p = ap (λ hs. get_or hs 0 none) p.handlers ∙ h

count_tick-timer : (x : BootInput) (n : ℕ) → n + 1 < 2 ^ 64 → count_tick x (some x.timer) n ≡ n + 1
unfolding count_tick pit_irq
count_tick-timer x n l = ground (arith, l)

timer_interrupt_ends :
    (E : Halt → Type 0) (x : BootInput) (s : System)
    → Timed x s
    → s.ticks + 1 < 2 ^ 64
    → Ends (Later (ticked 1 s)) E (timer_interrupt x s)
unfolding timer_interrupt isr_dispatch dispatch_irq pic_handle_spurious pic_send_eoi write
timer_interrupt_ends E x s h l = record {
  ticks = ap (λ o. count_tick x o s.ticks) h ∙ count_tick-timer x s.ticks l;
  handlers = (run_handler_keeps _ s.uart.machine).0;
  hits = (run_handler_keeps _ s.uart.machine).1;
  gdt = refl;
  idt = refl;
  console = Stays-refl s.console;
}

pub ticked_zero : (s : System) → Later (ticked 0 s) s
ticked_zero s = record {
  ticks = omega arith;
  handlers = refl;
  hits = refl;
  gdt = refl;
  idt = refl;
  console = Stays-refl s.console;
}

pub ticked_more :
    (k n m : ℕ) (s t u : System)
    → k + n ≡ m
    → Later (ticked k s) t
    → Later (ticked n t) u
    → Later (ticked m s) u
ticked_more k n m s t u e p q = record {
  ticks = omega (arith, p.ticks, q.ticks, e);
  handlers = q.handlers ∙ p.handlers;
  hits = q.hits ∙ p.hits;
  gdt = q.gdt ∙ p.gdt;
  idt = q.idt ∙ p.idt;
  console = Stays-trans s.console t.console u.console p.console q.console;
}

pub timer_interrupts_ends :
    (E : Halt → Type 0) (k : ℕ) (x : BootInput) (s : System)
    → Timed x s
    → s.ticks + k < 2 ^ 64
    → Ends (Later (ticked k s)) E (timer_interrupts k x s)
unfolding timer_interrupts
timer_interrupts_ends E zero x s h l = ticked_zero s
timer_interrupts_ends E (suc k) x s h l =
    Ends->>= (Later (ticked 1 s)) _ E (timer_interrupt x s) _
      (timer_interrupt_ends E x s h (omega (arith, l)))
      (λ t p.
        Ends-map _ _ E (timer_interrupts k x t)
          (timer_interrupts_ends E k x t (Timed-Later x 1 s t h p) (omega (arith, l, p.ticks)))
          (λ u q. ticked_more 1 k (suc k) s t u (omega arith) p q))

-- The loop ends when the ticks have come to `end`, or goes on only for want of interrupts.
sleep_ends :
    (E : Halt → Type 0) (waits : List ℕ) (end : ℕ) (x : BootInput) (s : System)
    → Timed x s
    → s.ticks + sum waits < 2 ^ 64
    → (s.ticks + sum waits < end → E waiting)
    → Ends
        (λ u. (n : ℕ) × (end ≤ s.ticks + n) × (n ≤ sum waits) × Later (ticked n s) u)
        E
        (sleep waits end x s)
unfolding sleep
sleep_ends E [] end x s h l w = elim (Bool-cases (ltb s.ticks end)) [
  | inl e ↦ rw (e, Ends) (w (ground (arith, e)))
  | inr e ↦ rw (e, Ends) (0, ground (arith, e), omega arith, ticked_zero s)
]
sleep_ends E (k ∷ waits) end x s h l w = elim (Bool-cases (ltb s.ticks end)) [
  | inr e ↦ rw (e, Ends) (0, ground (arith, e), omega arith, ticked_zero s)
  | inl e ↦
      rw (e, Ends)
        (Ends->>= (Later (ticked k s)) _ E (timer_interrupts k x s) _
          (timer_interrupts_ends E k x s h (omega (arith, l)))
          (λ t p.
            Ends-map _ _ E (sleep waits end x t)
              (sleep_ends E waits end x t (Timed-Later x k s t h p) (omega (arith, l, p.ticks))
                (λ m. w (omega (arith, m, p.ticks))))
              (λ u (n, enough, within, q). (
                k + n,
                omega (arith, enough, p.ticks),
                omega (arith, within),
                ticked_more k n (k + n) s t u refl p q,
              ))))
]

-- The timer is set up, and then so many interrupts have come.
abbrev pub timed : BootInput → System → System
timed x s = with_machine (pit_init x.hw.device x.timer s.uart.machine) s

pub timed-Timed :
    (x : BootInput) (s : System) → 0 < length s.uart.machine.irq_handlers → Timed x (timed x s)
unfolding pit_init pic_unmask clear_mask irq_install read write
timed-Timed x s l = set-get_or s.uart.machine.irq_handlers x.timer l

pub start_timer_ends :
    (E : Halt → Type 0) (x : BootInput) (s : System)
    → 0 < length s.uart.machine.irq_handlers
    → s.ticks + sum x.waits + 25 < 2 ^ 64
    → (sum x.waits < 25 → E waiting)
    → Ends (λ u. (n : ℕ) × (25 ≤ n) × Later (ticked n (timed x s)) u) E (start_timer x s)
unfolding start_timer parsing
start_timer_ends E x s some_line l w =
    let t : System = timed x s in
    let end : (s.ticks + 25) % 2 ^ 64 ≡ s.ticks + 25 = omega (arith, l) in
    rw end (
      Ends->>= _ _ E (sleep x.waits (s.ticks + 25) x t) _
        (sleep_ends E x.waits (s.ticks + 25) x t (timed-Timed x s some_line) (omega (arith, l))
          (λ m. w (omega (arith, m))))
        (λ u (n, enough, within, p).
          let delta : sub64 u.ticks t.ticks ≡ n = omega (arith, p.ticks, l, within) in
          let alive : ltb (sub64 u.ticks t.ticks) 25 ≡ false = ground (arith, delta, enough) in
          rw alive (
            Ends-map (Later u) _ E (say x (timer_line (sub64 u.ticks t.ticks) ∷ []) u)
              (say-Later E x _ u (((omega (arith, delta, within, l), tt), refl), tt))
              (λ v q. (n, omega (arith, enough), Later-trans (ticked n t) u v p q)))))
