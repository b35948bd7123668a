-- ===== src/Kernel/Outcome.antt =====
-- kernel/main.c: how the parts of `kmain` end, by what holds of a result and of a halt.
use sypas.Base.{◌≡◌, refl, ap, ◌∙◌, List, Result, ok, err, ◌>>=◌, All}
use sypas.Console.Inside.{Stays, Stays-refl, Stays-trans}
use sypas.Kernel.Panic.{Call, panic}
use sypas.Kernel.System.{System}
use sypas.Kernel.Prints.{Prints, IsCall, kprintf_all-Prints, halt_with-Prints}
use sypas.Kernel.Main.{BootInput, Reason, Halt, halted, say, stop}

-- A result with the one property, or a halt with the other.
abbrev pub Ends {ℓ} : {A : Type ℓ} → (A → Type 0) → (Halt → Type 0) → Result Halt A → Type 0
Ends Q E (ok a) = Q a
Ends Q E (err h) = E h

pub Ends->>= :
    {A B : Type 0} (P : A → Type 0) (Q : B → Type 0) (E : Halt → Type 0) (m : Result Halt A)
    (f : A → Result Halt B)
    → Ends P E m
    → ((a : A) → P a → Ends Q E (f a))
    → Ends Q E (m >>= f)
Ends->>= P Q E (ok a) f e k = k a e
Ends->>= P Q E (err h) f e k = e

pub Ends-map :
    {A : Type 0} (P Q : A → Type 0) (E : Halt → Type 0) (m : Result Halt A)
    → Ends P E m
    → ((a : A) → P a → Q a)
    → Ends Q E m
Ends-map P Q E (ok a) e k = k a e
Ends-map P Q E (err h) e k = e

pub Ends-weaken :
    {A : Type 0} (Q : A → Type 0) (E F : Halt → Type 0) (m : Result Halt A)
    → Ends Q E m
    → ((h : Halt) → E h → F h)
    → Ends Q F m
Ends-weaken Q E F (ok a) e k = e
Ends-weaken Q E F (err h) e k = k h e

-- A result is the one that is given.
pub Ends_same :
    {A : Type 0} (Q : A → Type 0) (E : Halt → Type 0) (m : Result Halt A)
    → Ends Q E m
    → Ends (λ a. Q a × (m ≡ ok a)) E m
Ends_same Q E (ok a) e = (e, refl)
Ends_same Q E (err h) e = e

-- Nothing has changed but what is printed, the sinks and the events.
pub record Later (s t : System) : Type 0 where
  pub ticks : t.ticks ≡ s.ticks
  pub handlers : t.uart.machine.irq_handlers ≡ s.uart.machine.irq_handlers
  pub hits : t.uart.machine.isr_test_hits ≡ s.uart.machine.isr_test_hits
  pub gdt : t.gdt ≡ s.gdt
  pub idt : t.idt ≡ s.idt
  pub console : Stays s.console t.console

pub Later-refl : (s : System) → Later s s
Later-refl s = record {
  ticks = refl;
  handlers = refl;
  hits = refl;
  gdt = refl;
  idt = refl;
  console = Stays-refl s.console;
}

pub Later-trans : (s t u : System) → Later s t → Later t u → Later s u
Later-trans s t u p q = record {
  ticks = q.ticks ∙ p.ticks;
  handlers = q.handlers ∙ p.handlers;
  hits = q.hits ∙ p.hits;
  gdt = q.gdt ∙ p.gdt;
  idt = q.idt ∙ p.idt;
  console = Stays-trans s.console t.console u.console p.console q.console;
}

Prints-Later : (s t : System) → Prints s t → Later s t
Prints-Later s t p = record {
  ticks = ap (λ (x : System). x.ticks) p.same;
  handlers = ap (λ (x : System). x.uart.machine.irq_handlers) p.same;
  hits = ap (λ (x : System). x.uart.machine.isr_test_hits) p.same;
  gdt = ap (λ (x : System). x.gdt) p.same;
  idt = ap (λ (x : System). x.idt) p.same;
  console = p.console;
}

-- Printing ends.
pub say-Later :
    (E : Halt → Type 0) (x : BootInput) (calls : List Call) (s : System)
    → All IsCall calls
    → Ends (Later s) E (say x calls s)
unfolding say
say-Later E x calls s f =
    let (t, e, p) = kprintf_all-Prints x.hw calls s f in rw (e, Ends) (Prints-Later s t p)

-- A panic halts with its reason, where its message is a call that is printed.
pub stop_ends :
    {A : Type 0} (Q : A → Type 0) (E : Halt → Type 0) (x : BootInput) (reason : Reason) (c : Call)
    (s : System)
    → IsCall c
    → ((t : System) → E (halted reason t))
    → Ends Q E (stop x reason c s)
unfolding stop panic
stop_ends Q E x reason (fmt, args) s f k =
    let (t, e, p) =
      halt_with-Prints x.hw (panic fmt args) s
        ((tt, refl), ((tt, refl), (f, ((tt, refl), ((tt, refl), tt))))) in
    rw (e, Ends) (k t)
