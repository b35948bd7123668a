-- ===== src/Interrupts/Eoi.antt =====
-- kernel/arch/x86_64/idt.c and pic.c: which controllers are told that an interrupt has ended.
use sypas.Base.{
  ℕ, ◌+◌, ◌-◌, ◌%◌, ◌^◌, ◌<◌, ◌≡◌, refl, arith, sym, ap, ◌∙◌, subst, ◌⊎◌, inl, inr, Bool, true,
  false, ltb, ◌==◌, ◌&&◌, if◌then◌else◌, List, [], ◌∷◌, Option, none, some, get_or, byte_test,
  Bool-cases, ok,
}
use sypas.Interrupts.Pic.{
  Event, outb, inb, call, Device, Machine, write, read, pic_send_eoi, pic_read_isr, count_spurious,
  pic_handle_spurious,
}
use sypas.Interrupts.Idt.{run_handler, dispatch_irq, isr_dispatch}

-- How often an end of interrupt was written to a command port.
abbrev pub eois : ℕ → List Event → ℕ
eois port [] = 0
eois port (outb p v ∷ es) = (if p == port && v == 0x20 then 1 else 0) + eois port es
eois port (inb p ∷ es) = eois port es
eois port (call h ∷ es) = eois port es

abbrev pub calls : List Event → ℕ
calls [] = 0
calls (outb p v ∷ es) = calls es
calls (inb p ∷ es) = calls es
calls (call h ∷ es) = 1 + calls es

-- Whether the controller has the interrupt in service; it is asked about the lines 7 and 15 only.
abbrev pub in_service : Device → ℕ → Machine → Bool
in_service device irq s =
    if irq == 7
    then byte_test (device (outb 0x20 0x0b ∷ s.events) 0x20) 7
    else if irq == 15
    then byte_test (device (outb 0xa0 0x0b ∷ s.events) 0xa0) 7
    else true

abbrev pub present : Option ℕ → ℕ
present none = 0
present (some handler) = 1

abbrev pub installed : ℕ → Machine → ℕ
installed irq s = present (get_or s.irq_handlers irq none)

-- What happens for a line, the last event first: the question about the register in service, for the
-- lines 7 and 15; the installed handler; and the end of the interrupt, for the slave before the master.
abbrev pub asked : ℕ → List Event → List Event
asked irq es =
    if irq == 7
    then inb 0x20 ∷ outb 0x20 0x0b ∷ es
    else if irq == 15
    then inb 0xa0 ∷ outb 0xa0 0x0b ∷ es
    else es

abbrev pub handled : Option ℕ → List Event → List Event
handled none es = es
handled (some handler) es = call handler ∷ es

abbrev pub ended : ℕ → List Event → List Event
ended irq es = outb 0x20 0x20 ∷ (if ltb irq 8 then es else outb 0xa0 0x20 ∷ es)

-- A real interrupt: the handler that is installed for the line runs, if there is one, then the
-- controllers that hold the line are told, the master last.
pub record Served (irq : ℕ) (s t : Machine) : Type 0 where
  pub events : t.events ≡ ended irq (handled (get_or s.irq_handlers irq none) (asked irq s.events))
  pub master : eois 0x20 t.events ≡ eois 0x20 s.events + 1
  pub slave : eois 0xa0 t.events ≡ eois 0xa0 s.events + (if ltb irq 8 then 0 else 1)
  pub ran : calls t.events ≡ calls s.events + installed irq s
  pub spurious : t.spurious_irqs ≡ s.spurious_irqs

-- A spurious one: no handler runs, the slave is not told, the master for line 15 only.
pub record Ignored (irq : ℕ) (s t : Machine) : Type 0 where
  pub events :
      t.events ≡ (if irq == 15 then outb 0x20 0x20 ∷ asked irq s.events else asked irq s.events)
  pub master : eois 0x20 t.events ≡ eois 0x20 s.events + (if irq == 15 then 1 else 0)
  pub slave : eois 0xa0 t.events ≡ eois 0xa0 s.events
  pub ran : calls t.events ≡ calls s.events
  pub spurious : t.spurious_irqs ≡ (s.spurious_irqs + 1) % 2 ^ 64

-- Whether the interrupt is spurious, and what the test has done: at most the question about the
-- register in service.
asked-cases :
    (device : Device) (irq : ℕ) (s : Machine)
    → in_service device irq s ≡ true
    → (t : Machine) × (pic_handle_spurious device irq s ≡ (false, t))
      × (eois 0x20 t.events ≡ eois 0x20 s.events)
      × (eois 0xa0 t.events ≡ eois 0xa0 s.events)
      × (calls t.events ≡ calls s.events)
      × (t.irq_handlers ≡ s.irq_handlers)
      × (t.events ≡ asked irq s.events)
      × (t.spurious_irqs ≡ s.spurious_irqs)
unfolding pic_handle_spurious pic_read_isr read write count_spurious
asked-cases device irq s h = elim (Bool-cases (irq == 7)) [
  | inl e ↦ (
    (pic_read_isr device 0x20 s).1,
    ground (arith, e),
    omega arith,
    omega arith,
    refl,
    refl,
    rw e refl,
    refl,
  )
  | inr e ↦ elim (Bool-cases (irq == 15)) [
    | inl e' ↦ (
      (pic_read_isr device 0xa0 s).1,
      ground (arith, e, e'),
      omega arith,
      omega arith,
      refl,
      refl,
      rw (e, e') refl,
      refl,
    )
    | inr e' ↦ (s, ground (arith, e, e'), refl, refl, refl, refl, rw (e, e') refl, refl)
  ]
]

Ignored-cases :
    (device : Device) (irq : ℕ) (s : Machine)
    → in_service device irq s ≡ false
    → (t : Machine) × (pic_handle_spurious device irq s ≡ (true, t)) × Ignored irq s t
unfolding pic_handle_spurious pic_read_isr read write count_spurious
Ignored-cases device irq s h = elim (Bool-cases (irq == 7)) [
  | inl e ↦
      let seven : irq ≡ 7 = ground arith in
      (
        count_spurious (pic_read_isr device 0x20 s).1,
        ground (arith, e),
        record {
          events = rw (e, seven) refl;
          master = ground arith;
          slave = omega arith;
          ran = refl;
          spurious = refl;
        },
      )
  | inr e ↦ elim (Bool-cases (irq == 15)) [
    | inl e' ↦ (
      write 0x20 0x20 (count_spurious (pic_read_isr device 0xa0 s).1),
      ground (arith, e, e'),
      record {
        events = rw (e, e') refl;
        master = ground (arith, e');
        slave = omega arith;
        ran = refl;
        spurious = refl;
      },
    )
    | inr e' ↦ absurd (ground (arith, e, e'))
  ]
]

run_handler-counts :
    (handler : Option ℕ) (s : Machine)
    → (eois 0x20 (run_handler handler s).events ≡ eois 0x20 s.events)
      × (eois 0xa0 (run_handler handler s).events ≡ eois 0xa0 s.events)
      × (calls (run_handler handler s).events ≡ calls s.events + present handler)
      × ((run_handler handler s).spurious_irqs ≡ s.spurious_irqs)
unfolding run_handler
run_handler-counts none s = (refl, refl, omega arith, refl)
run_handler-counts (some handler) s = (refl, refl, omega arith, refl)

dispatch_irq-real :
    (device : Device) (irq : ℕ) (s : Machine) {t : Machine}
    → pic_handle_spurious device irq s ≡ (false, t)
    → dispatch_irq device irq s ≡ pic_send_eoi irq (run_handler (get_or t.irq_handlers irq none) t)
unfolding dispatch_irq
dispatch_irq-real device irq s e = rw (e, dispatch_irq) refl

dispatch_irq-ignored :
    (device : Device) (irq : ℕ) (s : Machine) {t : Machine}
    → pic_handle_spurious device irq s ≡ (true, t)
    → dispatch_irq device irq s ≡ t
unfolding dispatch_irq
dispatch_irq-ignored device irq s e = rw (e, dispatch_irq) refl

pic_send_eoi-counts :
    (irq : ℕ) (s : Machine)
    → (eois 0x20 (pic_send_eoi irq s).events ≡ eois 0x20 s.events + 1)
      × (eois 0xa0 (pic_send_eoi irq s).events ≡ eois 0xa0 s.events + (if ltb irq 8 then 0 else 1))
      × (calls (pic_send_eoi irq s).events ≡ calls s.events)
      × ((pic_send_eoi irq s).spurious_irqs ≡ s.spurious_irqs)
unfolding pic_send_eoi write
pic_send_eoi-counts irq s = elim (Bool-cases (ltb irq 8)) [
  | inl e ↦ rw e (omega arith, omega arith, refl, refl)
  | inr e ↦ rw e (omega arith, omega arith, refl, refl)
]

pic_send_eoi-events : (irq : ℕ) (s : Machine) → (pic_send_eoi irq s).events ≡ ended irq s.events
unfolding pic_send_eoi write
pic_send_eoi-events irq s = elim (Bool-cases (ltb irq 8)) [ inl e ↦ rw e refl | inr e ↦ rw e refl ]

run_handler-events :
    (handler : Option ℕ) (s : Machine) → (run_handler handler s).events ≡ handled handler s.events
unfolding run_handler
run_handler-events none s = refl
run_handler-events (some handler) s = refl

isr_dispatch-irq :
    (device : Device) (irq : ℕ) (s : Machine)
    → irq < 16
    → isr_dispatch device (32 + irq) s ≡ ok (dispatch_irq device irq s)
unfolding isr_dispatch
isr_dispatch-irq device irq s l = let e : 32 + irq - 32 ≡ irq = omega arith in ground (arith, e)

-- For each line of the controllers, at vector 32 to 47, the dispatch returns, and what it has done
-- is exact. For the lines 7 and 15 it first asks the controller whether the line is in service. A
-- line in service has the handler that is installed for it run once, if there is one, then the
-- slave told once if the line is its own, and last the master told once. A line 7 or 15 that is
-- not in service is counted as spurious, runs no handler, and has only the master told, for line
-- 15.
pub isr_dispatch-Served :
    (device : Device) (irq : ℕ) (s : Machine)
    → irq < 16
    → (t : Machine) × (isr_dispatch device (32 + irq) s ≡ ok t)
      × (((in_service device irq s ≡ true) × Served irq s t)
          ⊎ ((in_service device irq s ≡ false) × Ignored irq s t))
isr_dispatch-Served device irq s l = (
  dispatch_irq device irq s,
  isr_dispatch-irq device irq s l,
  elim (Bool-cases (in_service device irq s)) [
    | inl real ↦
        let (t, e, m, sl, c, h, ev, sp) = asked-cases device irq s real in
        let handler : Option ℕ = get_or t.irq_handlers irq none in
        let (m1, sl1, c1, sp1) = run_handler-counts handler t in
        let (m2, sl2, c2, sp2) = pic_send_eoi-counts irq (run_handler handler t) in
        let same : present handler ≡ installed irq s = ap (λ hs. present (get_or hs irq none)) h in
        inl (
          real,
          subst (Served irq s) (sym (dispatch_irq-real device irq s e)) (record {
            events =
                pic_send_eoi-events irq (run_handler handler t)
                ∙ ap (ended irq) (run_handler-events handler t)
                ∙ ap (λ hs. ended irq (handled (get_or hs irq none) t.events)) h
                ∙ ap (λ es. ended irq (handled (get_or s.irq_handlers irq none) es)) ev;
            master = omega (arith, m, m1, m2);
            slave = omega (arith, sl, sl1, sl2);
            ran = omega (arith, c, c1, c2, same);
            spurious = omega (arith, sp, sp1, sp2);
          }),
        )
    | inr spurious ↦
        let (t, e, ignored) = Ignored-cases device irq s spurious in
        inr (spurious, subst (Ignored irq s) (sym (dispatch_irq-ignored device irq s e)) ignored)
  ],
)
