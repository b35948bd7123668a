-- ===== src/Kernel/Sent.antt =====
-- kernel/arch/x86_64/serial.c: what goes over the line, and that the port cannot hang the kernel.
use sypas.Base.{
  ℕ, zero, suc, ◌+◌, ◌*◌, ◌%◌, ◌≤◌, ◌<◌, ◌≡◌, ◌≢◌, refl, arith, sym, ap, ◌∙◌, true, false, ◌==◌,
  if◌then◌else◌, List, [], ◌∷◌, ◌++◌, length, byte_test, All, Bool-cases, ◌⊎◌, inl, inr, subst,
  ==→eq,
}
use mathlib.Core.List.{append_assoc, append-nil}
use sypas.Interrupts.Pic.{Event, outb, inb, call, Device, Machine, write, read}
use sypas.Kernel.Serial.{com1, Uart, serial_init, wait_empty, wait_limit, send, serial_putc}

-- The bytes written to a port, in their order.
abbrev pub on_port : ℕ → List Event → List ℕ
on_port p [] = []
on_port p (outb q v ∷ es) = if q == p then on_port p es ++ (v ∷ []) else on_port p es
on_port p (inb q ∷ es) = on_port p es
on_port p (call handler ∷ es) = on_port p es

-- The characters are sent, after so many events at most; nothing else changes.
pub record Sends (n : ℕ) (s : Machine) (cs : List ℕ) (t : Machine) : Type 0 where
  pub sent : on_port com1 t.events ≡ on_port com1 s.events ++ cs
  pub others : (p : ℕ) → p ≢ com1 → on_port p t.events ≡ on_port p s.events
  pub bounded : length t.events ≤ length s.events + n
  pub same : t ≡ record s { events = t.events }

Sends-trans :
    (n k : ℕ) (s : Machine) (cs : List ℕ) (t : Machine) (ds : List ℕ) (u : Machine)
    → Sends n s cs t
    → Sends k t ds u
    → Sends (n + k) s (cs ++ ds) u
Sends-trans n k s cs t ds u a b = record {
  sent = b.sent ∙ ap (λ x. x ++ ds) a.sent ∙ append_assoc (on_port com1 s.events) cs ds;
  others = λ p ne. b.others p ne ∙ a.others p ne;
  bounded = omega (arith, a.bounded, b.bounded);
  same = b.same ∙ ap (λ (x : Machine). record x { events = u.events }) a.same;
}

nothing-Sends : (s : Machine) → Sends 0 s [] s
nothing-Sends s = record {
  sent = sym (append-nil (on_port com1 s.events));
  others = λ p ne. refl;
  bounded = omega arith;
  same = refl;
}

write-Sends : (c : ℕ) (s : Machine) → Sends 1 s (c ∷ []) (write com1 c s)
unfolding write
write-Sends c s = record {
  sent = refl;
  others = λ p ne. ground (arith, ne);
  bounded = omega arith;
  same = refl;
}

read-Sends : (device : Device) (p : ℕ) (s : Machine) → Sends 1 s [] (read device p s).1
unfolding read
read-Sends device p s = record {
  sent = sym (append-nil (on_port com1 s.events));
  others = λ q ne. refl;
  bounded = omega arith;
  same = refl;
}

Sends-le :
    (n k : ℕ) (s : Machine) (cs : List ℕ) (t : Machine) → n ≤ k → Sends n s cs t → Sends k s cs t
Sends-le n k s cs t l a = record {
  sent = a.sent;
  others = a.others;
  bounded = omega (arith, a.bounded, l);
  same = a.same;
}

wait_empty-Sends : (n : ℕ) (device : Device) (s : Machine) → Sends n s [] (wait_empty n device s)
unfolding wait_empty
wait_empty-Sends zero device s = nothing-Sends s
wait_empty-Sends (suc n) device s =
    let one = read-Sends device (com1 + 5) s in
    let after : Machine = (read device (com1 + 5) s).1 in
    elim (Bool-cases (byte_test (read device (com1 + 5) s).0 5)) [
      | inl e ↦ rw (e, wait_empty) (Sends-le 1 (suc n) s [] after (omega arith) one)
      | inr e ↦
          rw (e, wait_empty)
            (Sends-le (1 + n) (suc n) s [] (wait_empty n device after) (omega arith) (
              Sends-trans 1 n s [] after [] (wait_empty n device after) one
                (wait_empty-Sends n device after)))
    ]

abbrev rounds : ℕ
rounds = wait_limit + 1

send-Sends :
    (device : Device) (c : ℕ) (s : Machine) → c < 256 → Sends rounds s (c ∷ []) (send device c s)
unfolding send
send-Sends device c s l =
    let byte : c % 256 ≡ c = omega (arith, l) in
    rw byte (
      Sends-trans wait_limit 1 s [] (wait_empty wait_limit device s) (c ∷ []) _
        (wait_empty-Sends wait_limit device s) (write-Sends c (wait_empty wait_limit device s)))

pub send_same :
    (device : Device) (c : ℕ) (s : Machine)
    → send device c s ≡ record s { events = (send device c s).events }
unfolding send write
send_same device c s =
    let w : Machine = wait_empty wait_limit device s in
    ap (λ (x : Machine). record x { events = outb com1 (c % 256) ∷ w.events })
      (wait_empty-Sends wait_limit device s).same

putc_cases :
    (device : Device) (c : ℕ) (s : Uart)
    → (serial_putc device c s ≡ s)
      ⊎ (serial_putc device c s ≡ record s { machine = send device c s.machine })
      ⊎ (serial_putc device c s ≡ record s { machine = send device c (send device 13 s.machine) })
unfolding serial_putc
putc_cases device c s = ground arith

events_only :
    (device : Device) (c : ℕ) (s : Uart) (m : Machine)
    → m ≡ record s.machine { events = m.events }
    → serial_putc device c s ≡ record s { machine = m }
    → serial_putc device c s
      ≡ record s { machine = record s.machine { events = (serial_putc device c s).machine.events } }
events_only device c s m e k =
    k
    ∙ ap (λ x. record s { machine = x }) e
    ∙ sym
        (ap (λ (x : Uart). record s { machine = record s.machine { events = x.machine.events } }) k)

-- A character changes the events alone.
pub serial_putc_same :
    (device : Device) (c : ℕ) (s : Uart)
    → serial_putc device c s
      ≡ record s { machine = record s.machine { events = (serial_putc device c s).machine.events } }
serial_putc_same device c s = elim (putc_cases device c s) [
  | inl e ↦ events_only device c s s.machine refl e
  | inr (inl e) ↦ events_only device c s _ (send_same device c s.machine) e
  | inr (inr e) ↦
      let first : Machine = send device 13 s.machine in
      let second : Machine = send device c first in
      events_only device c s second
        (send_same device c first
          ∙ ap (λ (x : Machine). record x { events = second.events })
              (send_same device 13 s.machine))
        e
]

-- The text with a return before each line feed.
abbrev pub crlf : List ℕ → List ℕ
crlf [] = []
crlf (c ∷ cs) = if c == 10 then 13 ∷ 10 ∷ crlf cs else c ∷ crlf cs

-- The loop of `emit_str` where the port is the sink.
abbrev pub put_all : Device → List ℕ → Uart → Uart
put_all device [] s = s
put_all device (c ∷ cs) s = put_all device cs (serial_putc device c s)

putc-Sends :
    (device : Device) (c : ℕ) (s : Uart)
    → c < 256
    → s.present ≡ true
    → ((serial_putc device c s).present ≡ true)
      × Sends (rounds + rounds) s.machine (crlf (c ∷ [])) (serial_putc device c s).machine
unfolding serial_putc
putc-Sends device c s l p = elim (Bool-cases (c == 10)) [
  | inl e ↦
      let back : Machine = send device 13 s.machine in
      rw (p, e)
        (
          refl,
          subst (λ x. Sends (rounds + rounds) s.machine (13 ∷ x ∷ []) (send device c back))
              (==→eq c 10 e)
              (Sends-trans rounds rounds s.machine (13 ∷ []) back (c ∷ []) (send device c back)
                (send-Sends device 13 s.machine (omega arith)) (send-Sends device c back l)),
        )
  | inr e ↦
      rw (p, e)
        (
          refl,
          Sends-le rounds (rounds + rounds) s.machine (c ∷ []) (send device c s.machine)
              (omega arith) (send-Sends device c s.machine l),
        )
]

crlf-cons : (c : ℕ) (cs : List ℕ) → crlf (c ∷ []) ++ crlf cs ≡ crlf (c ∷ cs)
crlf-cons c cs = ground arith

pub put_all-Sends :
    (device : Device) (cs : List ℕ) (s : Uart)
    → All (λ c. c < 256) cs
    → s.present ≡ true
    → ((put_all device cs s).present ≡ true)
      × Sends (200002 * length cs) s.machine (crlf cs) (put_all device cs s).machine
put_all-Sends device [] s l p =
    (p, Sends-le 0 _ s.machine [] s.machine (omega arith) (nothing-Sends s.machine))
put_all-Sends device (c ∷ cs) s (l, ls) p =
    let (p', first) = putc-Sends device c s l p in
    let t : Uart = serial_putc device c s in
    let (p'', rest) = put_all-Sends device cs t ls p' in
    let u : Machine = (put_all device cs t).machine in
    (
      p'',
      subst (λ x. Sends (200002 * length (c ∷ cs)) s.machine x u) (crlf-cons c cs)
          (Sends-le (rounds + rounds + 200002 * length cs) (200002 * length (c ∷ cs)) s.machine _ u
            (omega arith)
            (Sends-trans (rounds + rounds) (200002 * length cs) s.machine (crlf (c ∷ [])) t.machine
              (crlf cs) u first rest)),
    )

putc_absent : (device : Device) (c : ℕ) (s : Uart) → s.present ≡ false → serial_putc device c s ≡ s
unfolding serial_putc
putc_absent device c s p = ground (arith, p)

pub put_all-absent :
    (device : Device) (cs : List ℕ) (s : Uart) → s.present ≡ false → put_all device cs s ≡ s
put_all-absent device [] s p = refl
put_all-absent device (c ∷ cs) s p =
    ap (put_all device cs) (putc_absent device c s p) ∙ put_all-absent device cs s p

pub serial_init_cases :
    (device : Device) (s : Uart)
    → s.present ≡ false
    → (((serial_init device s).0 ≡ true) × ((serial_init device s).1.present ≡ true))
      ⊎ (((serial_init device s).0 ≡ false) × ((serial_init device s).1.present ≡ false))
unfolding serial_init
serial_init_cases device s p = ground arith

pub serial_init-put_all :
    (device : Device) (s : Uart) (cs : List ℕ)
    → s.present ≡ false
    → All (λ c. c < 256) cs
    → (((serial_init device s).0 ≡ true)
        × Sends
            (200002 * length cs)
            (serial_init device s).1.machine
            (crlf cs)
            (put_all device cs (serial_init device s).1).machine)
      ⊎ (((serial_init device s).0 ≡ false)
          × (put_all device cs (serial_init device s).1 ≡ (serial_init device s).1))
serial_init-put_all device s cs p l = elim (serial_init_cases device s p) [
  | inl (e, there) ↦ inl (e, (put_all-Sends device cs (serial_init device s).1 l there).1)
  | inr (e, absent) ↦ inr (e, put_all-absent device cs (serial_init device s).1 absent)
]
