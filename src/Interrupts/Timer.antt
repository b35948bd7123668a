-- ===== src/Interrupts/Timer.antt =====
-- kernel/arch/x86_64/pit.c: the timer.
use sypas.Base.{
  ℕ, ◌+◌, ◌*◌, ◌/◌, ◌%◌, ◌^◌, ◌≤◌, ◌<◌, ◌≡◌, refl, arith, ltb, if◌then◌else◌, List, [], ◌∷◌, length,
  set, get_or, Option, none, some, Bool-cases, inl, inr,
}
use sypas.Interrupts.Pic.{Device, Machine, write, pic_unmask}
use sypas.Interrupts.Idt.{irq_install}

-- `ticks` is a number of 64 bits.
unfoldable pub pit_irq : ℕ → ℕ
pit_irq ticks = (ticks + 1) % 2 ^ 64

-- PIT_INPUT_HZ / PIT_HZ, in 16 bits
abbrev pub divisor : ℕ
divisor = 1193182 / 100 % 2 ^ 16

-- The handler is known by its number.
unfoldable pub pit_init : Device → ℕ → Machine → Machine
pit_init device handler s =
    let set_up = write 0x40 (divisor / 2 ^ 8) (write 0x40 (divisor % 2 ^ 8) (write 0x43 0x34 s)) in
    pic_unmask device 0 (irq_install 0 (some handler) set_up)

unfoldable pub timer_ms : ℕ → ℕ
timer_ms ticks = (ticks * (1000 / 100)) % 2 ^ 64

-- The loop over its rounds: `waits` says how many timer interrupts there are from one test of `ticks`
-- to the next. `none` is that it still waits.
unfoldable pub sleep_until : List ℕ → ℕ → ℕ → Option ℕ
sleep_until [] end ticks = if ltb ticks end then none else some ticks
sleep_until (k ∷ waits) end ticks =
    let rest = sleep_until waits end ((ticks + k) % 2 ^ 64) in
    if ltb ticks end then rest else some ticks

unfoldable pub sleep_ticks : ℕ → List ℕ → ℕ → Option ℕ
sleep_ticks n waits ticks = sleep_until waits ((ticks + n) % 2 ^ 64) ticks

abbrev pub sum : List ℕ → ℕ
sum [] = 0
sum (k ∷ ks) = k + sum ks

sleep_until-ends :
    (waits : List ℕ) (end ticks : ℕ)
    → ticks + sum waits < 2 ^ 64
    → end ≤ ticks + sum waits
    → (t : ℕ) × (sleep_until waits end ticks ≡ some t) × (end ≤ t)
unfolding sleep_until
sleep_until-ends [] end ticks fits enough = (ticks, ground arith, omega arith)
sleep_until-ends (k ∷ waits) end ticks fits enough = elim (Bool-cases (ltb ticks end)) [
  | inl e ↦
      let whole : (ticks + k) % 2 ^ 64 ≡ ticks + k = omega (arith, fits) in
      let (t, r, l) =
        sleep_until-ends waits end ((ticks + k) % 2 ^ 64) (omega (arith, fits, whole))
          (omega (arith, enough, whole)) in
      (t, rw e r, l)
  | inr e ↦ (ticks, rw e refl, ground arith)
]

-- If the count of the ticks does not wrap, a wait ends once there have been so many timer
-- interrupts, with a count that is at least so many higher.
pub sleep_ticks-ends :
    (n : ℕ) (waits : List ℕ) (ticks : ℕ)
    → ticks + sum waits < 2 ^ 64
    → n ≤ sum waits
    → (t : ℕ) × (sleep_ticks n waits ticks ≡ some t) × (ticks + n ≤ t)
unfolding sleep_ticks
sleep_ticks-ends n waits ticks fits enough =
    let whole : (ticks + n) % 2 ^ 64 ≡ ticks + n = omega (arith, fits, enough) in
    rw whole (sleep_until-ends waits (ticks + n) ticks fits (omega (arith, enough)))

pub set-get_or :
    (hs : List (Option ℕ)) (handler : ℕ)
    → 0 < length hs
    → get_or (set hs 0 (some handler)) 0 none ≡ some handler
set-get_or [] handler l = absurd (omega arith)
set-get_or (h ∷ hs) handler l = refl
