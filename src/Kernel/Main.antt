-- ===== src/Kernel/Main.antt =====
-- kernel/main.c: `kmain`, one function for each part of it.
use sypas.Base.{
  ℕ, zero, suc, ◌+◌, ◌*◌, ◌%◌, ◌^◌, Bool, true, false, not, ltb, leb, ◌==◌, if◌then◌else◌, List, [],
  ◌∷◌, Option, none, some, get_or, Result, ok, err, ◌>>=◌, Memory, sub64,
}
use sypas.BootProto.{MemmapEntry}
use sypas.BootProto.Info.{BootInfo}
use sypas.Interrupts.Pic.{pic_init}
use sypas.Interrupts.Idt.{IsrPanic, idt_init, isr_dispatch}
use sypas.Interrupts.Timer.{pit_irq, pit_init, timer_ms}
use sypas.Console.Cursor.{Framebuffer, fbcon_init}
use sypas.Pmm.State.{Pmm}
use sypas.Pmm.Free.{Panic}
use sypas.Pmm.Init.{init, get_stats}
use sypas.Pmm.Selftest.{Failure, panicked, endless, selftest}
use sypas.Kernel.Print.{PrintError, word}
use sypas.Kernel.Boot.{BootPanic, check_bootinfo}
use sypas.Kernel.Serial.{serial_init}
use sypas.Kernel.Cpu.{Registers, cpu_identify}
use sypas.Kernel.Gdt.{gdt_init}
use sypas.Kernel.Panic.{Call, line, panic}
use sypas.Kernel.System.{
  serial, framebuffer, System, Hardware, with_machine, register_sink, kprintf_all, halt_with,
}
use sypas.Kernel.Messages.{
  greeting, boot_message, boot_lines, cpu_lines, memory_lines, usable_sum, stats_line, pmm_message,
  failure_lines, selftest_line, framebuffer_line, acpi_line, timer_line, banner, uptime_line,
}

-- What `kmain` finds: the hardware, the answers of CPUID, the stubs of isr.S, the memory, the entries
-- at `bi->memmap` and the pixels at `bi->fb_base`, the version it was built as, the address of the
-- structure, the number that stands for the timer's handler, and the cycles the self-test takes.
-- `waits` says how many timer interrupts there are from one test of `ticks` to the next.
pub record BootInput : Type 0 where
  pub hw : Hardware
  pub cpuid : ℕ → Registers
  pub stubs : ℕ → ℕ
  pub mem : Memory
  pub map : List MemmapEntry
  pub pixels : Memory
  pub version : List ℕ
  pub at : ℕ
  pub timer : ℕ
  pub alloc_cycles : ℕ
  pub free_cycles : ℕ
  pub waits : List ℕ

-- The panics of `kmain` and of what it calls.
pub data Reason : Type 0 where
  boot : BootPanic → Reason
  memory : Panic → Reason
  selftest_failed : Failure → Reason
  dispatch_failed : (hits : ℕ) → Reason
  not_ticking : (delta : ℕ) → Reason

-- How it ends before the idle loop: a panic, with the state when it halts; a panic of `isr_dispatch`;
-- a wait that still goes on, or a loop that does not end; a call of `kprintf` that C leaves open.
pub data Halt : Type 0 where
  halted : Reason → System → Halt
  faulted : IsrPanic → Halt
  waiting stuck : Halt
  undefined : PrintError → Halt

unfoldable pub say : BootInput → List Call → System → Result Halt System
say x calls s = elim (kprintf_all x.hw calls s) [ err e ↦ err (undefined e) | ok t ↦ ok t ]

unfoldable pub stop {ℓ} : {A : Type ℓ} → BootInput → Reason → Call → System → Result Halt A
stop x reason (fmt, args) s = elim (halt_with x.hw (panic fmt args) s) [
  | err e ↦ err (undefined e)
  | ok t ↦ err (halted reason t)
]

unfoldable pub greet : BootInput → System → Result Halt System
greet x s =
    let (serial_ok, uart) = serial_init x.hw.device s.uart in
    say x (greeting x.version serial_ok) (register_sink serial (record s { uart = uart }))

unfoldable pub check_boot : BootInput → Option BootInfo → System → Result Halt (BootInfo × System)
check_boot x bi s = elim (check_bootinfo bi) [
  | err b ↦ stop x (boot b) (boot_message b) s
  | ok b ↦ (do t ← say x (boot_lines x.at b) s; ok (b, t))
]

-- The descriptor tables and the interrupt controllers.
unfoldable pub set_tables : BootInput → System → Result Halt System
set_tables x s = do
  t ←
      say x (line "[gdt ] kernel GDT loaded (ring0 code/data), segments reloaded\n" [] ∷ [])
        (record s { gdt = gdt_init s.gdt })
  u ←
      say x
        (line "[idt ] 256-entry IDT: 32 exceptions, 16 IRQs, private test gate, defaults armed\n" []
          ∷ [])
        (record t { idt = idt_init x.stubs t.idt })
  say x (line "[pic ] 8259 remapped to vectors 32-47, all IRQs masked\n" [] ∷ [])
      (with_machine (pic_init u.uart.machine) u)

-- A self-test that returns false, or does not return.
unfoldable pub fail_test {ℓ} : {A : Type ℓ} → BootInput → Failure → System → Result Halt A
fail_test x (panicked why) s = stop x (memory why) (pmm_message why) s
fail_test x endless s = err stuck
fail_test x failure s = do
  t ← say x (failure_lines failure) s
  stop x (selftest_failed failure) (line "pmm: self-test failed" []) t

-- The self-test with what it prints.
unfoldable pub test_memory : BootInput → Pmm → System → Result Halt (Pmm × System)
test_memory x p s = elim (selftest p) [
  | err failure ↦ fail_test x failure s
  | ok q ↦ (do t ← say x (selftest_line x.alloc_cycles x.free_cycles ∷ []) s; ok (q, t))
]

unfoldable pub start_memory : BootInput → BootInfo → System → Result Halt (Pmm × System)
start_memory x bi s = do
  t ← say x (memory_lines bi x.map) s
  elim (init x.mem x.map) [
    | err why ↦ stop x (memory why) (pmm_message why) t
    | ok p ↦ (do u ← say x (stats_line (get_stats p) ∷ []) t; test_memory x p u)
  ]

abbrev pub framebuffer_of : BootInput → BootInfo → Framebuffer
framebuffer_of x bi = record {
  fb_base = bi.fb_base;
  fb_width = bi.fb_width;
  fb_height = bi.fb_height;
  fb_pitch = bi.fb_pitch;
  fb_format = bi.fb_format;
  pixels = x.pixels;
}

-- The returned Boolean is `fb_ok`.
unfoldable pub start_console : BootInput → BootInfo → System → Result Halt (Bool × System)
start_console x bi s =
    let (fb_ok, console) = fbcon_init (framebuffer_of x bi) s.console in
    let t = record s { console = console } in
    do
      u ←
          say x (framebuffer_line fb_ok bi ∷ acpi_line bi ∷ [])
            (if fb_ok then register_sink framebuffer t else t)
      ok (fb_ok, u)

-- `int $0xF0`
unfoldable pub test_vector : BootInput → System → Result Halt System
test_vector x s = elim (isr_dispatch x.hw.device 240 s.uart.machine) [
  | err why ↦ err (faulted why)
  | ok m ↦ ok (with_machine m s)
]

unfoldable pub test_interrupts : BootInput → System → Result Halt System
test_interrupts x s = do
  t ← test_vector x s
  u ← test_vector x t
  if not (u.uart.machine.isr_test_hits == (s.uart.machine.isr_test_hits + 2) % 2 ^ 64)
      then stop x (dispatch_failed u.uart.machine.isr_test_hits)
          (line "idt: software interrupt dispatch failed (%lu hits)"
            (word u.uart.machine.isr_test_hits ∷ []))
          u
      else say x
          (line "[int ] software interrupt dispatch verified (private vector 0xF0 x2)\n" [] ∷ []) u

-- What the handler of line 0 does to the ticks: the timer's counts.
unfoldable pub count_tick : BootInput → Option ℕ → ℕ → ℕ
count_tick x none ticks = ticks
count_tick x (some handler) ticks = if handler == x.timer then pit_irq ticks else ticks

-- A timer interrupt. Line 0 is never spurious, so its handler runs, if one is installed.
unfoldable pub timer_interrupt : BootInput → System → Result Halt System
timer_interrupt x s = elim (isr_dispatch x.hw.device 32 s.uart.machine) [
  | err why ↦ err (faulted why)
  | ok m ↦ ok (record (with_machine m s) {
    ticks = count_tick x (get_or s.uart.machine.irq_handlers 0 none) s.ticks;
  })
]

unfoldable pub timer_interrupts : ℕ → BootInput → System → Result Halt System
timer_interrupts zero x s = ok s
timer_interrupts (suc k) x s = do t ← timer_interrupt x s; timer_interrupts k x t

-- The loop of `sleep_ticks`, with the interrupts of each round.
unfoldable pub sleep : List ℕ → ℕ → BootInput → System → Result Halt System
sleep [] end x s = if ltb s.ticks end then err waiting else ok s
sleep (k ∷ waits) end x s = elim (ltb s.ticks end) [
  | false ↦ ok s
  | true ↦ (do t ← timer_interrupts k x s; sleep waits end x t)
]

unfoldable pub start_timer : BootInput → System → Result Halt System
start_timer x s =
    let t = with_machine (pit_init x.hw.device x.timer s.uart.machine) s in
    do
      u ← sleep x.waits ((t.ticks + 25) % 2 ^ 64) x t
      if ltb (sub64 u.ticks t.ticks) 25
          then stop x (not_ticking (sub64 u.ticks t.ticks))
              (line "pit: timer not ticking (delta=%lu)" (word (sub64 u.ticks t.ticks) ∷ [])) u
          else say x (timer_line (sub64 u.ticks t.ticks) ∷ []) u

-- The kernel when it is running, before the idle loop.
pub record Running : Type 0 where
  pub system : System
  pub pmm : Pmm
  pub fb_ok : Bool

-- From the framebuffer console on.
unfoldable pub proceed : BootInput → BootInfo → Pmm → System → Result Halt Running
proceed x bi p s0 = do
  (fb_ok, s1) ← start_console x bi s0
  s2 ← test_interrupts x s1
  s3 ← start_timer x s2
  s4 ← say x (banner (cpu_identify x.cpuid) (usable_sum 0 x.map) fb_ok (timer_ms s3.ticks)) s3
  ok (record { system = s4; pmm = p; fb_ok = fb_ok })

unfoldable pub kmain : BootInput → Option BootInfo → System → Result Halt Running
kmain x bi s0 = do
  s1 ← greet x s0
  (b, s2) ← check_boot x bi s1
  s3 ← say x (cpu_lines (cpu_identify x.cpuid)) s2
  s4 ← set_tables x s3
  (p, s5) ← start_memory x b s4
  proceed x b p s5

-- A round of the idle loop: so many timer interrupts while the processor halts, then the heartbeat
-- when it is due; with it `last_beat` is the count of the ticks.
unfoldable pub idle_round : BootInput → Pmm → ℕ → ℕ → System → Result Halt (ℕ × System)
idle_round x p k last_beat s = do
  t ← timer_interrupts k x s
  if leb (10 * 100) (sub64 t.ticks last_beat)
      then (do u ← say x (uptime_line t.ticks p ∷ []) t; ok (t.ticks, u))
      else ok (last_beat, t)

-- The endless loop, for the rounds that are given: how many interrupts come in each.
unfoldable pub idle : List ℕ → BootInput → Pmm → ℕ → System → Result Halt (ℕ × System)
idle [] x p last_beat s = ok (last_beat, s)
idle (k ∷ ks) x p last_beat s = do (beat, t) ← idle_round x p k last_beat s; idle ks x p beat t
