-- ===== src/Kernel/Ending.antt =====
-- kernel/main.c: what `kmain` relies on, and how it may end.
use sypas.Base.{
  ◌⊎◌, false, ℕ, ◌+◌, ◌*◌, ◌/◌, ◌%◌, ◌^◌, ◌≤◌, ◌<◌, ◌≡◌, ◌≢◌, length, get_or, Option, none, some,
  ok, err, u64_max, IsBytes,
}
use sypas.BootProto.{IsMap}
use sypas.BootProto.Info.{BootInfo}
use sypas.Interrupts.Idt.{idt_init}
use sypas.Interrupts.Timer.{sum}
use sypas.Console.Inside.{IsInside}
use sypas.Pmm.State.{Pmm}
use sypas.Pmm.Init.{init}
use sypas.Pmm.Selftest.{exhausted}
use sypas.Kernel.Boot.{check_bootinfo}
use sypas.Kernel.Gdt.{gdt_init}
use sypas.Kernel.System.{System}
use sypas.Kernel.Main.{
  BootInput, boot, memory, selftest_failed, dispatch_failed, not_ticking, Halt, halted, faulted,
  waiting, stuck, undefined, Running,
}
use sypas.Kernel.Starts.{IsInfo}
use sypas.Kernel.Memory.{Tested}

-- What `kmain` relies on: fields and numbers within their widths, a map as the loader makes it, an
-- allocator whose bitmap does not end at the end of memory, and a count of the ticks that does not
-- wrap.
pub record IsInput (x : BootInput) (bi : Option BootInfo) (s : System) : Type 0 where
  pub at : x.at ≤ u64_max
  pub info : (b : BootInfo) → bi ≡ some b → IsInfo b
  pub bytes : IsBytes x.mem
  pub map : IsMap 0 x.map
  pub inside : (p : Pmm) → init x.mem x.map ≡ ok p → p.cursor ≢ p.highest_page
  pub alloc_cycles : x.alloc_cycles ≤ u64_max
  pub free_cycles : x.free_cycles ≤ u64_max
  pub ticks : s.ticks + sum x.waits + 25 < 2 ^ 64
  pub handlers : 0 < length s.uart.machine.irq_handlers

-- The kernel runs: its memory is tested, its gates and descriptors stand, both software interrupts
-- and 25 ticks of the timer are counted, and the console, if there is one, has kept to its
-- framebuffer.
pub record IsRunning (x : BootInput) (bi : Option BootInfo) (s : System) (r : Running)
    : Type 0 where
  pub info : BootInfo
  pub given : bi ≡ some info
  pub tested : Tested x r.pmm
  pub gdt : r.system.gdt ≡ gdt_init s.gdt
  pub idt : r.system.idt ≡ idt_init x.stubs s.idt
  pub hits : r.system.uart.machine.isr_test_hits ≡ (s.uart.machine.isr_test_hits + 2) % 2 ^ 64
  pub handler : get_or r.system.uart.machine.irq_handlers 0 none ≡ some x.timer
  pub ticks : s.ticks + 25 ≤ r.system.ticks
  pub console :
      (r.fb_ok ≡ false)
      ⊎ (IsInside r.system.console
          × ((i : ℕ)
              → info.fb_height * (info.fb_pitch / 4) ≤ i
              → r.system.console.fb i ≡ x.pixels i))

-- What a halt says is so: a panic of the boot checks, of `pmm_init` or of the self-test has its reason,
-- no other panic occurs, and a wait goes on only for want of timer interrupts.
abbrev pub IsTruthful : BootInput → Option BootInfo → Halt → Type 0
IsTruthful x bi (halted (boot b) t) = check_bootinfo bi ≡ err b
IsTruthful x bi (halted (memory why) t) = init x.mem x.map ≡ err why
IsTruthful x bi (halted (selftest_failed failure) t) =
    (p : Pmm) × (init x.mem x.map ≡ ok p)
    × (p.free_pages < 512)
    × (failure ≡ exhausted p.free_pages)
IsTruthful x bi (halted (dispatch_failed hits) t) = ⊥
IsTruthful x bi (halted (not_ticking delta) t) = ⊥
IsTruthful x bi (faulted why) = ⊥
IsTruthful x bi waiting = sum x.waits < 25
IsTruthful x bi stuck = ⊥
IsTruthful x bi (undefined e) = ⊥
