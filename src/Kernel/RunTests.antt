-- ===== src/Kernel/RunTests.antt =====
-- kernel/main.c, kernel/debug/panic.c: the theorems on whole runs of the kernel, at a machine with 4
-- MiB of memory.
use sypas.Base.{
  ok-injective, ℕ, ◌+◌, ◌*◌, ◌≡◌, ◌≢◌, refl, arith, ap, sym, false, ◌==◌, if◌then◌else◌, List, [],
  ◌∷◌, replicate, none, some, Result, subst, ok, err, Memory, codes,
}
use mathlib.Core.Option.{some-injective}
use sypas.BootProto.{MemmapEntry}
use sypas.BootProto.Info.{BootInfo, boot_magic}
use sypas.Interrupts.Pic.{Device}
use sypas.Interrupts.Timer.{sum}
use sypas.Pmm.State.{Pmm}
use sypas.Pmm.Init.{init, init_at, totals, total_entry, place, place_in}
use sypas.Kernel.Print.{Argument, word, text, kvprintf}
use sypas.Kernel.Kinds.{parsing, Fits}
use sypas.Kernel.Formats.{kvprintf-Fits}
use sypas.Kernel.Panic.{InterruptFrame, ControlRegisters}
use sypas.Kernel.System.{System, Hardware, halt_with}
use sypas.Kernel.Prints.{Prints}
use sypas.Base.{◌++◌, byte_test}
use sypas.Kernel.Sent.{on_port, crlf}
use sypas.Interrupts.Pic.{read, write}
use sypas.Kernel.Boot.{check_bootinfo}
use sypas.Kernel.Serial.{set_up, serial_init, wait_empty, send, serial_putc}
use sypas.Kernel.System.{register_sink, call_sink, emit_to, emit_text, kprintf, kprintf_all}
use sypas.Kernel.Panic.{panic}
use sypas.Console.Cursor.{fbcon_set_colors}
use sypas.Kernel.Print.{
  digit, digits_from, repeat, emit_uint, next_word, next_text, read_zero, read_width, read_longs,
  read_spec, signed, convert, print_from,
}
use sypas.Kernel.Main.{BootInput, kmain, idle, Halt, halted, Running, say, stop, greet, check_boot}
use sypas.Kernel.Outcome.{Ends}
use sypas.Kernel.Starts.{IsInfo}
use sypas.Kernel.Ending.{IsInput, IsRunning, IsTruthful}
use sypas.Kernel.Runs.{kmain_ends}
use sypas.Kernel.Proceeds.{timed, timed-Timed}
use sypas.Kernel.Idle.{Course, Beats, Never, idle-Beats}

program : Unit {0}
unfolding read write check_bootinfo set_up serial_init wait_empty send serial_putc register_sink
    call_sink emit_to emit_text kprintf kprintf_all halt_with panic fbcon_set_colors kvprintf digit
    digits_from repeat emit_uint next_word next_text read_zero read_width read_longs read_spec
    signed convert print_from say stop greet check_boot kmain byte_test
program = tt

abbrev page_at : List ℕ
page_at = codes "%s at %016lx\n"

abbrev page_arguments : List Argument
page_arguments = text (some (codes "page")) ∷ word 0xbeef ∷ []

page_at-Fits : Fits page_at page_arguments
unfolding parsing
page_at-Fits = refl

kvprintf-Fits_example : (cs : List ℕ) × (kvprintf page_at page_arguments ≡ ok cs)
kvprintf-Fits_example = kvprintf-Fits page_at page_arguments (tt, (omega arith, tt)) page_at-Fits

abbrev zeros : Memory
zeros a = 0

-- Both probes of the serial port are given back, and it is ready at once.
abbrev working : Device
working es p = if p == 0x3ff then 0x5a else if p == 0x3f8 then 0xa5 else 0x20

abbrev hardware : Hardware
hardware = record { device = working; font = λ ch gy. 0 }

abbrev powered_on : System
powered_on = record {
  uart = record {
    present = false;
    machine = record {
      events = [];
      spurious_irqs = 0;
      irq_handlers = replicate 16 none;
      isr_test_hits = 0;
    };
  };
  console = record {
    fb = zeros;
    fb_width = 0;
    fb_height = 0;
    fb_pitch32 = 0;
    fb_format = 0;
    cols = 0;
    rows = 0;
    cur_col = 0;
    cur_row = 0;
    fg = 0xd7dde5;
    bg = 0x10141b;
    ready = false;
  };
  sinks = [];
  gdt = [];
  idt = [];
  ticks = 0;
}

abbrev four_mib : List MemmapEntry
four_mib =
    record { base = 0; length = 0x9f000; type = 1; reserved = 0 }
    ∷ record { base = 0x100000; length = 0x300000; type = 1; reserved = 0 }
    ∷ []

abbrev handed_over : BootInfo
handed_over = record {
  magic = boot_magic;
  version_major = 1;
  version_minor = 0;
  size = 360;
  memmap = 0x8000;
  memmap_count = 2;
  fb_base = 0x80000000;
  fb_width = 640;
  fb_height = 480;
  fb_pitch = 2560;
  fb_format = 1;
  acpi_rsdp = 0;
  efi_system_table = 0;
  kernel_phys_base = 0x200000;
  kernel_size = 0x20000;
  stack_base = 0x300000;
  stack_size = 0x10000;
  cmdline = replicate 256 0;
}

abbrev input : BootInput
input = record {
  hw = hardware;
  cpuid = λ leaf. record { eax = leaf; ebx = 0; ecx = 0; edx = 0 };
  stubs = λ vec. 0xffffffff80100000 + 16 * vec;
  mem = zeros;
  map = four_mib;
  pixels = zeros;
  version = codes "0.1";
  at = 0x7000;
  timer = 1;
  alloc_cycles = 51200;
  free_cycles = 51200;
  waits = 10 ∷ 0 ∷ 20 ∷ [];
}

handed_over-IsInfo : IsInfo handed_over
handed_over-IsInfo = record {
  magic = omega arith;
  major = omega arith;
  minor = omega arith;
  size = omega arith;
  count = omega arith;
  width = omega arith;
  height = omega arith;
  pitch = omega arith;
  lines = omega arith;
  rsdp = omega arith;
  kernel_base = omega arith;
  kernel_size = omega arith;
  stack_base = omega arith;
}

bitmap_inside : (p : Pmm) → init zeros four_mib ≡ ok p → p.cursor ≢ p.highest_page
unfolding init init_at totals total_entry place place_in
bitmap_inside p e =
    let at_257 : p.cursor ≡ 257 = sym (ap (λ (q : Pmm). q.cursor) (ok-injective e)) in
    let top : p.highest_page ≡ 1024 = sym (ap (λ (q : Pmm). q.highest_page) (ok-injective e)) in
    omega (arith, at_257, top)

input-IsInput : IsInput input (some handed_over) powered_on
input-IsInput = record {
  at = omega arith;
  info = λ b e. subst IsInfo (some-injective _ _ e) handed_over-IsInfo;
  bytes = λ a. omega arith;
  map = omega arith;
  inside = bitmap_inside;
  alloc_cycles = omega arith;
  free_cycles = omega arith;
  ticks = omega arith;
  handlers = omega arith;
}

kmain_ends_example :
    Ends
      (IsRunning input (some handed_over) powered_on)
      (IsTruthful input (some handed_over))
      (kmain input (some handed_over) powered_on)
kmain_ends_example = kmain_ends input (some handed_over) powered_on input-IsInput

abbrev faulting : InterruptFrame
faulting = record {
  r15 = 0;
  r14 = 0;
  r13 = 0;
  r12 = 0;
  r11 = 0;
  r10 = 0;
  r9 = 0;
  r8 = 0;
  rbp = 0x2fff00;
  rdi = 0;
  rsi = 0;
  rdx = 0;
  rcx = 0;
  rbx = 0;
  rax = 7;
  vector = 6;
  error_code = 0;
  rip = 0x201000;
  cs = 8;
  rflags = 2;
  rsp = 0x2ffe00;
  ss = 16;
}

abbrev controls : ControlRegisters
controls = record { cr0 = 0x80000011; cr2 = 0; cr3 = 0x1000; cr4 = 0x20 }

abbrev few_pages : Pmm
few_pages = record {
  mem = zeros;
  bitmap = 0x100000;
  bitmap_bytes = 128;
  highest_page = 1024;
  free_pages = 767;
  usable_pages = 926;
  allocator_pages = 767;
  cursor = 257;
  usable_bytes = 0x39f000;
  reserved_bytes = 0;
  mmio_bytes = 0;
}

-- The timer's handler is installed, as `pit_init` leaves it.
abbrev timed_on : System
timed_on = timed input powered_on

-- Three rounds, the second with a heartbeat.
idle-Beats_example :
    Ends
      (λ r.
        Beats (sum (1 ∷ 1200 ∷ 3 ∷ [])) timed_on r
        × Course input few_pages (1 ∷ 1200 ∷ 3 ∷ []) 0 timed_on r.0 r.1)
      Never
      (idle (1 ∷ 1200 ∷ 3 ∷ []) input few_pages 0 timed_on)
idle-Beats_example =
    idle-Beats input few_pages (omega arith) (1 ∷ 1200 ∷ 3 ∷ []) 0 timed_on
      (timed-Timed input powered_on (omega arith)) (omega arith) (omega arith) (omega arith)

-- What the serial port has sent when a run halts.
abbrev sent_by : Result Halt Running → List ℕ
sent_by (err (halted reason t)) = on_port 0x3f8 t.uart.machine.events
sent_by r = []

-- A run without the structure of the loader: the set-up of the port, then the text up to the halt.
null_run :
    sent_by (kmain input none powered_on)
    ≡ 1
      ∷ 0xa5
      ∷ (crlf (codes "\nSYPAS KERNEL 0.1\n============\n\nBooting SYPAS...\n\n")
          ++ (crlf (codes "[uart] COM1 115200 8N1, loopback self-test passed\n")
              ++ (crlf (codes "\n================ SYPAS KERNEL PANIC ================\n")
                  ++ (crlf (codes "reason : boot: NULL bootinfo\nSYSTEM STATUS: HALTED\n")
                      ++ crlf (codes "====================================================\n")))))
unfolding program
null_run = refl
