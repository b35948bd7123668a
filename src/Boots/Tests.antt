-- ===== src/Boots/Tests.antt =====
-- bootloader/uefi/main.c and kernel/main.c: the kernel on what a run of the loader hands over.
use sypas.Base.{
  ok-injective, false, ◌≡◌, ◌≢◌, refl, arith, ap, sym, ok, some, replicate, none, [], ◌∷◌, codes,
  Memory,
}
use sypas.Pmm.State.{Pmm}
use sypas.Pmm.Init.{init, init_at, totals, total_entry, place, place_in}
use sypas.Loader.Sample.{platform, start, jump, entries, machine-IsWord, run_ends}
use sypas.Kernel.System.{System}
use sypas.Kernel.Main.{BootInput, kmain}
use sypas.Kernel.Outcome.{Ends}
use sypas.Kernel.Ending.{IsRunning}
use sypas.Boots.Handed.{IsWide, IsMachine, IsLeft, efi_main-kmain}

abbrev zeros : Memory
zeros a = 0

abbrev input : BootInput
input = record {
  hw = record { device = λ es p. 0x20; font = λ ch gy. 0 };
  cpuid = λ leaf. record { eax = leaf; ebx = 0; ecx = 0; edx = 0 };
  stubs = λ vec. 0xffffffff80100000;
  mem = zeros;
  map = entries;
  pixels = zeros;
  version = codes "0.1";
  at = 0x500000;
  timer = 1;
  alloc_cycles = 51200;
  free_cycles = 51200;
  waits = 30 ∷ [];
}

abbrev entered : System
entered = record {
  uart = record {
    present = false;
    machine = record {
      events = [];
      spurious_irqs = 0;
      irq_handlers = replicate 16 none;
      isr_test_hits = 0;
    };
  };
  console = record {
    fb = zeros;
    fb_width = 0;
    fb_height = 0;
    fb_pitch32 = 0;
    fb_format = 0;
    cols = 0;
    rows = 0;
    cur_col = 0;
    cur_row = 0;
    fg = 0xd7dde5;
    bg = 0x10141b;
    ready = false;
  };
  sinks = [];
  gdt = [];
  idt = [];
  ticks = 0;
}

jump-IsWide : IsWide jump.bootinfo
jump-IsWide = record {
  magic = omega arith;
  major = omega arith;
  minor = omega arith;
  size = omega arith;
  count = omega arith;
  width = omega arith;
  height = omega arith;
  pitch = omega arith;
  rsdp = omega arith;
  kernel_base = omega arith;
  kernel_size = omega arith;
  stack_base = omega arith;
}

bitmap_inside : (p : Pmm) → init zeros entries ≡ ok p → p.cursor ≢ p.highest_page
unfolding init init_at totals total_entry place place_in
bitmap_inside p e =
    let at_513 : p.cursor ≡ 513 = sym (ap (λ (q : Pmm). q.cursor) (ok-injective e)) in
    let top : p.highest_page ≡ 1536 = sym (ap (λ (q : Pmm). q.highest_page) (ok-injective e)) in
    omega (arith, at_513, top)

input-IsMachine : IsMachine input entered
input-IsMachine = record {
  at = omega arith;
  bytes = λ a. omega arith;
  inside = bitmap_inside;
  alloc_cycles = omega arith;
  free_cycles = omega arith;
  ticks = omega arith;
  handlers = omega arith;
}

efi_main-kmain_example :
    Ends
      (IsRunning input (some jump.bootinfo) entered)
      (IsLeft input)
      (kmain input (some jump.bootinfo) entered)
efi_main-kmain_example =
    efi_main-kmain 2 platform start input entered machine-IsWord run_ends (omega arith)
      (omega arith) jump-IsWide refl input-IsMachine
