-- ===== src/Boots/Handed.antt =====
-- bootloader/uefi/main.c and kernel/main.c: `kmain` on what `efi_main` hands over.
use sypas.Base.{
  ℕ, ◌*◌, ◌/◌, ◌^◌, ◌≤◌, ◌<◌, ◌≡◌, ◌≢◌, arith, sym, subst, ◌∙◌, length, some, ok, err, u64_max,
  IsBytes, ◌+◌, inl, inr,
}
use mathlib.Core.Option.{some-injective}
use sypas.BootProto.{IsMap}
use sypas.BootProto.Info.{BootInfo}
use sypas.Pmm.State.{Pmm}
use sypas.Pmm.Init.{init}
use sypas.Pmm.Selftest.{exhausted}
use sypas.Loader.Calls.{World}
use sypas.Loader.Main.{Platform, Jump, efi_main}
use sypas.Loader.Room.{IsWord}
use sypas.Loader.Handoff.{Shows, efi_main-Handoff}
use sypas.Interrupts.Timer.{sum}
use sypas.Kernel.Boot.{check_bootinfo}
use sypas.Kernel.System.{System}
use sypas.Kernel.Main.{
  BootInput, Halt, halted, boot, memory, selftest_failed, dispatch_failed, not_ticking, faulted,
  waiting, stuck, undefined, kmain,
}
use sypas.Kernel.Outcome.{Ends, Ends-weaken}
use sypas.Kernel.Starts.{IsInfo}
use sypas.Kernel.Ending.{IsRunning, IsTruthful}
use sypas.Kernel.Runs.{kmain_ends}

-- The fields of the structure have the widths of their C types.
pub record IsWide (bi : BootInfo) : Type 0 where
  pub magic : bi.magic ≤ u64_max
  pub major : bi.version_major ≤ u64_max
  pub minor : bi.version_minor ≤ u64_max
  pub size : bi.size ≤ u64_max
  pub count : bi.memmap_count ≤ u64_max
  pub width : bi.fb_width < 2 ^ 32
  pub height : bi.fb_height < 2 ^ 32
  pub pitch : bi.fb_pitch < 2 ^ 32
  pub rsdp : bi.acpi_rsdp ≤ u64_max
  pub kernel_base : bi.kernel_phys_base ≤ u64_max
  pub kernel_size : bi.kernel_size ≤ u64_max
  pub stack_base : bi.stack_base ≤ u64_max

-- The kernel's side: the memory and the numbers that are not the loader's.
pub record IsMachine (x : BootInput) (s : System) : Type 0 where
  pub at : x.at ≤ u64_max
  pub bytes : IsBytes x.mem
  pub inside : (p : Pmm) → init x.mem x.map ≡ ok p → p.cursor ≢ p.highest_page
  pub alloc_cycles : x.alloc_cycles ≤ u64_max
  pub free_cycles : x.free_cycles ≤ u64_max
  pub ticks : s.ticks + sum x.waits + 25 < 2 ^ 64
  pub handlers : 0 < length s.uart.machine.irq_handlers

-- The halts that are left: the allocator finds no room, or too little for the self-test, or the timer
-- interrupts do not come.
abbrev pub IsLeft : BootInput → Halt → Type 0
IsLeft x (halted (boot b) t) = ⊥
IsLeft x (halted (memory why) t) = init x.mem x.map ≡ err why
IsLeft x (halted (selftest_failed failure) t) =
    (p : Pmm) × (init x.mem x.map ≡ ok p)
    × (p.free_pages < 512)
    × (failure ≡ exhausted p.free_pages)
IsLeft x (halted (dispatch_failed hits) t) = ⊥
IsLeft x (halted (not_ticking delta) t) = ⊥
IsLeft x (faulted why) = ⊥
IsLeft x waiting = sum x.waits < 25
IsLeft x stuck = ⊥
IsLeft x (undefined e) = ⊥

Shows-lines :
    (p : Platform) (bi : BootInfo)
    → p.graphics.horizontal_resolution ≤ p.graphics.pixels_per_scan_line
    → p.graphics.pixels_per_scan_line * 4 < 2 ^ 32
    → Shows p bi
    → bi.fb_width ≤ bi.fb_pitch / 4
Shows-lines p bi r f (inl (w, h)) = omega (arith, w)
Shows-lines p bi r f (inr (w, h)) = omega (arith, w, h, r, f)

without_boot :
    (x : BootInput) (bi : BootInfo)
    → check_bootinfo (some bi) ≡ ok bi
    → (h : Halt) → IsTruthful x (some bi) h
    → IsLeft x h
without_boot x bi c (halted (boot b) t) e = absurd (let k = sym c ∙ e in cc)
without_boot x bi c (halted (memory why) t) e = e
without_boot x bi c (halted (selftest_failed failure) t) e = e
without_boot x bi c (halted (dispatch_failed hits) t) e = e
without_boot x bi c (halted (not_ticking delta) t) e = e
without_boot x bi c (faulted why) e = e
without_boot x bi c waiting e = e
without_boot x bi c stuck e = e
without_boot x bi c (undefined why) e = e

-- Where the firmware answers within 64 bits and describes a graphics mode whose lines have room
-- for their pixels and fit 32 bits, and the loader has jumped, kmain on the structure and the map
-- that it hands over comes to its idle loop with everything set up and tested, or halts for a
-- reason of the memory that is so, that pmm_init finds none or no room for its bitmap or that
-- fewer than 512 pages are free for the self-test, or waits without end for timer interrupts of
-- which fewer than 25 come. It panics for no other reason, in particular not in its checks of the
-- structure and not for a timer that does not tick. The fields of the structure and the numbers of
-- the kernel have their widths, the bitmap of the allocator does not end at the end of memory, the
-- table of handlers is not empty and the count of the ticks does not wrap.
pub efi_main-kmain :
    (fuel : ℕ) (p : Platform) (w : World) (x : BootInput) (s : System) {j : Jump} {u : World}
    → IsWord p.firmware
    → efi_main fuel p w ≡ (ok j, u)
    → p.graphics.horizontal_resolution ≤ p.graphics.pixels_per_scan_line
    → p.graphics.pixels_per_scan_line * 4 < 2 ^ 32
    → IsWide j.bootinfo
    → x.map ≡ j.entries
    → IsMachine x s
    → Ends (IsRunning x (some j.bootinfo) s) (IsLeft x) (kmain x (some j.bootinfo) s)
efi_main-kmain fuel p w x s {j} words ran lines fits wide same m =
    let handed = efi_main-Handoff fuel p w words ran in
    let info : IsInfo j.bootinfo = record {
      magic = wide.magic;
      major = wide.major;
      minor = wide.minor;
      size = wide.size;
      count = wide.count;
      width = wide.width;
      height = wide.height;
      pitch = wide.pitch;
      lines = Shows-lines p j.bootinfo lines fits handed.shows;
      rsdp = wide.rsdp;
      kernel_base = wide.kernel_base;
      kernel_size = wide.kernel_size;
      stack_base = wide.stack_base;
    } in
    Ends-weaken (IsRunning x (some j.bootinfo) s) (IsTruthful x (some j.bootinfo)) (IsLeft x)
      (kmain x (some j.bootinfo) s)
      (kmain_ends x (some j.bootinfo) s (record {
        at = m.at;
        info = λ b e. subst IsInfo (some-injective _ _ e) info;
        bytes = m.bytes;
        map = subst (IsMap 0) (sym same) handed.is_map;
        inside = m.inside;
        alloc_cycles = m.alloc_cycles;
        free_cycles = m.free_cycles;
        ticks = m.ticks;
        handlers = m.handlers;
      }))
      (without_boot x j.bootinfo handed.checked)
