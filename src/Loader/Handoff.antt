-- ===== src/Loader/Handoff.antt =====
-- bootloader/uefi/main.c: what `efi_main` hands to the kernel.
use sypas.Base.{
  ℕ, ◌+◌, ◌*◌, ◌%◌, ◌^◌, ◌≤◌, ◌≡◌, ◌⊎◌, refl, arith, ap, subst, true, List, [], ◌∷◌, some, Result,
  ok, err, length, sub64,
}
use sypas.BootProto.{MemmapEntry, IsMap}
use sypas.BootProto.Info.{
  BootInfo, boot_magic, boot_version_major, boot_version_minor, bootinfo_v1_0_size,
}
use sypas.Elf.Format.{LoadPlan, ElfStatus}
use sypas.Kernel.Boot.{check_bootinfo}
use sypas.Elf.Plan.{plan_load}
use sypas.MemoryMap.Sound.{translate-IsMap}
use sypas.MemoryMap.Capacity.{length-translate}
use sypas.Loader.Calls.{
  Call, output_string, set_watchdog_timer, free_pool, get_memory_map, Firmware, World, M, Stop,
  pure, call, die, die_ascii, ◌>>=◌, ◌>>◌, >>=-eq-ok, die_ascii-ne-ok, image_rejected,
  efi_load_error,
}
use sypas.Loader.Load.{read_kernel_file, load_segments, load_kernel_elf}
use sypas.Loader.Discover.{fill_framebuffer, set_mode}
use sypas.Loader.Buffers.{MapBuffer}
use sypas.Loader.Exit.{exit_from, input_of, output_of}
use sypas.Loader.Main.{
  Platform, Jump, load_kernel, fill_bootinfo, new_bootinfo, map_buffers, hand_over, efi_main,
}
use sypas.Loader.Room.{IsWord, Allotted, map_buffers-Allotted}
use sypas.Loader.Grows.{Extends, Extends-trans, exit_from-Grows}
use sypas.Loader.Left.{Left, exit_from-Left}

load_kernel_elf-planned :
    (fw : Firmware) (file fsize : ℕ) (w : World) {plan : LoadPlan} {u : World}
    → load_kernel_elf fw file fsize w ≡ (ok plan, u)
    → plan_load (λ i. w.mem (file + i)) fsize ≡ ok plan
unfolding load_kernel_elf
load_kernel_elf-planned fw file fsize w {plan} {u} h =
    go (plan_load (λ i. w.mem (file + i)) fsize) h
  where
    go :
        (r : Result ElfStatus LoadPlan)
        → (elim r as (λ _. Result Stop LoadPlan × World) [
          | err es ↦ die_ascii (image_rejected es) efi_load_error w
          | ok plan' ↦ (load_segments fw file plan'.segs >> pure plan') w
        ])
          ≡ (ok plan, u)
        → r ≡ ok plan
    go (err es) g =
        absurd (die_ascii-ne-ok (image_rejected es) efi_load_error w {a = plan} {u = u} g)
    go (ok plan') g =
        let (_, v, loaded, rest) =
          >>=-eq-ok (load_segments fw file plan'.segs) (λ _. pure plan') w g in
        let same : plan' ≡ plan = cc rest in ap ok same

-- The plan is that of the file that was read, as it lies in memory.
pub record Planned (fw : Firmware) (w : World) (plan : LoadPlan) : Type 0 where
  pub file : ℕ
  pub size : ℕ
  pub after : World
  pub read :
      read_kernel_file fw (record w { calls = set_watchdog_timer ∷ output_string ∷ w.calls })
      ≡ (ok (file, size), after)
  pub accepted : plan_load (λ i. after.mem (file + i)) size ≡ ok plan

load_kernel-Planned :
    (fw : Firmware) (w : World) {plan : LoadPlan} {u : World}
    → load_kernel fw w ≡ (ok plan, u)
    → Planned fw w plan
unfolding load_kernel
load_kernel-Planned fw w {plan} {u} h =
    let free : ℕ → LoadPlan → M LoadPlan =
      λ file plan. call fw (free_pool file) >>= λ _. pure plan in
    let begun : World = record w { calls = set_watchdog_timer ∷ output_string ∷ w.calls } in
    let ((file, fsize), v, read, rest) =
      >>=-eq-ok (read_kernel_file fw)
        (λ (file, fsize).
          call fw output_string >>= λ _. load_kernel_elf fw file fsize >>= free file)
        begun h in
    let printed : World = record v { calls = output_string ∷ v.calls } in
    let (plan', v', loaded, freed) =
      >>=-eq-ok (load_kernel_elf fw file fsize) (free file) printed rest in
    let same : plan' ≡ plan = cc freed in
    record {
      file = file;
      size = fsize;
      after = v;
      read = read;
      accepted =
          subst (λ x. plan_load (λ i. v.mem (file + i)) fsize ≡ ok x) same
            (load_kernel_elf-planned fw file fsize printed loaded);
    }

-- The framebuffer is that of the graphics mode, or none is told.
abbrev pub Shows : Platform → BootInfo → Type 0
Shows p bi =
    ((bi.fb_width ≡ 0) × (bi.fb_pitch ≡ 0))
    ⊎ ((bi.fb_width ≡ p.graphics.horizontal_resolution)
        × (bi.fb_pitch ≡ (p.graphics.pixels_per_scan_line * 4) % 2 ^ 32))

-- What the structure says before the memory map is put in.
record IsFilled (p : Platform) (plan : LoadPlan) (bi : BootInfo) : Type 0 where
  magic : bi.magic ≡ boot_magic
  major : bi.version_major ≡ boot_version_major
  minor : bi.version_minor ≡ boot_version_minor
  size : bi.size ≡ bootinfo_v1_0_size
  kernel_base : bi.kernel_phys_base ≡ plan.phys_base
  kernel_length : bi.kernel_size ≡ sub64 plan.phys_end plan.phys_base
  stack : bi.stack_size ≡ 65536
  system : bi.efi_system_table ≡ p.system_table
  shows : Shows p bi

fill_bootinfo-IsFilled :
    (p : Platform) (plan : LoadPlan) (w : World) {bi : BootInfo} {u : World}
    → fill_bootinfo p plan w ≡ (ok bi, u)
    → IsFilled p plan bi
unfolding fill_bootinfo fill_framebuffer set_mode new_bootinfo die
fill_bootinfo-IsFilled p plan w {bi} h = record {
  magic = ground arith;
  major = ground arith;
  minor = ground arith;
  size = ground arith;
  kernel_base = ground arith;
  kernel_length = ground arith;
  stack = ground arith;
  system = ground arith;
  shows = ground arith;
}

check_bootinfo-ok :
    (bi : BootInfo)
    → bi.magic ≡ boot_magic
    → bi.version_major ≡ boot_version_major
    → bi.size ≡ bootinfo_v1_0_size
    → check_bootinfo (some bi) ≡ ok bi
unfolding check_bootinfo
check_bootinfo-ok bi m v s = ground arith

-- What the kernel may rely on when it is entered.
pub record Handoff (fuel : ℕ) (p : Platform) (w : World) (j : Jump) (u : World) : Type 0 where
  pub plan : LoadPlan
  pub buffer : MapBuffer
  -- the plan is what the validation gave for the file that was read, and the entry is its entry
  pub planned : Planned p.firmware w plan
  pub entry_at : j.entry ≡ plan.entry
  -- the map is the translation of the one whose key the last call passed with success
  pub left : Left fuel p.firmware plan buffer j.entries u
  pub is_map : IsMap 0 j.entries
  -- the structure says where the map is, and how many entries it has
  pub placed : j.bootinfo.memmap ≡ output_of buffer
  pub counted : j.bootinfo.memmap_count ≡ length j.entries
  -- the buffers are the pages that a call of AllocatePages gave, and nothing was freed or allocated
  -- before the map came into them
  pub taken : List Call
  pub allotted : Allotted p.firmware buffer taken
  pub logged : Extends taken u.calls
  -- the firmware's map and the entries behind it lie in these pages
  pub inside : buffer.buffers.map_bytes + 24 * length j.entries ≤ buffer.buffers.total_pages * 4096
  pub checked : check_bootinfo (some j.bootinfo) ≡ ok j.bootinfo
  pub kernel_base : j.bootinfo.kernel_phys_base ≡ plan.phys_base
  pub kernel_length : j.bootinfo.kernel_size ≡ sub64 plan.phys_end plan.phys_base
  pub stack : j.stack_top ≡ (j.bootinfo.stack_base + 65536) % 2 ^ 64
  pub shows : Shows p j.bootinfo

hand_over-Handoff :
    (fuel : ℕ) (p : Platform) (w0 : World) (plan : LoadPlan) (bi : BootInfo) (b : MapBuffer)
    (cs : List Call) (w : World) {j : Jump} {u : World}
    → Planned p.firmware w0 plan
    → IsFilled p plan bi
    → Allotted p.firmware b cs
    → Extends cs w.calls
    → hand_over fuel p.firmware plan bi b w ≡ (ok j, u)
    → Handoff fuel p w0 j u
unfolding hand_over
hand_over-Handoff fuel p w0 plan bi b cs w {j} {u} planned f allotted extended h =
    let jump : List MemmapEntry → Jump = λ entries. record {
      entry = plan.entry;
      stack_top = (bi.stack_base + bi.stack_size) % 2 ^ 64;
      bootinfo = record bi { memmap = output_of b; memmap_count = length entries };
      entries = entries;
    } in
    let (entries, v, done, rest) =
      >>=-eq-ok (exit_from 4 fuel p.firmware plan b true) (λ es. pure (jump es)) w h in
    let same : jump entries ≡ j = cc rest in
    let there : v ≡ u = ap (λ (r : Result Stop Jump × World). r.1) rest in
    let left = exit_from-Left 4 fuel p.firmware plan b true w done in
    let few =
      length-translate fuel
        (input_of plan b (p.firmware.memory_map (get_memory_map b.buffers.map_bytes ∷ left.before)))
        left.translated in
    let grown : Extends w.calls v.calls =
      subst (λ (r : Result Stop (List MemmapEntry) × World). Extends w.calls r.1.calls) done
        (exit_from-Grows 4 fuel p.firmware plan b true w) in
    subst (λ x. Handoff fuel p w0 x u) same
      (subst (Handoff fuel p w0 (jump entries)) there (record {
        plan = plan;
        buffer = b;
        planned = planned;
        entry_at = refl;
        left = left;
        is_map = translate-IsMap fuel _ left.translated;
        placed = refl;
        counted = refl;
        taken = cs;
        allotted = allotted;
        logged = Extends-trans cs w.calls v.calls extended grown;
        inside = omega (arith, few, allotted.roomy.output_fits);
        checked = check_bootinfo-ok (jump entries).bootinfo f.magic f.major f.size;
        kernel_base = f.kernel_base;
        kernel_length = f.kernel_length;
        stack = omega (arith, f.stack);
        shows = f.shows;
      }))

-- Whatever the firmware answers within 64 bits, a loader that jumps has read the kernel's file,
-- taken the plan that the validation gave for its bytes, and enters it at its entry. It has had a
-- call of AllocatePages succeed for all the pages of its buffers, which lie at the address that
-- this call gave. Its last two calls were a GetMemoryMap that succeeded and an ExitBootServices
-- with the key of that map that succeeded. The map it hands over is the translation of that one,
-- in order and without overlap, lies with the firmware's map within those pages, and is counted;
-- and the kernel's checks of the structure pass.
pub efi_main-Handoff :
    (fuel : ℕ) (p : Platform) (w : World) {j : Jump} {u : World}
    → IsWord p.firmware
    → efi_main fuel p w ≡ (ok j, u)
    → Handoff fuel p w j u
unfolding efi_main
efi_main-Handoff fuel p w {j} {u} words h =
    let fw = p.firmware in
    let out : LoadPlan → BootInfo → MapBuffer → M Jump =
      λ plan bi b. call fw output_string >>= λ _. hand_over fuel fw plan bi b in
    let (plan, w1, loaded, rest1) =
      >>=-eq-ok (load_kernel fw)
        (λ plan. fill_bootinfo p plan >>= λ bi. map_buffers fw >>= out plan bi) w h in
    let (bi, w2, filled, rest2) =
      >>=-eq-ok (fill_bootinfo p plan) (λ bi. map_buffers fw >>= out plan bi) w1 rest1 in
    let (b, w3, found, rest3) = >>=-eq-ok (map_buffers fw) (out plan bi) w2 rest2 in
    hand_over-Handoff fuel p w plan bi b w3.calls (record w3 { calls = output_string ∷ w3.calls })
      (load_kernel-Planned fw w loaded) (fill_bootinfo-IsFilled p plan w1 filled)
      (map_buffers-Allotted fw w2 words found) (output_string ∷ [], refl) rest3
