-- ===== src/Loader/Quiet.antt =====
-- bootloader/uefi/main.c: what `efi_main` does before the final memory map makes no attempt
-- to leave the boot services.
use sypas.Base.{
  ℕ, zero, suc, ◌+◌, ◌≡◌, arith, Bool, true, false, if◌then◌else◌, List, [], ◌∷◌, Option, none,
  some, Result, ok, err, not, ◌||◌, ◌==◌,
}
use sypas.Elf.Format.{ElfStatus, Segment, LoadPlan}
use sypas.Loader.Calls.{
  Call, output_string, set_watchdog_timer, free_pool, get_memory_map, exit_boot_services, Firmware,
  World, MapAnswer, M, pure, image_rejected, efi_load_error, size_overflow, size_query,
  efi_buffer_too_small, Stop, die, die_ascii, die_if, ◌>>=◌, ◌>>◌, call,
}
use sypas.Elf.Plan.{plan_load}
use sypas.Loader.Load.{read_kernel_file, load_segment, load_segments, load_kernel_elf}
use sypas.Loader.Discover.{fill_framebuffer}
use sypas.Loader.Buffers.{Buffers, MapBuffer, try_buffers, grow_from, size_buffers}
use sypas.Loader.Main.{Platform, load_kernel, fill_bootinfo, map_buffers}

abbrev pub is_exit : Call → Bool
is_exit (exit_boot_services k) = true
is_exit c = false

-- How often the loader has asked to leave the boot services.
abbrev pub attempts : List Call → ℕ
attempts [] = 0
attempts (c ∷ cs) = if is_exit c then suc (attempts cs) else attempts cs

abbrev pub Quiet : {A : Type 0} → M A → Type 0
Quiet m = (w : World) → attempts w.calls ≡ 0 → attempts (m w).1.calls ≡ 0

read_kernel_file-Quiet : (fw : Firmware) → Quiet (read_kernel_file fw)
unfolding read_kernel_file die
read_kernel_file-Quiet fw w z = ground arith

-- A chain whose steps make no attempt makes none, also where it stops early.
Quiet->>= :
    {A B : Type 0} (m : M A) (f : A → M B) → Quiet m → ((a : A) → Quiet (f a)) → Quiet (m >>= f)
Quiet->>= {A} {B} m f qm qf w z = go (m w) (qm w z)
  where
    go :
        (r : Result Stop A × World)
        → attempts r.1.calls ≡ 0
        → attempts (
            (elim r.0 as (λ _. Result Stop B × World) [
              | ok a ↦ f a r.1
              | err s ↦ (err s, r.1)
            ]).1.calls)
          ≡ 0
    go (ok a, v) q = qf a v q
    go (err s, v) q = q

load_segments-Quiet :
    (fw : Firmware) (file : ℕ) (segs : List Segment) → Quiet (load_segments fw file segs)
unfolding load_segments load_segment die
load_segments-Quiet fw file [] = λ w z. z
load_segments-Quiet fw file (s ∷ segs) =
    Quiet->>= (load_segment fw file s) (λ _. load_segments fw file segs) (λ w z. ground arith)
      (λ _. load_segments-Quiet fw file segs)

load_kernel_elf-Quiet : (fw : Firmware) (file fsize : ℕ) → Quiet (load_kernel_elf fw file fsize)
unfolding load_kernel_elf die die_ascii
load_kernel_elf-Quiet fw file fsize w z = go (plan_load (λ i. w.mem (file + i)) fsize)
  where
    go :
        (r : Result ElfStatus LoadPlan)
        → attempts (
            (elim r as (λ _. Result Stop LoadPlan × World) [
              | err es ↦ die_ascii (image_rejected es) efi_load_error w
              | ok plan ↦ (load_segments fw file plan.segs >> pure plan) w
            ]).1.calls)
          ≡ 0
    go (err es) = z
    go (ok plan) =
        Quiet->>= (load_segments fw file plan.segs) (λ _. pure plan)
          (load_segments-Quiet fw file plan.segs) (λ _ v q. q) w z

pub load_kernel-Quiet : (fw : Firmware) → Quiet (load_kernel fw)
unfolding load_kernel
load_kernel-Quiet fw w z =
    let free : ℕ → LoadPlan → M LoadPlan =
      λ file plan. call fw (free_pool file) >>= λ _. pure plan in
    Quiet->>= (read_kernel_file fw)
      (λ (file, fsize). call fw output_string >>= λ _. load_kernel_elf fw file fsize >>= free file)
      (read_kernel_file-Quiet fw)
      (λ (file, fsize) v q.
        Quiet->>= (load_kernel_elf fw file fsize) (free file) (load_kernel_elf-Quiet fw file fsize)
          (λ plan u r. r) (record v { calls = output_string ∷ v.calls }) q)
      (record w { calls = set_watchdog_timer ∷ output_string ∷ w.calls }) z

pub fill_bootinfo-Quiet : (p : Platform) (plan : LoadPlan) → Quiet (fill_bootinfo p plan)
unfolding fill_bootinfo fill_framebuffer die
fill_bootinfo-Quiet p plan w z = ground arith

try_buffers-Quiet : (fw : Firmware) (dsz : ℕ) (b : Buffers) → Quiet (try_buffers fw dsz b)
unfolding try_buffers die
try_buffers-Quiet fw dsz b w z = ground arith

-- A round, where the rest of the rounds makes no attempt.
grow_from-suc-Quiet :
    (n : ℕ) (fw : Firmware) (dsz mmsize : ℕ)
    → ((dsz' mmsize' : ℕ) → Quiet (grow_from n fw dsz' mmsize'))
    → Quiet (grow_from (suc n) fw dsz mmsize)
unfolding grow_from die
grow_from-suc-Quiet n fw dsz mmsize rest w z = go (size_buffers dsz mmsize)
  where
    next : Option MapBuffer × MapAnswer → M MapBuffer
    next (found, answer) = elim found [
      | some m ↦ pure m
      | none ↦ grow_from n fw answer.descriptor_size answer.size
    ]

    next-Quiet : (r : Option MapBuffer × MapAnswer) → Quiet (next r)
    next-Quiet (some m, answer) v q = q
    next-Quiet (none, answer) v q = rest answer.descriptor_size answer.size v q

    go :
        (o : Option Buffers)
        → attempts
            ((elim o as (λ _. M MapBuffer) [
              | none ↦ die size_overflow efi_load_error
              | some b ↦ try_buffers fw dsz b >>= next
            ])
              w).1.calls
          ≡ 0
    go none = z
    go (some b) = Quiet->>= (try_buffers fw dsz b) next (try_buffers-Quiet fw dsz b) next-Quiet w z

grow_from-Quiet : (n : ℕ) (fw : Firmware) (dsz mmsize : ℕ) → Quiet (grow_from n fw dsz mmsize)
unfolding grow_from die
grow_from-Quiet zero fw dsz mmsize = λ w z. z
grow_from-Quiet (suc n) fw dsz mmsize = grow_from-suc-Quiet n fw dsz mmsize (grow_from-Quiet n fw)

pub map_buffers-Quiet : (fw : Firmware) → Quiet (map_buffers fw)
unfolding map_buffers die
map_buffers-Quiet fw w z =
    let u : World = record w { calls = get_memory_map 0 ∷ w.calls } in
    let answer : MapAnswer = fw.memory_map u.calls in
    let st : ℕ = fw.status u.calls in
    Quiet->>=
      (die_if (not (st == efi_buffer_too_small) || answer.descriptor_size == 0) size_query st)
      (λ _. grow_from 4 fw answer.descriptor_size answer.size) (λ v q. ground arith)
      (λ _. grow_from-Quiet 4 fw answer.descriptor_size answer.size) u z
