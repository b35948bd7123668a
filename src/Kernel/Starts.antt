-- ===== src/Kernel/Starts.antt =====
-- kernel/main.c: what each part of `kmain` does up to the console.
use sypas.Base.{
  ℕ, length, ltb, ◌+◌, ◌/◌, ◌^◌, ◌≤◌, ◌<◌, ◌≡◌, refl, arith, ap, Bool, true, false, if◌then◌else◌,
  List, [], ◌∷◌, ◌++◌, Option, none, some, ok, err, All, u64_max, until_nul, Bool-cases,
  Result-cases, inl, inr,
}
use sypas.BootProto.{MemmapEntry, IsMap}
use sypas.BootProto.Info.{BootInfo}
use sypas.Interrupts.Pic.{slow_write, io_wait, pic_init, read, write}
use sypas.Interrupts.Idt.{idt_init}
use sypas.Console.Inside.{Stays-refl}
use sypas.Kernel.Kinds.{parsing}
use sypas.Kernel.Print.{max_sinks}
use sypas.Kernel.Serial.{set_up, serial_init}
use sypas.Kernel.Boot.{
  BootPanic, null_bootinfo, bad_magic, unsupported_major, short_bootinfo, check_bootinfo,
}
use sypas.Kernel.Cpu.{CpuInfo, Registers, family_of, model_of, cpu_identify}
use sypas.Kernel.Gdt.{gdt_init}
use sypas.Kernel.Panic.{Call, line}
use sypas.Kernel.Prints.{IsCall}
use sypas.Kernel.System.{serial, Sink, System, register_sink, with_machine}
use sypas.Kernel.Messages.{said, greeting, boot_message, boot_lines, cpu_lines, map_lines}
use sypas.Kernel.Main.{BootInput, Halt, halted, boot, greet, check_boot, set_tables, say}
use sypas.Kernel.Outcome.{
  Ends, Ends->>=, Ends-map, Later, Later-refl, Later-trans, say-Later, stop_ends,
}

-- The fields have their widths, and a line of the framebuffer has room for its pixels.
pub record IsInfo (bi : BootInfo) : Type 0 where
  pub magic : bi.magic ≤ u64_max
  pub major : bi.version_major ≤ u64_max
  pub minor : bi.version_minor ≤ u64_max
  pub size : bi.size ≤ u64_max
  pub count : bi.memmap_count ≤ u64_max
  pub width : bi.fb_width < 2 ^ 32
  pub height : bi.fb_height < 2 ^ 32
  pub pitch : bi.fb_pitch < 2 ^ 32
  pub lines : bi.fb_width ≤ bi.fb_pitch / 4
  pub rsdp : bi.acpi_rsdp ≤ u64_max
  pub kernel_base : bi.kernel_phys_base ≤ u64_max
  pub kernel_size : bi.kernel_size ≤ u64_max
  pub stack_base : bi.stack_base ≤ u64_max

-- What is printed after a change.
pub after :
    (E : Halt → Type 0) (x : BootInput) (calls : List Call) (s t : System)
    → Later s t
    → All IsCall calls
    → Ends (Later s) E (say x calls t)
after E x calls s t p f =
    Ends-map (Later t) (Later s) E (say x calls t) (say-Later E x calls t f)
      (λ u q. Later-trans s t u p q)

greeting-IsCall : (version : List ℕ) (b : Bool) → All IsCall (greeting version b)
unfolding parsing
greeting-IsCall version true = (((tt, tt), refl), ((tt, refl), ((tt, refl), tt)))
greeting-IsCall version false = (((tt, tt), refl), ((tt, refl), tt))

pub register_sink-Later : (fn : Sink) (s : System) → Later s (register_sink fn s)
unfolding register_sink
register_sink-Later fn s = elim (Bool-cases (ltb (length s.sinks) max_sinks)) [
  | inl e ↦ rw e (changes_sinks (s.sinks ++ (fn ∷ [])))
  | inr e ↦ rw e (Later-refl s)
]
  where
    changes_sinks : (fns : List Sink) → Later s (record s { sinks = fns })
    changes_sinks fns = record {
      ticks = refl;
      handlers = refl;
      hits = refl;
      gdt = refl;
      idt = refl;
      console = Stays-refl s.console;
    }

init_same :
    (x : BootInput) (s : System) → Later s (record s { uart = (serial_init x.hw.device s.uart).1 })
unfolding serial_init set_up read write
init_same x s = record {
  ticks = refl;
  handlers = ground arith;
  hits = ground arith;
  gdt = refl;
  idt = refl;
  console = Stays-refl s.console;
}

pub greet-Later : (E : Halt → Type 0) (x : BootInput) (s : System) → Ends (Later s) E (greet x s)
unfolding greet
greet-Later E x s =
    let (serial_ok, uart) = serial_init x.hw.device s.uart in
    let t : System = record s { uart = uart } in
    let u : System = register_sink serial t in
    after E x (greeting x.version serial_ok) s u
      (Later-trans s t u (init_same x s) (register_sink-Later serial t))
      (greeting-IsCall x.version serial_ok)

boot_message-IsCall :
    (bi : Option BootInfo) (b : BootPanic)
    → ((i : BootInfo) → bi ≡ some i → IsInfo i)
    → check_bootinfo bi ≡ err b
    → IsCall (boot_message b)
unfolding check_bootinfo parsing
boot_message-IsCall bi null_bootinfo i e = (tt, refl)
boot_message-IsCall none (bad_magic m) i e = absurd (ground arith)
boot_message-IsCall none (unsupported_major m) i e = absurd (ground arith)
boot_message-IsCall none (short_bootinfo m) i e = absurd (ground arith)
boot_message-IsCall (some bi) (bad_magic m) i e =
    let w = i bi refl in ((ground (arith, w.magic, e), tt), refl)
boot_message-IsCall (some bi) (unsupported_major m) i e =
    let w = i bi refl in ((ground (arith, w.major, e), (omega arith, tt)), refl)
boot_message-IsCall (some bi) (short_bootinfo m) i e =
    let w = i bi refl in ((ground (arith, w.size, e), (omega arith, tt)), refl)

boot_lines-IsCall :
    (at : ℕ) (bi : BootInfo) → at ≤ u64_max → IsInfo bi → All IsCall (boot_lines at bi)
unfolding parsing
boot_lines-IsCall at bi a i = (
  ((i.major, (i.minor, (a, tt))), refl),
  (
    ((i.kernel_base, (omega (arith, i.kernel_size), (i.stack_base, tt))), refl),
    cmdline (until_nul bi.cmdline),
  ),
)
  where
    cmdline :
        (cs : List ℕ)
        → All IsCall (elim cs as (λ _. List Call) [
          | [] ↦ []
          | c ∷ cs' ↦ line "[boot] cmdline: %s\n" (said (c ∷ cs') ∷ []) ∷ []
        ])
    cmdline [] = tt
    cmdline (c ∷ cs) = (((tt, tt), refl), tt)

flag_small : (b : Bool) → (if b then 1 else 0) ≤ u64_max
flag_small true = omega arith
flag_small false = omega arith

identity_small :
    (cpuid : ℕ → Registers)
    → ((cpu_identify cpuid).family ≤ u64_max)
      × ((cpu_identify cpuid).model ≤ u64_max)
      × ((cpu_identify cpuid).stepping ≤ u64_max)
unfolding cpu_identify family_of model_of
identity_small cpuid = ground arith

pub cpu_lines-IsCall : (cpuid : ℕ → Registers) → All IsCall (cpu_lines (cpu_identify cpuid))
unfolding parsing
cpu_lines-IsCall cpuid =
    let (family, model, stepping) = identity_small cpuid in
    let cpu : CpuInfo = cpu_identify cpuid in
    (
      ((tt, (tt, (family, (model, (stepping, tt))))), refl),
      (
        (
          (
            flag_small cpu.has_tsc,
            (
              flag_small cpu.has_apic,
              (
                flag_small cpu.has_sse2,
                (flag_small cpu.has_nx, (flag_small cpu.has_1gb_pages, tt)),
              ),
            ),
          ),
          refl,
        ),
        tt,
      ),
    )

pub map_lines-IsCall : (lo : ℕ) (map : List MemmapEntry) → IsMap lo map → All IsCall (map_lines map)
unfolding map_lines parsing
map_lines-IsCall lo [] w = tt
map_lines-IsCall lo (e ∷ es) (l, al, an, p, fits, w) =
    ((((omega arith, (omega arith, (tt, tt)))), refl), map_lines-IsCall (e.base + e.length) es w)

check_bootinfo-ok : (bi : Option BootInfo) (b : BootInfo) → check_bootinfo bi ≡ ok b → bi ≡ some b
unfolding check_bootinfo
check_bootinfo-ok none b e = absurd (ground arith)
check_bootinfo-ok (some bi) b e = ground arith

pub check_boot_ends :
    (E : Halt → Type 0) (x : BootInput) (bi : Option BootInfo) (s : System)
    → x.at ≤ u64_max
    → ((i : BootInfo) → bi ≡ some i → IsInfo i)
    → ((b : BootPanic) (t : System) → check_bootinfo bi ≡ err b → E (halted (boot b) t))
    → Ends (λ (r : BootInfo × System). (bi ≡ some r.0) × Later s r.1) E (check_boot x bi s)
unfolding check_boot
check_boot_ends E x bi s a i k = elim (Result-cases (check_bootinfo bi)) [
  | inl (b, e) ↦
      rw (e, Ends)
        (stop_ends _ E x (boot b) (boot_message b) s (boot_message-IsCall bi b i e) (λ t. k b t e))
  | inr (b, e) ↦
      let given : bi ≡ some b = check_bootinfo-ok bi b e in
      rw (e, Ends)
        (Ends->>= (Later s) _ E (say x (boot_lines x.at b) s) (λ t. ok (b, t))
          (say-Later E x (boot_lines x.at b) s (boot_lines-IsCall x.at b a (i b given)))
          (λ t p. (given, p)))
]

pic_init_same : (s : System) → Later s (with_machine (pic_init s.uart.machine) s)
unfolding pic_init slow_write io_wait write
pic_init_same s = record {
  ticks = refl;
  handlers = refl;
  hits = refl;
  gdt = refl;
  idt = refl;
  console = Stays-refl s.console;
}

-- The three tables are set up one after another.
abbrev pub tables : BootInput → System → System
tables x s = record s { gdt = gdt_init s.gdt; idt = idt_init x.stubs s.idt }

pub set_tables_ends :
    (E : Halt → Type 0) (x : BootInput) (s : System) → Ends (Later (tables x s)) E (set_tables x s)
unfolding set_tables parsing
set_tables_ends E x s =
    let s1 : System = record s { gdt = gdt_init s.gdt } in
    Ends->>= (Later s1) (Later (tables x s)) E _ _ (say-Later E x _ s1 ((tt, refl), tt)) (λ t p.
      let t1 : System = record t { idt = idt_init x.stubs t.idt } in
      Ends->>= (Later (tables x s)) (Later (tables x s)) E _ _
        (after E x _ (tables x s) t1 (with_idt p) ((tt, refl), tt))
        (λ u q.
          after E x _ (tables x s) (with_machine (pic_init u.uart.machine) u)
            (Later-trans (tables x s) u _ q (pic_init_same u)) ((tt, refl), tt)))
  where
    with_idt :
        {t : System}
        → Later (record s { gdt = gdt_init s.gdt }) t
        → Later (tables x s) (record t { idt = idt_init x.stubs t.idt })
    with_idt p = record {
      ticks = p.ticks;
      handlers = p.handlers;
      hits = p.hits;
      gdt = p.gdt;
      idt = ap (idt_init x.stubs) p.idt;
      console = p.console;
    }
