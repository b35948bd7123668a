-- ===== src/Kernel/Runs.antt =====
-- kernel/main.c: `kmain` as a whole.
use sypas.Base.{
  Bool-cases, inl, inr, ℕ, ◌*◌, ◌/◌, ◌≤◌, ◌<◌, ◌≡◌, refl, arith, sym, subst, ap, ◌∙◌, Bool, true,
  length, get_or, Option, none, some, All, u64_max,
}
use sypas.BootProto.Info.{BootInfo}
use sypas.Interrupts.Pic.{pic_unmask, clear_mask, read, write}
use sypas.Interrupts.Idt.{idt_init, irq_install}
use sypas.Interrupts.Timer.{timer_ms, pit_init}
use sypas.Console.Cursor.{Console, fbcon_init}
use sypas.Console.Inside.{IsInside, Stays, Stays-trans, fbcon_init-IsInside}
use sypas.Pmm.State.{Pmm}
use sypas.Kernel.Kinds.{parsing}
use sypas.Kernel.Cpu.{CpuInfo, cpu_identify}
use sypas.Kernel.Gdt.{gdt_init}
use sypas.Kernel.Prints.{IsCall}
use sypas.Kernel.System.{System}
use sypas.Kernel.Messages.{usable_sum, cpu_lines, banner}
use sypas.Kernel.Main.{
  BootInput, Halt, say, framebuffer_of, greet, check_boot, set_tables, start_memory, start_console,
  test_interrupts, start_timer, Running, proceed, kmain,
}
use sypas.Kernel.Outcome.{Ends, Ends->>=, Later, Later-trans, say-Later}
use sypas.Kernel.Starts.{
  IsInfo, greet-Later, cpu_lines-IsCall, check_boot_ends, tables, set_tables_ends,
}
use sypas.Kernel.Memory.{Tested, start_memory_ends, usable_sum-le}
use sypas.Kernel.Proceeds.{
  consoled, start_console_ends, hit, test_interrupts_ends, ticked, timed, timed-Timed,
  start_timer_ends,
}
use sypas.Kernel.Ending.{IsInput, IsRunning, IsTruthful}

banner-IsCall :
    (cpu : CpuInfo) (usable : ℕ) (fb_ok : Bool) (ticks : ℕ)
    → usable ≤ u64_max
    → All IsCall (banner cpu usable fb_ok (timer_ms ticks))
unfolding parsing timer_ms
banner-IsCall cpu usable fb_ok ticks l = (
  (tt, refl),
  (
    (tt, refl),
    (
      ((tt, tt), refl),
      (
        ((omega (arith, l), tt), refl),
        ((tt, refl), (((tt, tt), refl), (((omega arith, tt), refl), ((tt, refl), tt)))),
      ),
    ),
  ),
)

tables-Later : (x : BootInput) (s t : System) → Later s t → Later (tables x s) (tables x t)
tables-Later x s t p = record {
  ticks = p.ticks;
  handlers = p.handlers;
  hits = p.hits;
  gdt = ap gdt_init p.gdt;
  idt = ap (idt_init x.stubs) p.idt;
  console = p.console;
}

timed_hits :
    (x : BootInput) (s : System)
    → (timed x s).uart.machine.isr_test_hits ≡ s.uart.machine.isr_test_hits
unfolding pit_init pic_unmask clear_mask irq_install read write
timed_hits x s = refl

-- The states from the console on.
module _ (x : BootInput) (b : BootInfo) (i : IsInfo b) (s t u v w : System)
    (p : Later (consoled x b s) t) (q : Later (hit (hit t)) u) (n : ℕ)
    (k : Later (ticked n (timed x u)) v) (l : Later v w) where
  console-Stays : Stays (fbcon_init (framebuffer_of x b) s.console).1 w.console
  console-Stays = Stays-trans _ t.console w.console p.console (
      Stays-trans t.console u.console w.console q.console
        (Stays-trans u.console v.console w.console k.console l.console))

  console-IsInside :
      (fbcon_init (framebuffer_of x b) s.console).0 ≡ true
      → IsInside w.console
        × ((j : ℕ) → b.fb_height * (b.fb_pitch / 4) ≤ j → w.console.fb j ≡ x.pixels j)
  console-IsInside e =
      let c : Console = (fbcon_init (framebuffer_of x b) s.console).1 in
      let (inside, size, clear) =
        fbcon_init-IsInside (framebuffer_of x b) s.console c i.width i.height i.lines
          (ap (λ (ok_now : Bool). (ok_now, c)) e) in
      (
        console-Stays.inside inside,
        λ j m. console-Stays.behind inside j (omega (arith, size, m)) ∙ clear j m,
      )

  -- What is so at the end, by what was so before the console.
  reached :
      (bi : Option BootInfo) (s0 : System) (r : Running)
      → IsInput x bi s0
      → bi ≡ some b
      → Later (tables x s0) s
      → Tested x r.pmm
      → r.fb_ok ≡ (fbcon_init (framebuffer_of x b) s.console).0
      → r.system ≡ w
      → 25 ≤ n
      → IsRunning x bi s0 r
  reached bi s0 r a given o tested shown same enough = record {
    info = b;
    given = given;
    tested = tested;
    gdt = ap (λ (y : System). y.gdt) same ∙ l.gdt ∙ k.gdt ∙ q.gdt ∙ p.gdt ∙ o.gdt;
    idt = ap (λ (y : System). y.idt) same ∙ l.idt ∙ k.idt ∙ q.idt ∙ p.idt ∙ o.idt;
    hits =
        ap (λ (y : System). y.uart.machine.isr_test_hits) same
        ∙ omega (arith, l.hits, k.hits, timed_hits x u, q.hits, p.hits, o.hits);
    handler =
        ap (λ (y : System). get_or y.uart.machine.irq_handlers 0 none) same
        ∙ ap (λ hs. get_or hs 0 none) (l.handlers ∙ k.handlers)
        ∙ timed-Timed x u
            (subst (λ hs. 0 < length hs) (sym (q.handlers ∙ p.handlers ∙ o.handlers)) a.handlers);
    ticks = omega (
      arith,
      ap (λ (y : System). y.ticks) same,
      l.ticks,
      k.ticks,
      q.ticks,
      p.ticks,
      o.ticks,
      enough,
    );
    console = elim (Bool-cases (fbcon_init (framebuffer_of x b) s.console).0) [
      | inl e ↦
          let (inside, behind) = console-IsInside e in
          inr (
            subst (λ (y : System). IsInside y.console) (sym same) inside,
            λ j m. ap (λ (y : System). y.console.fb j) same ∙ behind j m,
          )
      | inr e ↦ inl (shown ∙ e)
    ];
  }

proceed_ends :
    (x : BootInput) (bi : Option BootInfo) (b : BootInfo) (m : Pmm) (s0 s : System)
    → IsInput x bi s0
    → bi ≡ some b
    → Later (tables x s0) s
    → Tested x m
    → Ends (IsRunning x bi s0) (IsTruthful x bi) (proceed x b m s)
unfolding proceed
proceed_ends x bi b m s0 s a given o tested =
    let E : Halt → Type 0 = IsTruthful x bi in
    let i : IsInfo b = a.info b given in
    Ends->>=
      (λ (r : Bool × System).
        (r.0 ≡ (fbcon_init (framebuffer_of x b) s.console).0) × Later (consoled x b s) r.1)
      _ E (start_console x b s) _ (start_console_ends E x b s i)
      (λ (fb_ok, t) (shown, p).
        Ends->>= (Later (hit (hit t))) _ E (test_interrupts x t) _ (test_interrupts_ends E x t)
          (λ u q.
            Ends->>= (λ v. (n : ℕ) × (25 ≤ n) × Later (ticked n (timed x u)) v) _ E
              (start_timer x u) _
              (start_timer_ends E x u
                (subst (λ hs. 0 < length hs) (sym (q.handlers ∙ p.handlers ∙ o.handlers))
                  a.handlers)
                (omega (arith, a.ticks, q.ticks, p.ticks, o.ticks)) (λ e. e))
              (λ v (n, enough, k).
                Ends->>= (Later v) _ E
                  (say x
                    (banner (cpu_identify x.cpuid) (usable_sum 0 x.map) fb_ok (timer_ms v.ticks)) v)
                  _
                  (say-Later E x _ v (
                    banner-IsCall (cpu_identify x.cpuid) (usable_sum 0 x.map) fb_ok v.ticks
                      (usable_sum-le x.map 0 (omega arith))))
                  (λ w l.
                    reached x b i s t u v w p q n k l bi s0
                      (record { system = w; pmm = m; fb_ok = fb_ok }) a given o tested shown refl
                      enough))))

-- Where the fields and numbers have their widths, the map is sorted, page-aligned and without
-- overlap, the bitmap of the allocator does not end at the end of memory, a line of the
-- framebuffer has room for its pixels, the table of handlers is not empty and the count of the
-- ticks does not wrap, kmain ends in one of three ways. It comes to its idle loop: the segments
-- and gates are those of gdt_init and idt_init, the allocator has at least 512 free pages and the
-- self-test has left them as they were, both software interrupts and at least 25 ticks are
-- counted, the timer's handler is installed, and where there is a framebuffer console it is inside
-- its framebuffer and the pixels behind it are as before. Or it halts with a panic whose reason is
-- so: a check of the bootinfo structure that fails, a refusal of pmm_init, or a self-test for
-- which fewer than 512 pages are free; no other panic occurs, in particular none for a timer that
-- does not tick, and no call of kprintf has a missing or mismatched argument. Or it waits without
-- end for timer interrupts, of which fewer than 25 come.
pub kmain_ends :
    (x : BootInput) (bi : Option BootInfo) (s : System)
    → IsInput x bi s
    → Ends (IsRunning x bi s) (IsTruthful x bi) (kmain x bi s)
unfolding kmain
kmain_ends x bi s0 a =
    let E : Halt → Type 0 = IsTruthful x bi in
    Ends->>= (Later s0) _ E (greet x s0) _ (greet-Later E x s0) (λ s1 p1.
      Ends->>= (λ (r : BootInfo × System). (bi ≡ some r.0) × Later s1 r.1) _ E (check_boot x bi s1)
        _ (check_boot_ends E x bi s1 a.at a.info (λ b t e. e))
        (λ (b, s2) (given, p2).
          Ends->>= (Later s2) _ E (say x (cpu_lines (cpu_identify x.cpuid)) s2) _
            (say-Later E x _ s2 (cpu_lines-IsCall x.cpuid))
            (λ s3 p3.
              Ends->>= (Later (tables x s3)) _ E (set_tables x s3) _ (set_tables_ends E x s3)
                (λ s4 p4.
                  Ends->>= (λ (r : Pmm × System). Tested x r.0 × Later s4 r.1) _ E
                    (start_memory x b s4) _
                    (start_memory_ends E x a.alloc_cycles a.free_cycles
                      (λ m t e few. (m, e, few, refl)) b s4 (a.info b given).count a.bytes a.map
                      a.inside (λ why t e. e))
                    (λ (m, s5) (tested, p5).
                      proceed_ends x bi b m s0 s5 a given
                        (Later-trans (tables x s0) (tables x s3) s5
                          (tables-Later x s0 s3
                            (Later-trans s0 s1 s3 p1 (Later-trans s1 s2 s3 p2 p3)))
                          (Later-trans (tables x s3) s4 s5 p4 p5))
                        tested)))))
