-- ===== src/Kernel/Tests.antt =====
-- kernel/debug/kprintf.c and kernel/main.c: runs, and the theorems at concrete arguments.
use sypas.Base.{
  codes, some, byte_test, ◌+◌, ◌*◌, ◌/◌, ◌==◌, ◌||◌, get_elem?, replicate, ℕ, ◌-◌, ◌≡◌, refl, arith,
  true, false, List, [], ◌∷◌, some, ok, err, ◌^◌, ◌⊎◌, inr, if◌then◌else◌,
}
use sypas.Kernel.Print.{
  console_register, call_sinks, emit, emit_str, digit, digits_from, repeat, emit_uint, Argument,
  word, no_argument, past_end, overflow, next_word, next_text, read_zero, read_width, read_longs,
  read_spec, signed, convert, print_from, kvprintf,
}
use sypas.Kernel.Digits.{value_from, IsPadded, emit_uint-IsPadded}
use sypas.Interrupts.Idt.{IdtEntry, idt_init}
use sypas.Interrupts.Gates.{target}
use sypas.Kernel.Gdt.{GdtEntry, gdt_init, IsKernelCode, idt_init-gdt_init}
use sypas.Kernel.Cpu.{
  Registers, family_of, model_of, has_bit, brand_of, cpu_identify, Signature, packed,
  cpu_identify-packed,
}
use sypas.Interrupts.Pic.{Device, write, read}
use sypas.Kernel.Serial.{com1, Uart, set_up, serial_init, wait_empty, send, serial_putc}
use sypas.Kernel.Sent.{on_port, Sends, crlf, put_all}
use sypas.Kernel.Wire.{kprintf-Sends}
use sypas.Kernel.System.{System, Hardware, serial, framebuffer, kprintf}
use sypas.Kernel.Printed.{kvprintf-Sound}

program : Unit {0}
unfolding console_register call_sinks emit emit_str digit digits_from repeat emit_uint next_word
    next_text read_zero read_width read_longs read_spec signed convert print_from kvprintf
program = tt

-- "a=%d %08lx" with -5 and 0xbeef
abbrev format : List ℕ
format = 97 ∷ 61 ∷ 37 ∷ 100 ∷ 32 ∷ 37 ∷ 48 ∷ 56 ∷ 108 ∷ 120 ∷ []

abbrev arguments : List Argument
arguments = word (2 ^ 32 - 5) ∷ word 0xbeef ∷ []

kvprintf_run :
    kvprintf format arguments
    ≡ ok (97 ∷ 61 ∷ 45 ∷ 53 ∷ 32 ∷ 48 ∷ 48 ∷ 48 ∷ 48 ∷ 98 ∷ 101 ∷ 101 ∷ 102 ∷ [])
unfolding program
kvprintf_run = refl

-- The least 64-bit number: "%ld".
kvprintf_least :
    kvprintf (37 ∷ 108 ∷ 100 ∷ []) (word (2 ^ 63) ∷ [])
    ≡ ok (
        45 ∷ 57 ∷ 50 ∷ 50 ∷ 51 ∷ 51 ∷ 55 ∷ 50 ∷ 48 ∷ 51 ∷ 54 ∷ 56 ∷ 53 ∷ 52 ∷ 55 ∷ 55 ∷ 53 ∷ 56 ∷ 48
        ∷ 56 ∷ [])
unfolding program
kvprintf_least = refl

-- A format that ends with "%", and one with no argument for "%s".
kvprintf_errors :
    (kvprintf (97 ∷ 37 ∷ []) [] ≡ err past_end) × (kvprintf (37 ∷ 115 ∷ []) [] ≡ err no_argument)
unfolding program
kvprintf_errors = (refl, refl)

-- A width that is not an int: "%2147483648u"; and the last one that is.
kvprintf_overflow :
    (kvprintf (codes "%2147483648u") (word 1 ∷ []) ≡ err overflow)
    × (read_width 0 (codes "2147483647u") ≡ some (2147483647, 117 ∷ []))
unfolding program
kvprintf_overflow = (refl, refl)

-- Four sinks at most.
register_run :
    (console_register 5 (record { sinks = 1 ∷ 2 ∷ 3 ∷ 4 ∷ []; calls = [] })).sinks
    ≡ 1 ∷ 2 ∷ 3 ∷ 4 ∷ []
unfolding program
register_run = refl

emit_run :
    (emit_str (97 ∷ 98 ∷ []) (record { sinks = 1 ∷ 2 ∷ []; calls = [] })).calls
    ≡ (2, 98) ∷ (1, 98) ∷ (2, 97) ∷ (1, 97) ∷ []
unfolding program
emit_run = refl

emit_uint-IsPadded_example :
    (cs : List ℕ) × (emit_uint 0xbeef 16 false 8 true ≡ some cs)
    × IsPadded 0xbeef 16 8 (if true then 48 else 32) cs
    × (true ≡ true → value_from 16 0 cs ≡ 0xbeef)
emit_uint-IsPadded_example = emit_uint-IsPadded 0xbeef 16 false 8 true (omega arith) (inr refl)

kvprintf-Sound_example :
    ((cs : List ℕ) × (kvprintf format arguments ≡ ok cs))
    ⊎ (kvprintf format arguments ≡ err no_argument)
    ⊎ (kvprintf format arguments ≡ err past_end)
    ⊎ (kvprintf format arguments ≡ err overflow)
kvprintf-Sound_example = kvprintf-Sound format arguments (omega arith)

abbrev empty_gate : IdtEntry
empty_gate = record {
  offset_lo = 0;
  selector = 0;
  ist = 0;
  type_attr = 0;
  offset_mid = 0;
  offset_hi = 0;
  zero = 0;
}

abbrev empty_entry : GdtEntry
empty_entry = record { limit_lo = 0; base_lo = 0; base_mid = 0; access = 0; gran = 0; base_hi = 0 }

abbrev stubs : ℕ → ℕ
stubs vec = 0xffffffff80100000 + 16 * vec

idt_init-gdt_init_example :
    (g : IdtEntry) × (get_elem? (idt_init stubs (replicate 256 empty_gate)) 14 ≡ some g)
    × (target g ≡ stubs 14)
    × ((e : GdtEntry) × (get_elem?
            (gdt_init (empty_entry ∷ empty_entry ∷ empty_entry ∷ []))
            (g.selector / 8)
          ≡ some e)
        × IsKernelCode e)
idt_init-gdt_init_example =
    idt_init-gdt_init stubs (replicate 256 empty_gate)
      (empty_entry ∷ empty_entry ∷ empty_entry ∷ []) 14 refl refl (omega arith) (omega arith)

-- Family 6, model 0x9e.
abbrev signature : Signature
signature = record {
  stepping = 10;
  model = 14;
  family = 6;
  type = 0;
  ext_model = 9;
  ext_family = 0;
}

abbrev processor : ℕ → Registers
processor leaf = record {
  eax = if leaf == 1 then packed signature else leaf;
  ebx = 0;
  ecx = 0;
  edx = 2 ^ 26;
}

cpu_identify_run :
    ((cpu_identify processor).model ≡ 0x9e)
    × ((cpu_identify processor).has_sse2 ≡ true)
    × ((cpu_identify processor).has_tsc ≡ false)
    × ((cpu_identify processor).has_1gb_pages ≡ false)
unfolding cpu_identify family_of model_of has_bit brand_of
cpu_identify_run = (refl, refl, refl, refl)

cpu_identify-packed_example :
    ((cpu_identify processor).stepping ≡ signature.stepping)
    × ((cpu_identify processor).family
        ≡ (if signature.family == 15 then 15 + signature.ext_family else signature.family))
    × ((cpu_identify processor).model ≡ (
        if signature.family == 6 || signature.family == 15
        then signature.ext_model * 16 + signature.model
        else signature.model))
cpu_identify-packed_example =
    cpu_identify-packed processor signature
      (record {
        stepping_small = omega arith;
        model_small = omega arith;
        family_small = omega arith;
        type_small = omega arith;
        ext_model_small = omega arith;
        ext_family_small = omega arith;
      })
      refl

-- A port in working order: both probes are given back, and it is ready at once.
abbrev working : Device
working es p = if p == 0x3ff then 0x5a else if p == 0x3f8 then 0xa5 else 0x20

abbrev off : Uart
off = record {
  present = false;
  machine = record { events = []; spurious_irqs = 0; irq_handlers = []; isr_test_hits = 0 };
}

serial_run :
    ((serial_init working off).0 ≡ true)
    × (on_port com1
          (put_all working (72 ∷ 105 ∷ 10 ∷ []) (serial_init working off).1).machine.events
        ≡ 1 ∷ 0xa5 ∷ 72 ∷ 105 ∷ 13 ∷ 10 ∷ [])
unfolding serial_init set_up wait_empty send serial_putc write read byte_test
serial_run = (refl, refl)

abbrev ported : System
ported = record {
  uart = (serial_init working off).1;
  console = record {
    fb = λ i. 0;
    fb_width = 0;
    fb_height = 0;
    fb_pitch32 = 0;
    fb_format = 0;
    cols = 0;
    rows = 0;
    cur_col = 0;
    cur_row = 0;
    fg = 0;
    bg = 0;
    ready = false;
  };
  sinks = serial ∷ framebuffer ∷ [];
  gdt = [];
  idt = [];
  ticks = 0;
}

abbrev printed : List ℕ
printed = 97 ∷ 61 ∷ 45 ∷ 53 ∷ 32 ∷ 48 ∷ 48 ∷ 48 ∷ 48 ∷ 98 ∷ 101 ∷ 101 ∷ 102 ∷ []

abbrev both_sinks : Hardware
both_sinks = record { device = working; font = λ ch gy. 0 }

kprintf-Sends_example :
    (t : System) × (kprintf both_sinks (format, arguments) ported ≡ ok t)
    × ((((serial_init working off).0 ≡ true)
          × Sends (200002 * 13) ported.uart.machine (crlf printed) t.uart.machine)
        ⊎ (((serial_init working off).0 ≡ false) × (t.uart ≡ ported.uart)))
kprintf-Sends_example =
    kprintf-Sends both_sinks (framebuffer ∷ []) off ported format printed arguments refl refl
      (record { sinks = refl; others = (refl, tt) }) kvprintf_run (omega arith)
