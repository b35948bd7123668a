-- ===== src/Kernel/Faults.antt =====
-- kernel/arch/x86_64/idt.c and kernel/debug/panic.c: an interrupt that nobody serves ends in a panic
-- with the whole frame.
use Prim.Native.String.{String}
use sypas.Base.{
  ℕ, ◌+◌, ◌%◌, ◌^◌, ◌≤◌, ◌<◌, ◌≡◌, List, [], ◌∷◌, get_or, get_elem?, u64_at, Bool, true, false, not,
  ◌==◌, ◌||◌, ◌++◌, some, All, u64_max, Memory, codes, ◌⊎◌,
}
use sypas.Kernel.Print.{Argument, word, text}
use sypas.Interrupts.Idt.{IsrPanic, exception, unexpected_vector}
use sypas.Kernel.Panic.{Call, InterruptFrame, ControlRegisters}
use sypas.Kernel.Prints.{Prints}
use sypas.Kernel.System.{System}

abbrev pub exception_names : List (List ℕ)
exception_names =
    codes "#DE divide error"
    ∷ codes "#DB debug"
    ∷ codes "NMI non-maskable interrupt"
    ∷ codes "#BP breakpoint"
    ∷ codes "#OF overflow"
    ∷ codes "#BR bound range exceeded"
    ∷ codes "#UD invalid opcode"
    ∷ codes "#NM device not available"
    ∷ codes "#DF double fault"
    ∷ codes "coprocessor segment overrun"
    ∷ codes "#TS invalid TSS"
    ∷ codes "#NP segment not present"
    ∷ codes "#SS stack-segment fault"
    ∷ codes "#GP general protection fault"
    ∷ codes "#PF page fault"
    ∷ codes "reserved(15)"
    ∷ codes "#MF x87 floating-point"
    ∷ codes "#AC alignment check"
    ∷ codes "#MC machine check"
    ∷ codes "#XM SIMD floating-point"
    ∷ codes "#VE virtualization"
    ∷ codes "#CP control protection"
    ∷ codes "reserved(22)"
    ∷ codes "reserved(23)"
    ∷ codes "reserved(24)"
    ∷ codes "reserved(25)"
    ∷ codes "reserved(26)"
    ∷ codes "reserved(27)"
    ∷ codes "#HV hypervisor injection"
    ∷ codes "#VC VMM communication"
    ∷ codes "#SX security"
    ∷ codes "reserved(31)"
    ∷ []

-- The reason that `isr_dispatch` gives; a read behind the array would be an empty text.
abbrev pub reason_of : IsrPanic → List ℕ
reason_of (exception vector) = get_or exception_names vector []
reason_of (unexpected_vector vector) = codes "unexpected interrupt vector"

-- What a call of `kprintf` shows: each argument of the format, with the text of the format between the
-- conversion before and its own. The first argument is whether a conversion is being read, which ends
-- at its letter, the second the text so far.
abbrev shown_in : Bool → List ℕ → List ℕ → List Argument → List (List ℕ × Argument)
shown_in conversion before [] args = []
shown_in true before (c ∷ fmt) args =
    shown_in (not (c == 115 || c == 117 || c == 120)) before fmt args
shown_in false before (c ∷ fmt) args = elim (c == 37) [
  | false ↦ shown_in false (before ++ (c ∷ [])) fmt args
  | true ↦ elim args [ [] ↦ [] | arg ∷ args' ↦ (before, arg) ∷ shown_in true [] fmt args' ]
]

abbrev pub shown : List Call → List (List ℕ × Argument)
shown [] = []
shown (c ∷ calls) = shown_in false [] c.0 c.1 ++ shown calls

abbrev entry : String → ℕ → List ℕ × Argument
entry before value = (codes before, word value)

-- What the panic is to show, each value behind its name: the reason, the registers and eight words from
-- the stack pointer on.
abbrev pub frame_values :
    IsrPanic → ControlRegisters → Memory → InterruptFrame → List (List ℕ × Argument)
frame_values why c m f =
    (codes "reason : ", text (some (reason_of why)))
    ∷ entry "vector=" f.vector
    ∷ entry " error=0x" f.error_code
    ∷ entry "RIP=" f.rip
    ∷ entry " CS=" f.cs
    ∷ entry " RFLAGS=" f.rflags
    ∷ entry "RSP=" f.rsp
    ∷ entry " SS=" f.ss
    ∷ entry "RAX=" f.rax
    ∷ entry " RBX=" f.rbx
    ∷ entry " RCX=" f.rcx
    ∷ entry "RDX=" f.rdx
    ∷ entry " RSI=" f.rsi
    ∷ entry " RDI=" f.rdi
    ∷ entry "RBP=" f.rbp
    ∷ entry " R8 =" f.r8
    ∷ entry " R9 =" f.r9
    ∷ entry "R10=" f.r10
    ∷ entry " R11=" f.r11
    ∷ entry " R12=" f.r12
    ∷ entry "R13=" f.r13
    ∷ entry " R14=" f.r14
    ∷ entry " R15=" f.r15
    ∷ entry "CR0=" c.cr0
    ∷ entry " CR2=" c.cr2
    ∷ entry "\nCR3=" c.cr3
    ∷ entry " CR4=" c.cr4
    ∷ entry " " (u64_at m ((f.rsp + 0) % 2 ^ 64))
    ∷ entry " " (u64_at m ((f.rsp + 8) % 2 ^ 64))
    ∷ entry " " (u64_at m ((f.rsp + 16) % 2 ^ 64))
    ∷ entry " " (u64_at m ((f.rsp + 24) % 2 ^ 64))
    ∷ entry " " (u64_at m ((f.rsp + 32) % 2 ^ 64))
    ∷ entry " " (u64_at m ((f.rsp + 40) % 2 ^ 64))
    ∷ entry " " (u64_at m ((f.rsp + 48) % 2 ^ 64))
    ∷ entry " " (u64_at m ((f.rsp + 56) % 2 ^ 64))
    ∷ []

-- The panic of a vector: an exception has its name in the table.
abbrev pub PanicOf : ℕ → IsrPanic → Type 0
PanicOf v why =
    ((v < 32) × (why ≡ exception v) × (get_elem? exception_names v ≡ some (reason_of why)))
    ⊎ ((48 ≤ v) × (why ≡ unexpected_vector v))

-- Registers of 64 bits.
abbrev pub IsFrame : InterruptFrame → Type 0
IsFrame f =
    All (λ v. v ≤ u64_max)
      (f.r15 ∷ f.r14 ∷ f.r13 ∷ f.r12 ∷ f.r11 ∷ f.r10 ∷ f.r9 ∷ f.r8 ∷ f.rbp ∷ f.rdi ∷ f.rsi ∷ f.rdx
        ∷ f.rcx ∷ f.rbx ∷ f.rax ∷ f.vector ∷ f.error_code ∷ f.rip ∷ f.cs ∷ f.rflags ∷ f.rsp ∷ f.ss
        ∷ [])

abbrev pub IsControl : ControlRegisters → Type 0
IsControl c = All (λ v. v ≤ u64_max) (c.cr0 ∷ c.cr2 ∷ c.cr3 ∷ c.cr4 ∷ [])
