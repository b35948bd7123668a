-- ===== src/Kernel/Panic.antt =====
-- kernel/debug/panic.c and `interrupt_frame_t` of kernel/include/kernel.h: what a panic prints, as the
-- calls of `kprintf` in their order.
use Prim.Native.String.{String}
use sypas.Base.{ℕ, zero, suc, ◌+◌, ◌*◌, ◌%◌, ◌^◌, List, [], ◌∷◌, ◌++◌, some, codes, Memory, u64_at}
use sypas.Kernel.Print.{Argument, word, text}

-- A call of `kprintf`: the format and the arguments.
abbrev pub Call : Type 0
Call = List ℕ × List Argument

abbrev pub line : String → List Argument → Call
line fmt args = (codes fmt, args)

pub record InterruptFrame : Type 0 where
  pub r15 : ℕ
  pub r14 : ℕ
  pub r13 : ℕ
  pub r12 : ℕ
  pub r11 : ℕ
  pub r10 : ℕ
  pub r9 : ℕ
  pub r8 : ℕ
  pub rbp : ℕ
  pub rdi : ℕ
  pub rsi : ℕ
  pub rdx : ℕ
  pub rcx : ℕ
  pub rbx : ℕ
  pub rax : ℕ
  pub vector : ℕ
  pub error_code : ℕ
  pub rip : ℕ
  pub cs : ℕ
  pub rflags : ℕ
  pub rsp : ℕ
  pub ss : ℕ

pub record ControlRegisters : Type 0 where
  pub cr0 : ℕ
  pub cr2 : ℕ
  pub cr3 : ℕ
  pub cr4 : ℕ

abbrev pub words : List ℕ → List Argument
words [] = []
words (v ∷ vs) = word v ∷ words vs

-- The loop over the stack, from the entry `i` on.
unfoldable pub stack_window : ℕ → ℕ → Memory → ℕ → List Call
stack_window zero i m sp = []
stack_window (suc n) i m sp =
    line " %016lx" (words (u64_at m ((sp + 8 * i) % 2 ^ 64) ∷ [])) ∷ stack_window n (i + 1) m sp

unfoldable pub dump_frame : ControlRegisters → Memory → InterruptFrame → List Call
dump_frame c m f =
    line "vector=%lu error=0x%lx\n" (words (f.vector ∷ f.error_code ∷ []))
    ∷ line "RIP=%016lx CS=%04lx RFLAGS=%016lx\n" (words (f.rip ∷ f.cs ∷ f.rflags ∷ []))
    ∷ line "RSP=%016lx SS=%04lx\n" (words (f.rsp ∷ f.ss ∷ []))
    ∷ line "RAX=%016lx RBX=%016lx RCX=%016lx\n" (words (f.rax ∷ f.rbx ∷ f.rcx ∷ []))
    ∷ line "RDX=%016lx RSI=%016lx RDI=%016lx\n" (words (f.rdx ∷ f.rsi ∷ f.rdi ∷ []))
    ∷ line "RBP=%016lx R8 =%016lx R9 =%016lx\n" (words (f.rbp ∷ f.r8 ∷ f.r9 ∷ []))
    ∷ line "R10=%016lx R11=%016lx R12=%016lx\n" (words (f.r10 ∷ f.r11 ∷ f.r12 ∷ []))
    ∷ line "R13=%016lx R14=%016lx R15=%016lx\n" (words (f.r13 ∷ f.r14 ∷ f.r15 ∷ []))
    ∷ line "CR0=%016lx CR2=%016lx\nCR3=%016lx CR4=%016lx\n"
        (words (c.cr0 ∷ c.cr2 ∷ c.cr3 ∷ c.cr4 ∷ []))
    ∷ line "stack:" []
    ∷ (stack_window 8 0 m f.rsp ++ (line "\n" [] ∷ []))

unfoldable pub panic_with_frame : List ℕ → ControlRegisters → Memory → InterruptFrame → List Call
panic_with_frame reason c m f =
    line "\n================ SYPAS KERNEL PANIC ================\n" []
    ∷ line "reason : %s\n" (text (some reason) ∷ [])
    ∷ (dump_frame c m f
        ++ (line "SYSTEM STATUS: HALTED\n" []
            ∷ line "====================================================\n" []
            ∷ []))

unfoldable pub panic : List ℕ → List Argument → List Call
panic fmt args =
    line "\n================ SYPAS KERNEL PANIC ================\n" []
    ∷ line "reason : " []
    ∷ (fmt, args)
    ∷ line "\nSYSTEM STATUS: HALTED\n" []
    ∷ line "====================================================\n" []
    ∷ []
