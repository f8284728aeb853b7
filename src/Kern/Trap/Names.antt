-- ===== src/Kern/Trap/Names.antt =====
-- jos/kern/trap.c: the names of the traps, and what `print_trapframe` prints: the formats of `cprintf` with
-- their numbers, where a text that is printed by "%s" is put in.
use sisotp.Base.{
  codes, ℕ, ◌+◌, List, [], ◌∷◌, ◌++◌, Bool, ◌&&◌, ltb, leb, ◌==◌, if◌then◌else◌, bit_and, get_or,
}
use sisotp.Kern.State.{Trapframe, PushRegs}

abbrev pub excnames : List (List ℕ)
excnames =
    codes "Divide error"
    ∷ codes "Debug"
    ∷ codes "Non-Maskable Interrupt"
    ∷ codes "Breakpoint"
    ∷ codes "Overflow"
    ∷ codes "BOUND Range Exceeded"
    ∷ codes "Invalid Opcode"
    ∷ codes "Device Not Available"
    ∷ codes "Double Fault"
    ∷ codes "Coprocessor Segment Overrun"
    ∷ codes "Invalid TSS"
    ∷ codes "Segment Not Present"
    ∷ codes "Stack Fault"
    ∷ codes "General Protection"
    ∷ codes "Page Fault"
    ∷ codes "(unknown trap)"
    ∷ codes "x87 FPU Floating-Point Error"
    ∷ codes "Alignment Check"
    ∷ codes "Machine-Check"
    ∷ codes "SIMD Floating-Point Exception"
    ∷ []

-- ARRAY_SIZE is unsigned, so a negative number is not less than it.
unfoldable pub trapname : (trapno : ℕ) → List ℕ
trapname trapno =
    if ltb trapno 20
    then get_or excnames trapno []
    else (if trapno == 48
        then codes "System call"
        else (if leb 32 trapno && ltb trapno (32 + 16)
            then codes "Hardware Interrupt"
            else codes "(unknown trap)"))

-- One call of `cprintf`.
abbrev pub Line : Type 0
Line = List ℕ × List ℕ

abbrev pub hex_line : List ℕ → ℕ → Line
hex_line format number = (format, number ∷ [])

unfoldable pub print_regs : PushRegs → List Line
print_regs r =
    hex_line (codes "  edi  0x%08x\n") r.reg_edi
    ∷ hex_line (codes "  esi  0x%08x\n") r.reg_esi
    ∷ hex_line (codes "  ebp  0x%08x\n") r.reg_ebp
    ∷ hex_line (codes "  oesp 0x%08x\n") r.reg_oesp
    ∷ hex_line (codes "  ebx  0x%08x\n") r.reg_ebx
    ∷ hex_line (codes "  edx  0x%08x\n") r.reg_edx
    ∷ hex_line (codes "  ecx  0x%08x\n") r.reg_ecx
    ∷ hex_line (codes "  eax  0x%08x\n") r.reg_eax
    ∷ []

-- The error code of a page fault, decoded.
unfoldable pub page_fault_error : (err : ℕ) → Line
page_fault_error err = (
  codes " ["
      ++ (if bit_and err 4 == 0 then codes "kernel" else codes "user")
      ++ codes ", "
      ++ (if bit_and err 2 == 0 then codes "read" else codes "write")
      ++ codes ", "
      ++ (if bit_and err 1 == 0 then codes "not-present" else codes "protection")
      ++ codes "]\n",
  [],
)

-- The frame at `tf_addr` on processor `cpunum`; `last` tells that it is `last_tf`.
unfoldable pub print_trapframe : (tf_addr cpunum rcr2 : ℕ) → (last : Bool) → Trapframe → List Line
unfolding print_regs trapname page_fault_error
print_trapframe tf_addr cpunum rcr2 last tf =
    (codes "TRAP frame at %p from CPU %d\n", tf_addr ∷ cpunum ∷ []) ∷ print_regs tf.tf_regs
    ++ hex_line (codes "  es   0x----%04x\n") tf.tf_es
      ∷ hex_line (codes "  ds   0x----%04x\n") tf.tf_ds
      ∷ hex_line (codes "  trap 0x%08x " ++ trapname tf.tf_trapno ++ codes "\n") tf.tf_trapno
      ∷ (if last && tf.tf_trapno == 14 then hex_line (codes "  cr2  0x%08x\n") rcr2 ∷ [] else [])
    ++ hex_line (codes "  err  0x%08x") tf.tf_err
      ∷ (if tf.tf_trapno == 14 then page_fault_error tf.tf_err else (codes "\n", []))
      ∷ hex_line (codes "  eip  0x%08x\n") tf.tf_eip
      ∷ hex_line (codes "  cs   0x----%04x\n") tf.tf_cs
      ∷ hex_line (codes "  flag 0x%08x\n") tf.tf_eflags
      ∷ (if bit_and tf.tf_cs 3 == 0
          then []
          else hex_line (codes "  esp  0x%08x\n") tf.tf_esp
            ∷ hex_line (codes "  ss   0x----%04x\n") tf.tf_ss
            ∷ [])
