-- ===== src/Kern/Trap.antt =====
-- jos/kern/trap.c: a trap, from the entry to the switch that ends it.
pub mod Gates
pub mod Names
pub mod Return
use sisotp.Base.{ℕ, true, false, not, Option, none, some, ◌==◌, if◌then◌else◌, bit_and}
use sisotp.Kern.State.{env_dying, env_running, Trapframe, Ret, word}
use sisotp.Kern.Monad.{Cmd, pure, panic, halt_with, ◌>>=◌, ◌>>◌, get, modify, assert, change_env}
use sisotp.Kern.Env.{has_status}
use sisotp.Kern.Sched.{env_run, sched_yield}
use sisotp.Kern.Exit.{free_env, env_destroy}
use sisotp.Kern.Syscall.{this}
use sisotp.Kern.Ipc.{syscall}

-- `lock_kernel`, once the lock is free: with DEBUG_SPINLOCK it panics if this processor holds it.
unfoldable pub lock_kernel : Cmd (Unit {0})
lock_kernel = do
  held ← get (λ k. k.locked)
  assert (not held)
  modify (λ k. record k { locked = true })

-- The fault address is only printed.
unfoldable pub page_fault_handler : Trapframe → Cmd (Unit {0})
page_fault_handler tf =
    if bit_and tf.tf_cs 0x3 == 0 then halt_with panic else do c ← this; env_destroy c

-- `tf->tf_regs.reg_eax = r`, where the frame is the one saved in an environment, or the one on the
-- stack of the kernel, of which nothing is left when `trap` ends.
abbrev pub set_eax : (saved : Option ℕ) → Ret → Cmd (Unit {0})
set_eax none r = pure tt
set_eax (some c) r = change_env c (λ v. record v {
  env_tf = record v.env_tf { tf_regs = record v.env_tf.tf_regs { reg_eax = word r } };
})

-- The system call of the trap frame. What `cons_getc` would return is `cgetc`, and its effect on
-- the input buffer, which is no part of this state, is left out.
unfoldable pub dispatch_syscall : (cgetc : ℕ) → (saved : Option ℕ) → Trapframe → Cmd (Unit {0})
dispatch_syscall cgetc saved tf = do
  r ←
      syscall cgetc tf.tf_regs.reg_eax tf.tf_regs.reg_edx tf.tf_regs.reg_ecx tf.tf_regs.reg_ebx
        tf.tf_regs.reg_edi tf.tf_regs.reg_esi
  set_eax saved r

-- T_BRKPT 3, T_PGFLT 14, T_SYSCALL 48, IRQ_OFFSET + IRQ_SPURIOUS 39, IRQ_OFFSET + IRQ_TIMER 32.
-- `monitor` and the printing of the frame change nothing here.
unfoldable pub trap_dispatch : (cgetc : ℕ) → (saved : Option ℕ) → Trapframe → Cmd (Unit {0})
trap_dispatch cgetc saved tf =
    if tf.tf_trapno == 3
    then pure tt
    else (if tf.tf_trapno == 14
        then page_fault_handler tf
        else (if tf.tf_trapno == 48
            then dispatch_syscall cgetc saved tf
            else (if tf.tf_trapno == 39
                then pure tt
                else (if tf.tf_trapno == 32
                    then sched_yield
                    else (if tf.tf_cs == 0x08
                        then halt_with panic
                        else (do d ← this; env_destroy d))))))

-- The end of `trap`.
unfoldable pub leave_trap : {A : Type 0} → Option ℕ → Cmd A
leave_trap none = sched_yield
leave_trap (some c) = do
  e ← get (λ k. k.envs c)
  if has_status env_running e then env_run c else sched_yield

-- The end of `trap`, from the dispatch on.
abbrev pub handle : {A : Type 0} → (cgetc : ℕ) → (saved : Option ℕ) → Trapframe → Cmd A
handle cgetc saved tf = do
  trap_dispatch cgetc saved tf
  after ← get (λ k. k.curenv)
  leave_trap after

-- The part of `trap` for a trap from user mode, and what follows it.
unfoldable pub trap_user : {A : Type 0} → (cgetc : ℕ) → Trapframe → Cmd A
unfolding lock_kernel trap_dispatch leave_trap
trap_user cgetc tf = do
  lock_kernel
  current ← get (λ k. k.curenv)
  elim current [
    | none ↦ halt_with panic
    | some c ↦ (do
      e ← get (λ k. k.envs c)
      if has_status env_dying e
          then (do free_env c; modify (λ k. record k { curenv = none }); sched_yield)
          else (do change_env c (λ v. record v { env_tf = tf }); handle cgetc (some c) tf))
  ]

-- `xchg(&thiscpu->cpu_status, CPU_STARTED) == CPU_HALTED`, and the lock taken again if it is so.
unfoldable pub wake : Cmd (Unit {0})
unfolding lock_kernel
wake = do
  halted ← get (λ k. k.cpu_halted)
  modify (λ k. record k { cpu_halted = false })
  if halted then lock_kernel else pure tt

-- `trap` with the registers `tf`. No processor has called `panic`, and the gates leave interrupts off.
unfoldable pub trap : {A : Type 0} → (cgetc : ℕ) → Trapframe → Cmd A
unfolding wake trap_user
trap cgetc tf = do
  wake
  if bit_and tf.tf_cs 3 == 3 then trap_user cgetc tf else handle cgetc none tf
