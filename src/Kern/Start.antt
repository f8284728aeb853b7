-- ===== src/Kern/Start.antt =====
-- jos/kern/init.c: the start of the kernel on the processor of the boot, `i386_init` and `boot_aps`, and on
-- the others, `mp_main`. The devices and the kernel's state are kept apart: `i386_init` is what the
-- start does to the state, in the order of the source, and `boot_aps` what it says to the devices.
-- The clearing of the BSS, `cons_init`, `trap_init`, `lapic_init` and `pic_init` do not touch that
-- state; those that set up devices and descriptors are in Devices, Segments and Trap/Gates. The copy
-- of the entry code to MPENTRY_PADDR, the printed lines and the wait for the other processors are
-- left out.
pub mod Woken
use sisotp.Base.{ℕ, zero, suc, ◌+◌, some, ◌==◌, if◌then◌else◌}
use sisotp.Libc.Strings.{Bytes}
use sisotp.Kern.Mmu.{mpentry_paddr}
use sisotp.Kern.Monad.{Cmd, get, ◌>>=◌, ◌>>◌}
use sisotp.Kern.Env.{env_init}
use sisotp.Kern.Env.Load.{env_create}
use sisotp.Kern.Sched.{load_cr3, sched_yield}
use sisotp.Kern.Trap.{lock_kernel}
use sisotp.Kern.Boot.{mem_init}
use sisotp.Kern.Mpconfig.{Cpus, mp_init}
use sisotp.Kern.Devices as Io
use sisotp.Kern.Devices.{Dev}
use sisotp.Kern.Devices.Lapic.{lapic_startap}

-- The end of the kernel and the stacks come from the linker, `byte` is the memory with the tables of
-- the machine, and `user_contador` is the image of the program that is started three times. The type
-- ENV_TYPE_USER is 0.
unfoldable pub i386_init :
    {A : Type 0}
    → (end bootstack : ℕ) → (percpu_kstacks : ℕ → ℕ) → Bytes
    → Cpus
    → (user_contador : ℕ → ℕ) → Cmd A
unfolding mem_init env_init mp_init lock_kernel env_create
i386_init end bootstack percpu_kstacks byte cpus user_contador = do
  mem_init end bootstack percpu_kstacks
  env_init
  mp_init byte cpus
  lock_kernel
  env_create user_contador 0
  env_create user_contador 0
  env_create user_contador 0
  sched_yield

unfoldable pub mp_main : {A : Type 0} → Cmd A
unfolding load_cr3 lock_kernel
mp_main = do
  kern_pgdir ← get (λ k. k.kern_pgdir)
  load_cr3 (some kern_pgdir)
  lock_kernel
  sched_yield

-- The loop of `boot_aps` on the processors left, from `c` on, on processor `self`. The stack that is
-- set for a processor in `mpentry_kstack`, and the wait for its start, are left out.
unfoldable pub boot_each : (rounds : ℕ) → Cpus → (self c : ℕ) → Dev (Unit {0})
unfolding lapic_startap
boot_each zero cpus self c = Io.return tt
boot_each (suc rounds) cpus self c =
    let rest = boot_each rounds cpus self (c + 1) in
    if c == self then rest else Io.◌>>◌ (lapic_startap (cpus.cpu_id c) mpentry_paddr) rest

unfoldable pub boot_aps : Cpus → (self : ℕ) → Dev (Unit {0})
unfolding boot_each
boot_aps cpus self = boot_each cpus.ncpu cpus self 0
