-- ===== src/Kern/Sched.antt =====
-- jos/kern/sched.c, and `env_run` of jos/kern/env.c: the choice of the environment to run, the
-- switch to it, and the halt. Each of them ends the kernel's run.
pub mod Choice
pub mod Fair
pub mod Switch
use sisotp.Base.{
  ℕ, zero, suc, ◌+◌, ◌%◌, ◌^◌, Bool, true, false, ◌||◌, Option, none, some, ◌==◌, if◌then◌else◌,
}
use sisotp.Kern.State.{
  Env, EnvStatus, env_free, env_dying, env_runnable, env_running, env_not_runnable, Kernel, nenv,
}
use sisotp.Kern.Monad.{
  Cmd, pure, panic, user, halted, monitor, halt_with, ◌>>=◌, ◌>>◌, get, modify, assert, deref,
  change_env,
}
use sisotp.Kern.Env.{has_status, status_code}

-- `unlock_kernel`: with DEBUG_SPINLOCK it panics if this processor does not hold the lock.
unfoldable pub unlock_kernel : Cmd (Unit {0})
unlock_kernel = do
  held ← get (λ k. k.locked)
  assert held
  modify (λ k. record k { locked = false })

-- `if (curenv && curenv->env_status == ENV_RUNNING) curenv->env_status = ENV_RUNNABLE`.
unfoldable pub release_current : Option ℕ → Cmd (Unit {0})
release_current none = pure tt
release_current (some c) = do
  e ← get (λ k. k.envs c)
  if has_status env_running e
      then change_env c (λ v. record v { env_status = env_runnable })
      else pure tt

-- `lcr3(PADDR(pgdir))`: PADDR panics at a NULL pointer.
unfoldable pub load_cr3 : Option ℕ → Cmd (Unit {0})
load_cr3 none = halt_with panic
load_cr3 (some pgdir) = modify (λ k. record k { cr3 = pgdir })

-- `env_pop_tf` records the processor and leaves for user mode; here for the registers of `e`.
unfoldable pub env_pop_tf : {A : Type 0} → (e : ℕ) → Cmd A
env_pop_tf e = do
  cpu ← get (λ k. k.cpunum)
  change_env e (λ v. record v { env_cpunum = cpu })
  halt_with (user e)

unfoldable pub env_run : {A : Type 0} → (e : ℕ) → Cmd A
unfolding release_current load_cr3 unlock_kernel env_pop_tf
env_run e = do
  current ← get (λ k. k.curenv)
  release_current current
  next ← get (λ k. k.envs e)
  assert (has_status env_runnable next)
  modify (λ k. record k { curenv = some e })
  change_env e (λ v. record v { env_status = env_running; env_runs = (v.env_runs + 1) % 2 ^ 32 })
  pgdir ← get (λ k. (k.envs e).env_pgdir)
  load_cr3 pgdir
  unlock_kernel
  env_pop_tf e

abbrev pub is_live : Env → Bool
is_live e = has_status env_runnable e || has_status env_running e || has_status env_dying e

-- Whether the first loop of `sched_halt` breaks.
unfoldable pub any_live : (ℕ → Env) → (rounds i : ℕ) → Bool
any_live envs zero i = false
any_live envs (suc rounds) i = is_live (envs i) || any_live envs rounds (i + 1)

unfoldable pub sched_halt : {A : Type 0} → Cmd A
unfolding load_cr3 unlock_kernel
sched_halt = do
  envs ← get (λ k. k.envs)
  if any_live envs nenv 0
      then (do
        modify (λ k. record k { curenv = none })
        kern_pgdir ← get (λ k. k.kern_pgdir)
        load_cr3 (some kern_pgdir)
        modify (λ k. record k { cpu_halted = true })
        unlock_kernel
        halt_with halted)
      else halt_with monitor

-- The search of `sched_yield`: `pos` is `actual + i`.
unfoldable pub find_runnable : (ℕ → Env) → (rounds pos : ℕ) → Option ℕ
find_runnable envs zero pos = none
find_runnable envs (suc rounds) pos =
    let rest = find_runnable envs rounds (pos + 1) in
    if has_status env_runnable (envs (pos % nenv)) then some (pos % nenv) else rest

-- `actual + 1`, where `actual` is the index of the current environment, or -1.
abbrev pub first_pos : Option ℕ → ℕ
first_pos none = 0
first_pos (some c) = c + 1

-- What follows a search that found nothing.
unfoldable pub rerun_or_halt : {A : Type 0} → Option ℕ → Cmd A
rerun_or_halt none = sched_halt
rerun_or_halt (some c) = do
  e ← get (λ k. k.envs c)
  if has_status env_running e then env_run c else sched_halt

unfoldable pub sched_yield : {A : Type 0} → Cmd A
unfolding rerun_or_halt
sched_yield = do
  current ← get (λ k. k.curenv)
  found ← get (λ k. find_runnable k.envs nenv (first_pos current))
  elim found [ some e ↦ env_run e | none ↦ rerun_or_halt current ]
