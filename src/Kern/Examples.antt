-- ===== src/Kern/Examples.antt =====
-- A small machine for the examples: two environments, of which the first runs and the second waits
-- for a message, and a list of two free pages. The directory of the first is page 2 with the table
-- in page 3, which maps page 4 at 0x405000; that of the second is page 12 with the empty table in
-- page 13, and it waits for a page at 0x402000.
pub mod Memory
pub mod Monitor
pub mod Spaces
pub mod Envs
pub mod Starts
pub mod Traps
pub mod Turns
pub mod Calls
pub mod Locks
pub mod Devices
use sisotp.Base.{
  ℕ, suc, ◌+◌, ◌*◌, Bool, true, false, Option, none, some, List, [], ◌∷◌, ◌==◌, if◌then◌else◌,
}
use sisotp.Kern.State.{
  PageInfo, PushRegs, Trapframe, EnvStatus, env_free, env_running, env_not_runnable, env_runnable,
  Env, Kernel,
}
use sisotp.Kern.Env.{fresh_tf}

abbrev pub two_pages : ℕ → PageInfo
two_pages p =
    if p == 5
    then record { pp_link = some 6; pp_ref = 0 }
    else (if p == 6
        then record { pp_link = none; pp_ref = 0 }
        else record { pp_link = none; pp_ref = 1 })

abbrev pub words : ℕ → ℕ → ℕ
words page i =
    if page == 2
    then (if i == 1 then 12295 else 0)
    else (if page == 3
        then (if i == 5 then 16391 else 0)
        else (if page == 12 then (if i == 1 then 53255 else 0) else 0))

abbrev pub an_env : (id : ℕ) → EnvStatus → (pgdir dstva : ℕ) → Bool → Env
an_env id status pgdir dstva recving = record {
  env_tf = fresh_tf;
  env_link = none;
  env_id = id;
  env_parent_id = 0;
  env_type = 0;
  env_status = status;
  env_runs = 0;
  env_cpunum = 0;
  env_pgdir = some pgdir;
  env_pgfault_upcall = 0;
  env_ipc_recving = recving;
  env_ipc_dstva = dstva;
  env_ipc_value = 0;
  env_ipc_from = 0;
  env_ipc_perm = 0;
}

abbrev pub two_envs : ℕ → Env
two_envs e =
    if e == 0
    then an_env 4096 env_running 2 0 false
    else (if e == 1
        then an_env 4097 env_not_runnable 12 4202496 true
        else an_env 0 env_free 0 0 false)

abbrev pub machine : Kernel
machine = record {
  npages = 4096;
  nextfree = 4031774720;
  pages = two_pages;
  page_free_list = some 5;
  mem = words;
  kern_pgdir = 1;
  mmio_base = 4018143232;
  user_mem_check_addr = 0;
  envs = two_envs;
  env_free_list = some 2;
  curenv = some 0;
  cpunum = 0;
  cr3 = 2;
  invalidated = [];
  locked = true;
  cpu_halted = false;
  printed = [];
}
