-- ===== src/Kern/Env.antt =====
-- jos/kern/env.c: the table of environments, their address spaces, and the switch to one of them.
pub mod Ident
pub mod Init
pub mod Load
use sisotp.Base.{
  ℕ, zero, suc, ◌+◌, ◌-◌, ◌*◌, ◌/◌, ◌%◌, ◌^◌, Bool, true, false, not, ◌&&◌, ◌||◌, Option, none,
  some, ltb, leb, ◌==◌, if◌then◌else◌, bit_and, bit_or, is_some, update,
}
use sisotp.Kern.Mmu.{
  pgsize, ptsize, pte_p, pte_w, pte_u, pte_mapped, utop, uvpt, vga_user, ustacktop, pgnum, pdx, ptx,
  pte_addr, pgaddr, flag, roundup, rounddown,
}
use sisotp.Kern.State.{
  Env, EnvStatus, env_free, env_dying, env_runnable, env_running, env_not_runnable, Trapframe,
  PushRegs, Kernel, Ret, value, error, e_bad_env, e_no_mem, e_no_free_env, nenv,
}
use sisotp.Kern.Monad.{
  Cmd, pure, stop, panic, user, halt_with, ◌>>=◌, ◌>>◌, get, modify, assert, deref, change_env,
  load, store, copy_page,
}
use sisotp.Kern.Pmap.{
  alloc_zero, page_alloc, page2kva, page2pa, pa2page, page_incref, page_decref, kaddr,
}
use sisotp.Kern.Vm.{page_insert, page_remove}

abbrev pub status_code : EnvStatus → ℕ
status_code env_free = 0
status_code env_dying = 1
status_code env_runnable = 2
status_code env_running = 3
status_code env_not_runnable = 4

abbrev pub has_status : EnvStatus → Env → Bool
has_status s e = status_code e.env_status == status_code s

-- ENVX(envid).
unfoldable pub envx : ℕ → ℕ
envx envid = bit_and envid (nenv - 1)

abbrev pub is_env : ℕ → Option ℕ → Bool
is_env e none = false
is_env e (some c) = e == c

-- The last test of `envid2env`: NULL is followed if there is no current environment.
unfoldable pub check_parent : ℕ → Cmd (Ret × Option ℕ)
check_parent e = do
  current ← get (λ k. k.curenv)
  if is_env e current then pure (value 0, some e) else do
    c ← deref current
    parent ← get (λ k. (k.envs e).env_parent_id)
    id ← get (λ k. (k.envs c).env_id)
    if parent == id then pure (value 0, some e) else pure (error e_bad_env, none)

-- The result, and what is stored in `*env_store`.
unfoldable pub envid2env : (envid : ℕ) → (checkperm : Bool) → Cmd (Ret × Option ℕ)
unfolding check_parent
envid2env envid checkperm =
    if envid == 0 then (do current ← get (λ k. k.curenv); pure (value 0, current)) else do
      e ← get (λ k. k.envs (envx envid))
      if has_status env_free e || not (e.env_id == envid)
          then pure (error e_bad_env, none)
          else (if checkperm then check_parent (envx envid) else pure (value 0, some (envx envid)))

-- The loop of `env_init`, on the entries left before the last.
unfoldable pub env_init_loop : (rounds i : ℕ) → Cmd (Unit {0})
env_init_loop zero i = pure tt
env_init_loop (suc rounds) i = do
  change_env i (λ e. record e { env_status = env_free; env_id = 0; env_link = some (i + 1) })
  env_init_loop rounds (i + 1)

unfoldable pub env_init : Cmd (Unit {0})
unfolding env_init_loop
env_init = do
  env_init_loop (nenv - 1) 0
  change_env (nenv - 1) (λ e. record e { env_status = env_free; env_id = 0 })
  modify (λ k. record k { env_free_list = some 0 })

abbrev pub vga_physaddr : ℕ
vga_physaddr = 0xb8000

abbrev is_zero : Ret → Bool
is_zero (value n) = n == 0
is_zero (error e) = false

unfoldable pub env_setup_vm_page : (e p : ℕ) → Cmd Ret
unfolding page2kva pa2page page_incref page_insert page2pa pdx
env_setup_vm_page e p = do
  pgdir ← page2kva p
  change_env e (λ v. record v { env_pgdir = some pgdir })
  kern_pgdir ← get (λ k. k.kern_pgdir)
  copy_page pgdir kern_pgdir
  page_incref p
  store (pgdir, pdx uvpt) (bit_or (bit_or (page2pa pgdir) pte_p) pte_u)
  page ← pa2page vga_physaddr
  r ← page_insert pgdir (some page) vga_user (bit_or (bit_or (bit_or pte_p pte_u) pte_w) pte_mapped)
  assert (is_zero r)
  pure (value 0)

unfoldable pub env_setup_vm : (e : ℕ) → Cmd Ret
unfolding page_alloc env_setup_vm_page
env_setup_vm e = do
  p ← page_alloc alloc_zero
  elim p [ none ↦ pure (error e_no_mem) | some p ↦ env_setup_vm_page e p ]

abbrev pub zero_regs : PushRegs
zero_regs = record {
  reg_edi = 0;
  reg_esi = 0;
  reg_ebp = 0;
  reg_oesp = 0;
  reg_ebx = 0;
  reg_edx = 0;
  reg_ecx = 0;
  reg_eax = 0;
}

-- The registers of a new environment: zero but for the user's segments (GD_UD | 3, GD_UT | 3), the
-- top of the stack, and the interrupt flag FL_IF.
abbrev pub fresh_tf : Trapframe
fresh_tf = record {
  tf_regs = zero_regs;
  tf_es = 0x23;
  tf_ds = 0x23;
  tf_trapno = 0;
  tf_err = 0;
  tf_eip = 0;
  tf_cs = 0x1b;
  tf_eflags = 0x200;
  tf_esp = ustacktop;
  tf_ss = 0x23;
}

abbrev pub envgenshift : ℕ
envgenshift = 12

-- The identifier that follows `env_id` in slot `e`. The sum is in int32_t, and a generation that
-- is not positive starts anew.
unfoldable pub next_env_id : (env_id e : ℕ) → ℕ
next_env_id env_id e =
    let generation = bit_and ((env_id + 2 ^ envgenshift) % 2 ^ 32) (2 ^ 32 - nenv) in
    bit_or (if generation == 0 || leb (2 ^ 31) generation then 2 ^ envgenshift else generation) e

unfoldable pub env_alloc_commit : (e parent_id : ℕ) → Cmd (Ret × Option ℕ)
unfolding next_env_id
env_alloc_commit e parent_id = do
  change_env e (λ v. record v { env_id = next_env_id v.env_id e })
  change_env e (λ v. record v {
    env_parent_id = parent_id;
    env_type = 0;
    env_status = env_runnable;
    env_runs = 0;
    env_tf = fresh_tf;
    env_pgfault_upcall = 0;
    env_ipc_recving = false;
  })
  link ← get (λ k. (k.envs e).env_link)
  modify (λ k. record k { env_free_list = link })
  pure (value 0, some e)

-- The result, and on success the new environment, which is stored in `*newenv_store`.
unfoldable pub env_alloc : (parent_id : ℕ) → Cmd (Ret × Option ℕ)
unfolding env_setup_vm env_alloc_commit
env_alloc parent_id = do
  head ← get (λ k. k.env_free_list)
  elim head [
    | none ↦ pure (error e_no_free_env, none)
    | some e ↦ (do
      r ← env_setup_vm e
      elim r [ value _ ↦ env_alloc_commit e parent_id | error c ↦ pure (error c, none) ])
  ]
