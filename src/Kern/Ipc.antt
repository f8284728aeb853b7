-- ===== src/Kern/Ipc.antt =====
-- jos/kern/syscall.c: the calls that pass a message, and `syscall`, which picks the call by its
-- number.
pub mod Message
pub mod Transfer
use sisotp.Base.{
  ℕ, ◌+◌, ◌-◌, ◌%◌, ◌^◌, Bool, true, false, not, ◌&&◌, ◌||◌, Option, none, some, ltb, ◌==◌,
  if◌then◌else◌, bit_and, bit_or, is_some,
}
use sisotp.Kern.Mmu.{pgsize, pte_p, pte_w, pte_u, pte_syscall, utop, flag}
use sisotp.Kern.State.{
  Env, env_runnable, env_not_runnable, Trapframe, PushRegs, Kernel, Error, Ret, value, error,
  e_bad_env, e_inval, e_no_mem, e_ipc_not_recv,
}
use sisotp.Kern.Monad.{
  Cmd, pure, panic, halt_with, ◌>>=◌, ◌>>◌, get, modify, assert, deref, change_env, load,
}
use sisotp.Kern.Vm.{page_lookup, page_insert}
use sisotp.Kern.Env.{envid2env}
use sisotp.Kern.Sched.{sched_yield}
use sisotp.Kern.Syscall.{
  this, sys_cputs, sys_getenvid, sys_env_destroy, sys_exofork, sys_env_set_status, sys_page_alloc,
  sys_page_map, sys_page_unmap,
}

-- The condition under which a page may not be sent; `pte` is the word at `pteaddr`.
unfoldable pub bad_transfer : (srcva pte perm : ℕ) → Bool
bad_transfer srcva pte perm =
    not (srcva % pgsize == 0)
    || flag perm pte_w && not (flag pte pte_w)
    || not (flag perm (bit_or pte_u pte_p))
    || not (bit_and perm (2 ^ 32 - 1 - pte_syscall) == 0)

-- `page_insert` into the target, behind the checks.
unfoldable pub insert_sent : (target dstva perm : ℕ) → Option ℕ → Cmd Ret
insert_sent target dstva perm srcpg = do
  assert (dstva % pgsize == 0)
  dst_dir ← get (λ k. (k.envs target).env_pgdir)
  dst_pgdir ← deref dst_dir
  r ← page_insert dst_pgdir srcpg dstva perm
  elim r [
    | error _ ↦ pure (error e_no_mem)
    | value _ ↦ (do change_env target (λ v. record v { env_ipc_perm = perm }); pure (value 0))
  ]

-- The transfer of the page at `srcva` of the current environment `c`.
unfoldable pub send_page : (c target srcva dstva perm : ℕ) → Cmd Ret
send_page c target srcva dstva perm = do
  src_dir ← get (λ k. (k.envs c).env_pgdir)
  src_pgdir ← deref src_dir
  (srcpg, slot) ← page_lookup src_pgdir srcva
  elim slot [
    | none ↦ pure (error e_inval)
    | some place ↦ (do
      pte ← load place
      if bad_transfer srcva pte perm
          then pure (error e_inval)
          else insert_sent target dstva perm srcpg)
  ]

-- The delivery, once the page has been transferred or was not asked for.
unfoldable pub deliver : (c target value_ : ℕ) → Cmd Ret
deliver c target value_ = do
  from ← get (λ k. (k.envs c).env_id)
  change_env target (λ v. record v {
    env_ipc_recving = false;
    env_ipc_from = from;
    env_ipc_value = value_;
    env_tf = record v.env_tf { tf_regs = record v.env_tf.tf_regs { reg_eax = 0 } };
    env_status = env_runnable;
  })
  pure (value 0)

-- `target` is receiving.
unfoldable pub send_to : (c target value_ srcva perm : ℕ) → Cmd Ret
send_to c target value_ srcva perm = do
  change_env target (λ v. record v { env_ipc_perm = 0 })
  dstva ← get (λ k. (k.envs target).env_ipc_dstva)
  if ltb srcva utop && ltb dstva utop
      then (do
        r ← send_page c target srcva dstva perm
        elim r [ error code ↦ pure (error code) | value _ ↦ deliver c target value_ ])
      else deliver c target value_

unfoldable pub sys_ipc_try_send : (envid value_ srcva perm : ℕ) → Cmd Ret
sys_ipc_try_send envid value_ srcva perm = do
  (r, found) ← envid2env envid false
  elim r [
    | error _ ↦ pure (error e_bad_env)
    | value _ ↦ (do
      target ← deref found
      receiving ← get (λ k. (k.envs target).env_ipc_recving)
      if not receiving
          then pure (error e_ipc_not_recv)
          else do c ← this; send_to c target value_ srcva perm)
  ]

unfoldable pub sys_ipc_recv : (dstva : ℕ) → Cmd Ret
sys_ipc_recv dstva =
    if ltb dstva utop && not (dstva % pgsize == 0) then pure (error e_inval) else do
      c ← this
      change_env c (λ v. record v {
        env_ipc_dstva = dstva;
        env_ipc_recving = true;
        env_status = env_not_runnable;
      })
      sched_yield

-- The numbers of inc/syscall.h. `cgetc` is the character that `cons_getc` returns.
unfoldable pub syscall : (cgetc syscallno a1 a2 a3 a4 a5 : ℕ) → Cmd Ret
syscall cgetc syscallno a1 a2 a3 a4 a5 =
    if syscallno == 0
    then (do sys_cputs a1 a2; pure (value 0))
    else (if syscallno == 1
        then pure (value cgetc)
        else (if syscallno == 2
            then sys_getenvid
            else (if syscallno == 3
                then sys_env_destroy a1
                else (if syscallno == 10
                    then sched_yield
                    else (if syscallno == 7
                        then sys_exofork
                        else (if syscallno == 8
                            then sys_env_set_status a1 a2
                            else (if syscallno == 4
                                then sys_page_alloc a1 a2 a3
                                else (if syscallno == 5
                                    then sys_page_map a1 a2 a3 a4 a5
                                    else (if syscallno == 6
                                        then sys_page_unmap a1 a2
                                        else (if syscallno == 11
                                            then sys_ipc_try_send a1 a2 a3 a4
                                            else (if syscallno == 12
                                                then sys_ipc_recv a1
                                                else pure (error e_inval))))))))))))
