-- ===== src/Kern/Syscall.antt =====
-- jos/kern/syscall.c: the system calls, and the dispatch on their numbers. A call runs for the
-- current environment, which the source follows as `curenv` without a test.
pub mod Cputs
pub mod Perm
pub mod Printed
use sisotp.Base.{
  ℕ, ◌+◌, ◌-◌, ◌%◌, ◌^◌, Bool, true, false, not, ◌&&◌, ◌||◌, Option, none, some, ◌∷◌, ltb, leb,
  ◌==◌, if◌then◌else◌, bit_and, bit_or, is_some,
}
use sisotp.Kern.Mmu.{pgsize, pte_p, pte_w, pte_u, pte_syscall, utop, flag}
use sisotp.Kern.State.{
  Env, EnvStatus, env_runnable, env_not_runnable, Trapframe, Kernel, Error, Ret, value, error,
  e_bad_env, e_inval, e_no_mem, e_no_free_env, e_ipc_not_recv,
}
use sisotp.Kern.Monad.{
  Cmd, pure, panic, halt_with, ◌>>=◌, ◌>>◌, get, modify, assert, deref, change_env, load,
}
use sisotp.Kern.Pmap.{alloc_zero, page_alloc, page_free}
use sisotp.Kern.Vm.{page_lookup, page_insert, page_remove}
use sisotp.Kern.Env.{envid2env, env_alloc}
use sisotp.Kern.Sched.{sched_yield}
use sisotp.Kern.Exit.{user_mem_assert, env_destroy}

-- `curenv` where it is followed.
abbrev pub this : Cmd ℕ
this = do current ← get (λ k. k.curenv); deref current

-- The call `cprintf("%.*s", len, s)` is kept by its arguments; Printed has what it prints.
unfoldable pub sys_cputs : (s len : ℕ) → Cmd (Unit {0})
sys_cputs s len = do
  c ← this
  user_mem_assert c s len 0
  modify (λ k. record k { printed = (s, len) ∷ k.printed })

unfoldable pub sys_getenvid : Cmd Ret
sys_getenvid = do c ← this; id ← get (λ k. (k.envs c).env_id); pure (value id)

unfoldable pub sys_env_destroy : (envid : ℕ) → Cmd Ret
sys_env_destroy envid = do
  (r, e) ← envid2env envid true
  elim r [
    | error c ↦ pure (error c)
    | value _ ↦ (do target ← deref e; env_destroy target; pure (value 0))
  ]

unfoldable pub sys_exofork : Cmd Ret
sys_exofork = do
  c ← this
  father_id ← get (λ k. (k.envs c).env_id)
  (r, child) ← env_alloc father_id
  elim r [
    | error code ↦ pure (error code)
    | value _ ↦ (do
      e ← deref child
      tf ← get (λ k. (k.envs c).env_tf)
      change_env e (λ v. record v { env_status = env_not_runnable })
      change_env e (λ v. record v { env_tf = tf })
      change_env e (λ v. record v {
        env_tf = record v.env_tf { tf_regs = record v.env_tf.tf_regs { reg_eax = 0 } };
      })
      id ← get (λ k. (k.envs e).env_id)
      pure (value id))
  ]

-- The two statuses that a user may ask for, by their numbers.
abbrev pub settable : (status : ℕ) → Option EnvStatus
settable status =
    if status == 2 then some env_runnable else (if status == 4 then some env_not_runnable else none)

-- `if (e == NULL) return -E_BAD_ENV`.
abbrev pub or_bad_env : Option ℕ → (ℕ → Cmd Ret) → Cmd Ret
or_bad_env none f = pure (error e_bad_env)
or_bad_env (some e) f = f e

unfoldable pub sys_env_set_status : (envid status : ℕ) → Cmd Ret
sys_env_set_status envid status = elim (settable status) [
  | none ↦ pure (error e_inval)
  | some s ↦ (do
    (r, target) ← envid2env envid true
    or_bad_env target λ e. do change_env e (λ v. record v { env_status = s }); pure (value 0))
]

-- PTE_U and PTE_P must be set, and no bit outside PTE_SYSCALL.
unfoldable pub valid_perm : ℕ → Bool
valid_perm perm =
    bit_and perm pte_u == pte_u
    && bit_and perm pte_p == pte_p
    && bit_and perm (2 ^ 32 - 1 - pte_syscall) == 0

abbrev pub bad_va : ℕ → Bool
bad_va va = leb utop va || not (va % pgsize == 0)

unfoldable pub sys_page_alloc : (envid va perm : ℕ) → Cmd Ret
sys_page_alloc envid va perm = do
  (_, target) ← envid2env envid true
  or_bad_env target λ e. if bad_va va || not (valid_perm perm) then pure (error e_inval) else do
    allocated ← page_alloc alloc_zero
    elim allocated [
      | none ↦ pure (error e_no_mem)
      | some page ↦ (do
        dir ← get (λ k. (k.envs e).env_pgdir)
        pgdir ← deref dir
        r ← page_insert pgdir (some page) va perm
        elim r [ value _ ↦ pure (value 0) | error _ ↦ (do page_free page; pure (error e_no_mem)) ])
    ]

-- The result of `page_insert` as the callers of `page_map` and of the message transfer return it.
abbrev pub no_mem_or_zero : Ret → Cmd Ret
no_mem_or_zero (value _) = pure (value 0)
no_mem_or_zero (error _) = pure (error e_no_mem)

-- The part of `sys_page_map` behind the checks of its arguments.
unfoldable pub map_shared : (source srcva destination dstva perm : ℕ) → Cmd Ret
map_shared source srcva destination dstva perm = do
  src_dir ← get (λ k. (k.envs source).env_pgdir)
  src_pgdir ← deref src_dir
  (src_page, slot) ← page_lookup src_pgdir srcva
  elim slot [
    | none ↦ pure (error e_inval)
    | some place ↦ (do
      pte ← load place
      if flag perm pte_w && not (flag pte pte_w) then pure (error e_inval) else do
        dst_dir ← get (λ k. (k.envs destination).env_pgdir)
        dst_pgdir ← deref dst_dir
        r ← page_insert dst_pgdir src_page dstva perm
        no_mem_or_zero r)
  ]

unfoldable pub sys_page_map : (srcenvid srcva dstenvid dstva perm : ℕ) → Cmd Ret
sys_page_map srcenvid srcva dstenvid dstva perm = do
  (_, src) ← envid2env srcenvid true
  (_, dst) ← envid2env dstenvid true
  or_bad_env src λ source. or_bad_env dst λ destination.
      if bad_va srcva || bad_va dstva
      then pure (error e_inval)
      else (if valid_perm perm
          then map_shared source srcva destination dstva perm
          else pure (error e_inval))

unfoldable pub sys_page_unmap : (envid va : ℕ) → Cmd Ret
sys_page_unmap envid va = do
  (_, target) ← envid2env envid true
  or_bad_env target λ e. if bad_va va then pure (error e_inval) else do
    dir ← get (λ k. (k.envs e).env_pgdir)
    pgdir ← deref dir
    page_remove pgdir va
    pure (value 0)
