-- ===== src/Kern/Exit.antt =====
-- jos/kern/env.c, the end of an environment: `env_free`, `env_destroy`; and `user_mem_assert` of
-- jos/kern/pmap.c, which destroys an environment that passes a bad pointer.
use sisotp.Base.{ℕ, zero, suc, ◌+◌, not, ◌&&◌, none, some, if◌then◌else◌, bit_or}
use sisotp.Kern.Mmu.{pte_p, pte_u, utop, pdx, pte_addr, pgaddr, flag}
use sisotp.Kern.State.{env_free, env_dying, env_running, value, error}
use sisotp.Kern.Monad.{Cmd, pure, ◌>>=◌, ◌>>◌, get, modify, deref, change_env, load, store}
use sisotp.Kern.Pmap.{kaddr, pa2page, page_decref, page2pa}
use sisotp.Kern.Vm.{page_remove, user_mem_check}
use sisotp.Kern.Env.{has_status, is_env}
use sisotp.Kern.Sched.{sched_yield, load_cr3}

-- "unmap all PTEs in this page table": the loop over `pteno`.
unfoldable pub unmap_ptes : (pgdir pdeno pt rounds pteno : ℕ) → Cmd (Unit {0})
unmap_ptes pgdir pdeno pt zero pteno = pure tt
unmap_ptes pgdir pdeno pt (suc rounds) pteno = do
  pte ← load (pt, pteno)
  if flag pte pte_p then page_remove pgdir (pgaddr pdeno pteno 0) else pure tt
  unmap_ptes pgdir pdeno pt rounds (pteno + 1)

-- One round of the loop over `pdeno`.
unfoldable pub free_table : (pgdir pdeno : ℕ) → Cmd (Unit {0})
free_table pgdir pdeno = do
  pde ← load (pgdir, pdeno)
  if not (flag pde pte_p) then pure tt else do
    pt ← kaddr (pte_addr pde)
    unmap_ptes pgdir pdeno pt 1024 0
    store (pgdir, pdeno) 0
    page ← pa2page (pte_addr pde)
    page_decref page

unfoldable pub free_tables : (pgdir rounds pdeno : ℕ) → Cmd (Unit {0})
free_tables pgdir zero pdeno = pure tt
free_tables pgdir (suc rounds) pdeno = do
  free_table pgdir pdeno
  free_tables pgdir rounds (pdeno + 1)

-- "return the environment to the free list".
unfoldable pub return_env : (e : ℕ) → Cmd (Unit {0})
return_env e = do
  head ← get (λ k. k.env_free_list)
  change_env e (λ v. record v { env_status = env_free; env_link = head })
  modify (λ k. record k { env_free_list = some e })

unfoldable pub free_env : (e : ℕ) → Cmd (Unit {0})
free_env e = do
  current ← get (λ k. k.curenv)
  kern_pgdir ← get (λ k. k.kern_pgdir)
  if is_env e current then load_cr3 (some kern_pgdir) else pure tt
  dir ← get (λ k. (k.envs e).env_pgdir)
  pgdir ← deref dir
  free_tables pgdir (pdx utop) 0
  change_env e (λ v. record v { env_pgdir = none })
  page ← pa2page (page2pa pgdir)
  page_decref page
  return_env e

unfoldable pub env_destroy : (e : ℕ) → Cmd (Unit {0})
env_destroy e = do
  current ← get (λ k. k.curenv)
  v ← get (λ k. k.envs e)
  if has_status env_running v && not (is_env e current)
      then change_env e (λ v. record v { env_status = env_dying })
      else (do
        free_env e
        if is_env e current
            then (do modify (λ k. record k { curenv = none }); sched_yield)
            else pure tt)

unfoldable pub user_mem_assert : (env va len perm : ℕ) → Cmd (Unit {0})
user_mem_assert env va len perm = do
  r ← user_mem_check env va len (bit_or perm pte_u)
  elim r [ value _ ↦ pure tt | error _ ↦ env_destroy env ]
