-- ===== src/User/Fork.antt =====
-- jos/lib/fork.c: `fork_v0`, as the system calls of the current environment one after the other, while
-- no other environment runs in between. A panic of the user library ends in the monitor, by `int3`.
use sisotp.Base.{ℕ, zero, suc, ◌+◌, ◌/◌, ◌%◌, not, ◌||◌, if◌then◌else◌, bit_and, bit_or}
use sisotp.Kern.Mmu.{
  pgsize, npdentries, pte_p, pte_w, pte_u, pte_mapped, pte_syscall, utop, utemp, pgnum, pte_addr,
  flag, rounddown,
}
use sisotp.Kern.State.{Ret, value, error}
use sisotp.Kern.Monad.{Cmd, pure, monitor, halt_with, ◌>>=◌, ◌>>◌, get, deref, load, copy_page}
use sisotp.Kern.Syscall.{
  this, sys_exofork, sys_env_set_status, sys_page_alloc, sys_page_map, sys_page_unmap,
}

-- `if ((r = ...) < 0) panic(...)`.
abbrev pub or_panic : Ret → Cmd (Unit {0})
or_panic (value n) = pure tt
or_panic (error e) = halt_with monitor

-- `uvpd[i]` and `uvpt[n]`: the words of the page directory and of the page tables.
unfoldable pub uvpd_at : ℕ → Cmd ℕ
uvpd_at i = do c ← this; dir ← get (λ k. (k.envs c).env_pgdir); pgdir ← deref dir; load (pgdir, i)

unfoldable pub uvpt_at : ℕ → Cmd ℕ
unfolding uvpd_at
uvpt_at n = do pde ← uvpd_at (n / npdentries); load (pgnum (pte_addr pde), n % npdentries)

-- `memmove(UTEMP, va, PGSIZE)`, for two mapped pages.
unfoldable pub copy_to_utemp : (va : ℕ) → Cmd (Unit {0})
unfolding uvpt_at
copy_to_utemp va = do
  to ← uvpt_at (pgnum utemp)
  from ← uvpt_at (pgnum va)
  copy_page (pgnum (pte_addr to)) (pgnum (pte_addr from))

unfoldable pub dup_or_share : (dstenv va perm : ℕ) → Cmd (Unit {0})
unfolding copy_to_utemp
dup_or_share dstenv va perm =
    if not (flag perm pte_p)
    then halt_with monitor
    else (if not (flag perm pte_w) || flag perm pte_mapped
        then (do r ← sys_page_map 0 va dstenv va perm; or_panic r)
        else do
          allocated ← sys_page_alloc dstenv va perm
          or_panic allocated
          mapped ← sys_page_map dstenv va 0 utemp perm
          or_panic mapped
          copy_to_utemp va
          unmapped ← sys_page_unmap 0 utemp
          or_panic unmapped)

-- One round of the loop over the address space.
unfoldable pub fork_page : (pid va : ℕ) → Cmd (Unit {0})
unfolding uvpd_at uvpt_at dup_or_share
fork_page pid va = do
  pde ← uvpd_at (pgnum va / npdentries)
  if not (flag pde pte_p) then pure tt else do
    pte ← uvpt_at (pgnum va)
    if not (flag pte pte_p) then pure tt else dup_or_share pid va (bit_and pte pte_syscall)

-- The loop, on the pages left.
unfoldable pub fork_pages : (rounds pid va : ℕ) → Cmd (Unit {0})
unfolding fork_page
fork_pages zero pid va = pure tt
fork_pages (suc rounds) pid va = do fork_page pid va; fork_pages rounds pid (va + pgsize)

-- The side of the parent: `frame` is the address of the local variable `va`, on the stack.
unfoldable pub fork_v0 : (frame : ℕ) → Cmd ℕ
unfolding fork_pages dup_or_share
fork_v0 frame = do
  r ← sys_exofork
  elim r [
    | error e ↦ halt_with monitor
    | value pid ↦ (do
      fork_pages (utop / pgsize) pid 0
      dup_or_share pid (rounddown frame pgsize) (bit_or (bit_or pte_p pte_u) pte_w)
      set ← sys_env_set_status pid 2
      or_panic set
      pure pid)
  ]

unfoldable pub fork : (frame : ℕ) → Cmd ℕ
unfolding fork_v0
fork frame = fork_v0 frame
