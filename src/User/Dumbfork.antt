-- ===== src/User/Dumbfork.antt =====
-- jos/user/dumbfork.c: the program that copies its whole address space to a child. The end of the
-- program and the address of the local variable `addr`, on the stack, are parameters.
use sisotp.Base.{ℕ, zero, suc, ◌+◌, ◌-◌, ◌/◌, bit_or}
use sisotp.Kern.Mmu.{pgsize, pte_p, pte_w, pte_u, utemp, rounddown, roundup}
use sisotp.Kern.State.{value, error}
use sisotp.Kern.Monad.{Cmd, pure, monitor, halt_with, ◌>>=◌, ◌>>◌}
use sisotp.Kern.Syscall.{
  sys_exofork, sys_env_set_status, sys_page_alloc, sys_page_map, sys_page_unmap,
}
use sisotp.User.Fork.{or_panic, copy_to_utemp}

abbrev pub utext : ℕ
utext = 0x800000

unfoldable pub duppage : (dstenv addr : ℕ) → Cmd (Unit {0})
unfolding copy_to_utemp
duppage dstenv addr = do
  allocated ← sys_page_alloc dstenv addr (bit_or (bit_or pte_p pte_u) pte_w)
  or_panic allocated
  mapped ← sys_page_map dstenv addr 0 utemp (bit_or (bit_or pte_p pte_u) pte_w)
  or_panic mapped
  copy_to_utemp addr
  unmapped ← sys_page_unmap 0 utemp
  or_panic unmapped

-- The loop, on the pages left.
unfoldable pub duppages : (rounds envid addr : ℕ) → Cmd (Unit {0})
unfolding duppage
duppages zero envid addr = pure tt
duppages (suc rounds) envid addr = do duppage envid addr; duppages rounds envid (addr + pgsize)

-- The side of the parent. The child returns 0.
unfoldable pub dumbfork : (end frame : ℕ) → Cmd ℕ
unfolding duppage duppages
dumbfork end frame = do
  r ← sys_exofork
  elim r [
    | error e ↦ halt_with monitor
    | value envid ↦ (do
      duppages ((roundup end pgsize - utext) / pgsize) envid utext
      duppage envid (rounddown frame pgsize)
      set ← sys_env_set_status envid 2
      or_panic set
      pure envid)
  ]
