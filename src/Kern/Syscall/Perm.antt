-- ===== src/Kern/Syscall/Perm.antt =====
-- The permissions that a system call accepts, and the page that `sys_page_map` shares.
use sisotp.Base.{
  ℕ, ◌-◌, ◌/◌, ◌%◌, ◌^◌, ◌≡◌, ◌↔◌, true, false, none, some, arith, bit_and, bit_and-one,
  bit_and-four,
}
use sisotp.Kern.Mmu.{pte_w, pte_syscall, pdx, flag}
use sisotp.Kern.State.{Kernel, value}
use sisotp.Kern.Monad.{ok, stop, null_access}
use sisotp.Kern.Pmap.{pgdir_walk}
use sisotp.Kern.Vm.{page_insert}
use sisotp.Kern.Vm.Tree.{is_present, translate}
use sisotp.Kern.Vm.Walk.{IsWalkable, page_lookup-translate}
use sisotp.Kern.Env.{envid2env}
use sisotp.Kern.Syscall.{valid_perm, bad_va, map_shared, sys_page_map}

-- A permission word is valid exactly if it is present, for the user, and has no bit outside
-- PTE_SYSCALL.
pub valid_perm_bits :
    (perm : ℕ)
    → (valid_perm perm ≡ true)
      ↔ ((perm % 2 ≡ 1) × (perm / 4 % 2 ≡ 1) × (bit_and perm (2 ^ 32 - 1 - pte_syscall) ≡ 0))
unfolding valid_perm
valid_perm_bits perm = ground (arith, bit_and-one perm, bit_and-four perm)

-- An address whose page table is there but which is not mapped passes the test of `sys_page_map`,
-- since that looks at the place of the entry and not at the page: a call that asks for no write
-- permission goes on to `page_insert` with NULL, and if the page table for the target address is
-- there or can be made, the kernel follows the NULL pointer instead of returning -E_INVAL.
pub sys_page_map-unmapped :
    (k k' : Kernel) (srcenvid srcva dstenvid dstva perm source destination pgdir pgdir' : ℕ)
    (place : ℕ × ℕ)
    → envid2env srcenvid true k ≡ ok (value 0, some source) k
    → envid2env dstenvid true k ≡ ok (value 0, some destination) k
    → bad_va srcva ≡ false
    → bad_va dstva ≡ false
    → valid_perm perm ≡ true
    → flag perm pte_w ≡ false
    → (k.envs source).env_pgdir ≡ some pgdir
    → (k.envs destination).env_pgdir ≡ some pgdir'
    → IsWalkable k pgdir srcva
    → is_present (k.mem pgdir (pdx srcva)) ≡ true
    → translate k.mem pgdir srcva ≡ none
    → pgdir_walk pgdir' dstva true k ≡ ok (some place) k'
    → sys_page_map srcenvid srcva dstenvid dstva perm k ≡ stop null_access k'
unfolding sys_page_map map_shared page_insert
sys_page_map-unmapped k k' srcenvid srcva dstenvid dstva perm source destination pgdir pgdir' place
      s d a b v w e f g p t h =
    rw (s, d, a, b, v, e, page_lookup-translate k pgdir srcva g, t, p, w, f, h)
