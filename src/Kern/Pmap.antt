-- ===== src/Kern/Pmap.antt =====
-- jos/kern/pmap.c and pmap.h: the allocator of physical pages, the page tables of an address
-- space, and the checks of user memory.
pub mod FreeList
pub mod Alloc
pub mod Init
use sisotp.Base.{
  ℕ, zero, suc, ◌+◌, ◌-◌, ◌*◌, ◌/◌, ◌%◌, ◌^◌, Bool, true, false, not, ◌&&◌, ◌||◌, Option, none,
  some, ◌∷◌, ltb, leb, ◌==◌, if◌then◌else◌, bit_and, bit_or, update, is_some,
}
use sisotp.Kern.Mmu.{
  pgsize, pte_p, pte_w, pte_u, pte_pwt, pte_pcd, kernbase, iophysmem, extphysmem, mpentry_paddr,
  mmiolim, ulim, pgnum, pdx, ptx, pte_addr, flag, roundup,
}
use sisotp.Kern.State.{PageInfo, Env, Kernel, Ret, value, error, e_no_mem, e_fault}
use sisotp.Kern.Monad.{
  Cmd, pure, stop, panic, halt_with, ◌>>=◌, ◌>>◌, get, modify, assert, deref, change_page, load,
  store, zero_page,
}

-- PADDR: the physical address of a kernel virtual address.
unfoldable pub paddr : ℕ → Cmd ℕ
paddr kva = if ltb kva kernbase then halt_with panic else pure (kva - kernbase)

-- KADDR of the address of a page: the kernel's pointer to that page.
unfoldable pub kaddr : ℕ → Cmd ℕ
kaddr pa = do
  npages ← get (λ k. k.npages)
  if leb npages (pgnum pa) then halt_with panic else pure (pgnum pa)

unfoldable pub page2pa : ℕ → ℕ
page2pa pp = pp * 2 ^ 12 % 2 ^ 32

unfoldable pub pa2page : ℕ → Cmd ℕ
unfolding kaddr
pa2page pa = do
  npages ← get (λ k. k.npages)
  if leb npages (pgnum pa) then halt_with panic else pure (pgnum pa)

unfoldable pub page2kva : ℕ → Cmd ℕ
unfolding kaddr page2pa
page2kva pp = kaddr (page2pa pp)

abbrev pub alloc_zero : ℕ
alloc_zero = 1

-- `end` is the linker's symbol behind the kernel's bss.
unfoldable pub boot_alloc : (end n : ℕ) → Cmd ℕ
unfolding paddr roundup
boot_alloc end n = do
  first ← get (λ k. k.nextfree)
  modify (λ k. record k { nextfree = if first == 0 then roundup end pgsize else first })
  nextfree ← get (λ k. k.nextfree)
  if n == 0 then pure nextfree else do
    modify (λ k. record k { nextfree = (nextfree + roundup n pgsize) % 2 ^ 32 })
    pa ← paddr ((nextfree + roundup n pgsize) % 2 ^ 32)
    npages ← get (λ k. k.npages)
    if ltb (npages * pgsize % 2 ^ 32) pa then halt_with panic else pure nextfree

-- One round of the loop of `page_init`, for page `i`.
unfoldable pub page_init_round : (lim_sup_kernmem i : ℕ) → Cmd (Unit {0})
page_init_round lim_sup_kernmem i =
    if (leb (pgnum iophysmem) i && ltb i lim_sup_kernmem) || i == pgnum mpentry_paddr
    then change_page i (λ pp. record pp { pp_ref = 1 })
    else do
      head ← get (λ k. k.page_free_list)
      change_page i (λ pp. record pp { pp_ref = 0; pp_link = head })
      modify (λ k. record k { page_free_list = some i })

unfoldable pub page_init_loop : (lim_sup_kernmem rounds i : ℕ) → Cmd (Unit {0})
page_init_loop lim zero i = pure tt
page_init_loop lim (suc rounds) i = page_init_round lim i >> page_init_loop lim rounds (i + 1)

unfoldable pub page_init : (end : ℕ) → Cmd (Unit {0})
unfolding boot_alloc paddr page_init_loop page_init_round pgnum
page_init end = do
  top ← boot_alloc end 0
  pa ← paddr top
  npages ← get (λ k. k.npages)
  page_init_loop (pgnum pa) (npages - 1) 1

-- The part of `page_alloc` behind its test for an empty list.
unfoldable pub page_alloc_first : (alloc_flags pag : ℕ) → Cmd (Option ℕ)
unfolding page2kva
page_alloc_first alloc_flags pag = do
  link ← get (λ k. (k.pages pag).pp_link)
  modify (λ k. record k { page_free_list = link })
  change_page pag (λ pp. record pp { pp_link = none })
  if flag alloc_flags alloc_zero
      then (do page ← page2kva pag; zero_page page; pure (some pag))
      else pure (some pag)

unfoldable pub page_alloc : (alloc_flags : ℕ) → Cmd (Option ℕ)
unfolding page_alloc_first
page_alloc alloc_flags = do
  head ← get (λ k. k.page_free_list)
  elim head [ none ↦ pure none | some pag ↦ page_alloc_first alloc_flags pag ]

unfoldable pub page_free : ℕ → Cmd (Unit {0})
page_free pp = do
  info ← get (λ k. k.pages pp)
  assert (info.pp_ref == 0)
  assert (not (is_some info.pp_link))
  head ← get (λ k. k.page_free_list)
  change_page pp (λ p. record p { pp_link = head })
  modify (λ k. record k { page_free_list = some pp })

-- `pp_ref` is a uint16_t.
unfoldable pub page_decref : ℕ → Cmd (Unit {0})
unfolding page_free
page_decref pp = do
  change_page pp (λ p. record p { pp_ref = (p.pp_ref + 65535) % 65536 })
  ref ← get (λ k. (k.pages pp).pp_ref)
  if ref == 0 then page_free pp else pure tt

unfoldable pub page_incref : ℕ → Cmd (Unit {0})
page_incref pp = change_page pp (λ p. record p { pp_ref = (p.pp_ref + 1) % 65536 })

-- The part of `pgdir_walk` that adds a page table.
unfoldable pub pgdir_walk_new : (pgdir va : ℕ) → Option ℕ → Cmd (Option (ℕ × ℕ))
unfolding page_incref kaddr page2pa
pgdir_walk_new pgdir va none = pure none
pgdir_walk_new pgdir va (some page) = do
  page_incref page
  store (pgdir, pdx va) (bit_or (bit_or (bit_or (page2pa page) pte_p) pte_u) pte_w)
  pt ← kaddr (page2pa page)
  pure (some (pt, ptx va))

-- The result is the place of the page table entry.
unfoldable pub pgdir_walk : (pgdir va : ℕ) → (create : Bool) → Cmd (Option (ℕ × ℕ))
unfolding kaddr page_alloc pgdir_walk_new
pgdir_walk pgdir va create = do
  pde ← load (pgdir, pdx va)
  pt ← kaddr (pte_addr pde)
  if flag pde pte_p
      then pure (some (pt, ptx va))
      else (if not create
          then pure none
          else (do page ← page_alloc alloc_zero; pgdir_walk_new pgdir va page))
