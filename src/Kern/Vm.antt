-- ===== src/Kern/Vm.antt =====
-- jos/kern/pmap.c, the address spaces: lookups, insertion and removal of mappings, the static
-- regions of the kernel, and the checks of user memory.
pub mod Tree
pub mod Walk
pub mod UserMem
pub mod Remove
pub mod Grow
pub mod Insert
pub mod NewTable
use sisotp.Base.{
  ℕ, zero, suc, ◌+◌, ◌-◌, ◌*◌, ◌/◌, ◌%◌, ◌^◌, Bool, true, false, not, ◌||◌, Option, none, some, ◌∷◌,
  ltb, leb, ◌==◌, if◌then◌else◌, bit_and, bit_or,
}
use sisotp.Kern.Mmu.{
  pgsize, pte_p, pte_w, pte_u, pte_pwt, pte_pcd, mmiolim, ulim, kernbase, pte_addr, flag, roundup,
}
use sisotp.Kern.State.{Env, Kernel, Ret, value, error, e_no_mem, e_fault}
use sisotp.Kern.Monad.{
  Cmd, pure, panic, halt_with, ◌>>=◌, ◌>>◌, get, modify, assert, deref, load, store,
}
use sisotp.Kern.Pmap.{page_decref, page_incref, pgdir_walk, pa2page, page2pa}

-- The pages that stand at an entry: `none` where no page is mapped.
unfoldable pub lookup_entry : Option (ℕ × ℕ) → Cmd (Option ℕ)
unfolding pa2page
lookup_entry none = pure none
lookup_entry (some pte_addr_) = do
  pte ← load pte_addr_
  if not (flag pte pte_p) then pure none else do page ← pa2page (pte_addr pte); pure (some page)

-- Both results: the page, and the place that the source stores in `*pte_store`.
unfoldable pub page_lookup : (pgdir va : ℕ) → Cmd (Option ℕ × Option (ℕ × ℕ))
unfolding pgdir_walk lookup_entry
page_lookup pgdir va = do
  slot ← pgdir_walk pgdir va false
  page ← lookup_entry slot
  pure (page, slot)

-- `curenv->env_pgdir == pgdir`.
abbrev pub is_pgdir : ℕ → Option ℕ → Bool
is_pgdir pgdir none = false
is_pgdir pgdir (some d) = d == pgdir

-- The condition of `tlb_invalidate`: there is no current environment, or its directory is `pgdir`.
abbrev pub uses_pgdir : ℕ → (ℕ → Env) → Option ℕ → Bool
uses_pgdir pgdir envs none = true
uses_pgdir pgdir envs (some e) = is_pgdir pgdir (envs e).env_pgdir

unfoldable pub tlb_invalidate : (pgdir va : ℕ) → Cmd (Unit {0})
tlb_invalidate pgdir va = do
  current ← get (λ k. uses_pgdir pgdir k.envs k.curenv)
  if current then modify (λ k. record k { invalidated = va ∷ k.invalidated }) else pure tt

unfoldable pub page_remove : (pgdir va : ℕ) → Cmd (Unit {0})
unfolding page_lookup page_decref tlb_invalidate
page_remove pgdir va = do
  (page, slot) ← page_lookup pgdir va
  elim page [
    | none ↦ pure tt
    | some page_ptr ↦ (do
      page_decref page_ptr
      place ← deref slot
      store place 0
      tlb_invalidate pgdir va)
  ]

-- `pp` may be NULL: the source follows it without a test.
unfoldable pub page_insert : (pgdir : ℕ) → (pp : Option ℕ) → (va perm : ℕ) → Cmd Ret
unfolding pgdir_walk page_remove page_incref page2pa
page_insert pgdir pp va perm = do
  slot ← pgdir_walk pgdir va true
  elim slot [
    | none ↦ pure (error e_no_mem)
    | some place ↦ (do
      page ← deref pp
      page_incref page
      old ← load place
      if flag old pte_p then page_remove pgdir va else pure tt
      store place (bit_or (bit_or (page2pa page) perm) pte_p)
      pure (value 0))
  ]

-- The loop of `boot_map_region`, on the number of pages left; `size` is a multiple of PGSIZE there.
unfoldable pub map_pages : (pgdir rounds va pa perm : ℕ) → Cmd (Unit {0})
unfolding pgdir_walk
map_pages pgdir zero va pa perm = pure tt
map_pages pgdir (suc rounds) va pa perm = do
  slot ← pgdir_walk pgdir va true
  place ← deref slot
  store place (bit_or (bit_or pa perm) pte_p)
  map_pages pgdir rounds ((va + pgsize) % 2 ^ 32) ((pa + pgsize) % 2 ^ 32) perm

unfoldable pub boot_map_region : (pgdir va size pa perm : ℕ) → Cmd (Unit {0})
unfolding map_pages
boot_map_region pgdir va size pa perm = do
  assert (va % pgsize == 0)
  assert (pa % pgsize == 0)
  assert (size % pgsize == 0)
  map_pages pgdir (size / pgsize) va pa perm

unfoldable pub mmio_map_region : (pa size : ℕ) → Cmd ℕ
unfolding boot_map_region roundup
mmio_map_region pa size = do
  base ← get (λ k. k.mmio_base)
  pgdir ← get (λ k. k.kern_pgdir)
  if ltb mmiolim ((base + roundup size pgsize) % 2 ^ 32) then halt_with panic else do
    boot_map_region pgdir base (roundup size pgsize) pa
        (bit_or (bit_or (bit_or pte_p pte_pwt) pte_pcd) pte_w)
    modify (λ k. record k { mmio_base = (base + roundup size pgsize) % 2 ^ 32 })
    pure base

-- `user_mem_check_addr = va; return -E_FAULT;`
unfoldable pub fail_at : ℕ → Cmd Ret
fail_at va = do modify (λ k. record k { user_mem_check_addr = va }); pure (error e_fault)

-- What one round of the loop of `user_mem_check` decides about an address.
unfoldable pub check_address : (pgdir va perm : ℕ) → Cmd Bool
unfolding page_lookup
check_address pgdir va perm = do
  (page, slot) ← page_lookup pgdir va
  elim page [
    | none ↦ pure false
    | some _ ↦ (do place ← deref slot; pte ← load place; pure (bit_and pte perm == perm))
  ]

-- The loop, on the bytes left: `ROUNDUP(++xva, PGSIZE)` is not assigned, so it goes byte by byte.
unfoldable pub check_range : (pgdir rounds va perm : ℕ) → Cmd Ret
unfolding check_address fail_at
check_range pgdir zero va perm = pure (value 0)
check_range pgdir (suc rounds) va perm = do
  fine ← check_address pgdir va perm
  elim fine [ true ↦ check_range pgdir rounds (va + 1) perm | false ↦ fail_at va ]

unfoldable pub user_mem_check : (env va len perm : ℕ) → Cmd Ret
unfolding check_range fail_at
user_mem_check env va len perm =
    let lim_va = (va + len) % 2 ^ 32 in
    if leb ulim va
    then fail_at va
    else (if leb ulim lim_va || ltb lim_va va then fail_at ulim else do
      dir ← get (λ k. (k.envs env).env_pgdir)
      pgdir ← deref dir
      check_range pgdir (lim_va - va) va perm)
