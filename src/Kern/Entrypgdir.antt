-- ===== src/Kern/Entrypgdir.antt =====
-- jos/kern/entrypgdir.c: the page directory with which the kernel turns paging on. The page table in the
-- file stands in a comment: the two entries map 4 MB each by themselves (PTE_PS).
use sisotp.Base.{
  ℕ, ◌+◌, ◌-◌, ◌*◌, ◌/◌, ◌%◌, ◌^◌, ◌<◌, ◌≡◌, Bool, true, false, Option, none, some, ◌&&◌, arith,
  ltb, leb, ◌==◌, if◌then◌else◌,
}
use sisotp.Kern.Mmu.{pte_p, pte_w, pte_ps, kernbase, ptsize}

unfoldable pub entry_pgdir : ℕ → ℕ
entry_pgdir i =
    if i == 0
    then 0 + pte_p + pte_ps
    else (if i == kernbase / 2 ^ 22 then 0 + pte_p + pte_w + pte_ps else 0)

-- The processor with CR4_PSE set, on an entry for 4 MB: the physical address, and whether it may be
-- written.
abbrev walk_large : (pgdir : ℕ → ℕ) → (va : ℕ) → Option (ℕ × Bool)
walk_large pgdir va =
    let pde = pgdir (va / 2 ^ 22) in
    if pde % 2 == 1 && pde / 2 ^ 7 % 2 == 1
    then some (pde / 2 ^ 22 * 2 ^ 22 + va % 2 ^ 22, pde / 2 % 2 == 1)
    else none

-- The first 4 MB of physical memory are mapped where they lie, to be read, and from KERNBASE on, to be
-- read and written; no other address is mapped.
entry_pgdir-mapped :
    (va : ℕ)
    → va < 2 ^ 32
    → walk_large entry_pgdir va ≡ (
        if ltb va ptsize
        then some (va, false)
        else (if leb kernbase va && ltb va (kernbase + ptsize)
            then some (va - kernbase, true)
            else none))
unfolding entry_pgdir
entry_pgdir-mapped va h = ground arith
