-- ===== src/Kern/Vm/Grow.antt =====
-- jos/kern/pmap.c: `pgdir_walk` with the flag to create a page table that is not there.
use sisotp.Base.{
  ℕ, ◌+◌, ◌*◌, ◌/◌, ◌%◌, ◌^◌, ◌≤◌, ◌<◌, ◌≡◌, true, false, none, some, update, arith, bit_or,
  bit_or-div, bit_or-zero, bit_or-lowest,
}
use sisotp.Kern.Mmu.{pte_p, pte_w, pte_u, pgnum, pdx, ptx, flag}
use sisotp.Kern.Mmu.Entry.{odd-flag_p}
use sisotp.Kern.State.{Kernel}
use sisotp.Kern.Monad.{ok}
use sisotp.Kern.Pmap.{
  pgdir_walk, pgdir_walk_new, page_incref, page2pa, kaddr, alloc_zero, page_alloc,
}
use sisotp.Kern.Pmap.Alloc.{taken, page_alloc-some}
use sisotp.Kern.Vm.Tree.{is_present, write_word}
use sisotp.Kern.Vm.Walk.{IsWalkable, kaddr_lem}
use sisotp.Kern.Vm.Remove.{update-update}

-- The directory entry for a new page table.
abbrev pub table_entry : ℕ → ℕ
table_entry p = bit_or (bit_or (bit_or (page2pa p) pte_p) pte_u) pte_w

pub page2pa_lem : (p : ℕ) → p < 2 ^ 20 → page2pa p ≡ p * 2 ^ 12
unfolding page2pa
page2pa_lem p h = omega arith

pub table_entry-fields :
    (p : ℕ) → p < 2 ^ 20 → (is_present (table_entry p) ≡ true) × (pgnum (table_entry p) ≡ p)
unfolding pgnum
table_entry-fields p h = (
  rw (odd-flag_p (table_entry p)) (
      ground (
        arith,
        bit_or-lowest (bit_or (bit_or (page2pa p) 1) 4) 2,
        bit_or-lowest (bit_or (page2pa p) 1) 4,
        bit_or-lowest (page2pa p) 1,
      )),
  (let high : page2pa p / 2 ^ 12 ≡ p = omega (arith, page2pa_lem p h) in
      rw
        (
          bit_or-div 12 (bit_or (bit_or (page2pa p) pte_p) pte_u) pte_w,
          bit_or-div 12 (bit_or (page2pa p) pte_p) pte_u,
          bit_or-div 12 (page2pa p) pte_p,
          high,
          bit_or-zero p,
          bit_or-zero p,
        )
        (bit_or-zero p)),
)

-- The state in which the free page `p` has become the page table for the address.
abbrev pub with_table : (pgdir va p : ℕ) → Kernel → Kernel
with_table pgdir va p k = record k {
  page_free_list = (k.pages p).pp_link;
  pages = update k.pages p (record { pp_link = none; pp_ref = ((k.pages p).pp_ref + 1) % 65536 });
  mem = write_word (update k.mem p (λ _. 0)) pgdir (pdx va) (table_entry p);
}

walk_new :
    (k : Kernel) (pgdir va p : ℕ)
    → p < k.npages
    → k.npages ≤ 2 ^ 20
    → pgdir_walk_new pgdir va (some p) (taken alloc_zero p k)
      ≡ ok (some (p, ptx va)) (with_table pgdir va p k)
unfolding pgdir_walk_new page_incref kaddr pgnum flag page2pa
walk_new k pgdir va p b m = ground (
  arith,
  update-update k.pages p (record (k.pages p) { pp_link = none })
      (record { pp_link = none; pp_ref = ((k.pages p).pp_ref + 1) % 65536 }),
)

pub pgdir_walk-new :
    (k : Kernel) (pgdir va p : ℕ)
    → IsWalkable k pgdir va
    → is_present (k.mem pgdir (pdx va)) ≡ false
    → k.page_free_list ≡ some p
    → p < k.npages
    → k.npages ≤ 2 ^ 20
    → pgdir_walk pgdir va true k ≡ ok (some (p, ptx va)) (with_table pgdir va p k)
unfolding pgdir_walk
pgdir_walk-new k pgdir va p w a f b m =
    rw
      (
        kaddr_lem k (k.mem pgdir (pdx va)) w.fits_pde w.directory,
        a,
        page_alloc-some alloc_zero k p f b m,
      )
      (walk_new k pgdir va p b m)

pub pgdir_walk-full :
    (k : Kernel) (pgdir va : ℕ)
    → IsWalkable k pgdir va
    → is_present (k.mem pgdir (pdx va)) ≡ false
    → k.page_free_list ≡ none
    → pgdir_walk pgdir va true k ≡ ok none k
unfolding pgdir_walk page_alloc pgdir_walk_new
pgdir_walk-full k pgdir va w a f =
    rw (kaddr_lem k (k.mem pgdir (pdx va)) w.fits_pde w.directory, a, f)
