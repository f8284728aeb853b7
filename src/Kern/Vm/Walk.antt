-- ===== src/Kern/Vm/Walk.antt =====
-- `pgdir_walk` and `page_lookup` against the abstract view of an address space.
use mathlib.Core.Option
use sisotp.Base.{ℕ, ◌^◌, ◌<◌, ◌≡◌, Bool, true, false, Option, none, some, arith, if◌then◌else◌}
use sisotp.Kern.Mmu.{pgnum, pdx, ptx, pte_addr}
use sisotp.Kern.Mmu.Entry.{pgnum-pte_addr}
use sisotp.Kern.State.{Kernel}
use sisotp.Kern.Monad.{ok}
use sisotp.Kern.Pmap.{pgdir_walk, kaddr, pa2page}
use sisotp.Kern.Vm.{page_lookup, lookup_entry}
use sisotp.Kern.Vm.Tree.{is_present, in_table, translate}

-- The words on the way to an address name pages of the machine, so that KADDR and pa2page accept
-- them. `directory` is wanted of an absent entry too: the source calls KADDR before its test.
pub record IsWalkable (k : Kernel) (pgdir va : ℕ) : Type 0 where
  pub fits_pde : k.mem pgdir (pdx va) < 2 ^ 32
  pub directory : pgnum (k.mem pgdir (pdx va)) < k.npages
  pub fits_pte : k.mem (pgnum (k.mem pgdir (pdx va))) (ptx va) < 2 ^ 32
  pub leaf :
      is_present (k.mem pgdir (pdx va)) ≡ true
      → is_present (k.mem (pgnum (k.mem pgdir (pdx va))) (ptx va)) ≡ true
      → pgnum (k.mem (pgnum (k.mem pgdir (pdx va))) (ptx va)) < k.npages

-- The place of the entry for an address, if its table is present.
abbrev pub slot : Kernel → ℕ → ℕ → Option (ℕ × ℕ)
slot k pgdir va =
    if is_present (k.mem pgdir (pdx va)) then some (pgnum (k.mem pgdir (pdx va)), ptx va) else none

pub kaddr_lem :
    (k : Kernel) (pte : ℕ)
    → pte < 2 ^ 32
    → pgnum pte < k.npages
    → kaddr (pte_addr pte) k ≡ ok (pgnum pte) k
unfolding kaddr
kaddr_lem k pte h b = rw (pgnum-pte_addr pte h) (ground arith)

pub pa2page_lem :
    (k : Kernel) (pte : ℕ)
    → pte < 2 ^ 32
    → pgnum pte < k.npages
    → pa2page (pte_addr pte) k ≡ ok (pgnum pte) k
unfolding pa2page
pa2page_lem k pte h b = rw (pgnum-pte_addr pte h) (ground arith)

module _ (k : Kernel) (pgdir va : ℕ) (w : IsWalkable k pgdir va) where
  pub pgdir_walk-slot : pgdir_walk pgdir va false k ≡ ok (slot k pgdir va) k
  unfolding pgdir_walk
  pgdir_walk-slot = ground (arith, kaddr_lem k (k.mem pgdir (pdx va)) w.fits_pde w.directory)

  pub pgdir_walk-present :
      (create : Bool)
      → is_present (k.mem pgdir (pdx va)) ≡ true
      → pgdir_walk pgdir va create k ≡ ok (slot k pgdir va) k
  unfolding pgdir_walk
  pgdir_walk-present create p =
      ground (arith, kaddr_lem k (k.mem pgdir (pdx va)) w.fits_pde w.directory)

  -- Where the address is walkable, `page_lookup` reads and changes nothing: it returns the page
  -- of the word that maps the address, NULL if there is none, and stores the place of the entry,
  -- NULL if there is no page table.
  pub page_lookup-translate :
      page_lookup pgdir va k ≡ ok (Option.map pgnum (translate k.mem pgdir va), slot k pgdir va) k
  unfolding page_lookup lookup_entry translate in_table
  page_lookup-translate = rw pgdir_walk-slot (
      ground
        (arith, w.leaf, pa2page_lem k (k.mem (pgnum (k.mem pgdir (pdx va))) (ptx va)) w.fits_pte))
