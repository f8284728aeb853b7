-- ===== src/Kern/Examples/Spaces.antt =====
-- The address spaces of the example machine.
use sisotp.Base.{ℕ, ◌<◌, ◌≡◌, ◌≢◌, refl, sym, subst, ◌∙◌, true, none, some, arith}
use sisotp.Kern.Mmu.{pgnum, pdx, ptx, flag}
use sisotp.Kern.State.{Kernel, value}
use sisotp.Kern.Monad.{ok}
use sisotp.Kern.Vm.{page_remove, page_insert}
use sisotp.Kern.Vm.Tree.{IsTree, is_present, translate}
use sisotp.Kern.Vm.Walk.{IsWalkable}
use sisotp.Kern.Vm.Remove.{IsHeld, page_remove-translate}
use sisotp.Kern.Vm.NewTable.{page_insert-new_table}
use sisotp.Kern.Vm.Insert.{IsInsertable, Inserted, page_insert-Inserted}
use sisotp.Kern.Examples.{machine, words}

abbrev mapped_va : ℕ
mapped_va = 0x405000

words_small : (page i : ℕ) → words page i < 65536
words_small page i = ground arith

-- Each directory has one entry.
only_first : (i : ℕ) → is_present (words 2 i) ≡ true → i ≡ 1
unfolding flag
only_first i p = ground arith

only_second : (i : ℕ) → is_present (words 12 i) ≡ true → i ≡ 1
unfolding flag
only_second i p = ground arith

first-IsTree : IsTree words 2
unfolding pgnum
first-IsTree = record {
  apart = λ i j a b p q e. only_first i p ∙ sym (only_first j q);
  outside = λ i a p. subst (λ v. pgnum (words 2 v) ≢ 2) (sym (only_first i p)) (omega arith);
}

second-IsTree : IsTree words 12
unfolding pgnum
second-IsTree = record {
  apart = λ i j a b p q e. only_second i p ∙ sym (only_second j q);
  outside = λ i a p. subst (λ v. pgnum (words 12 v) ≢ 12) (sym (only_second i p)) (omega arith);
}

pub machine-IsWalkable : (pgdir va : ℕ) → IsWalkable machine pgdir va
unfolding pgnum
machine-IsWalkable pgdir va =
    let pde = words_small pgdir (pdx va) in
    let pte = words_small (pgnum (words pgdir (pdx va))) (ptx va) in
    record {
      fits_pde = omega (arith, pde);
      directory = omega (arith, pde);
      fits_pte = omega (arith, pte);
      leaf = λ p q. omega (arith, pte);
    }

page_4-IsHeld : IsHeld machine 4
page_4-IsHeld = record { referenced = omega arith; counted = omega arith; unlinked = refl }

page_remove-translate_example :
    (k' : Kernel) × (page_remove 2 mapped_va machine ≡ ok tt k')
    × (translate k'.mem 2 mapped_va ≡ none)
unfolding translate pgnum pdx ptx flag
page_remove-translate_example =
    let r =
      (page_remove-translate machine 2 mapped_va (omega arith) first-IsTree
          (machine-IsWalkable 2 mapped_va)).1
        16391 refl page_4-IsHeld in
    (r.0, r.1, r.2)

pub sent-IsInsertable : IsInsertable machine 12 0x402000 7 4
unfolding translate pgnum pdx ptx flag
sent-IsInsertable = record {
  low = omega arith;
  tree = second-IsTree;
  walkable = machine-IsWalkable 12 0x402000;
  flags = omega arith;
  page = omega arith;
  memory = omega arith;
  room = omega arith;
  old = λ pte e. absurd (ground arith);
}

page_insert-Inserted_example :
    (k' : Kernel) × (page_insert 12 (some 4) 0x402000 7 machine ≡ ok (value 0) k')
    × Inserted words 12 0x402000 7 4 k'.mem
unfolding pdx flag
page_insert-Inserted_example =
    let r = page_insert-Inserted machine 12 0x402000 7 4 sent-IsInsertable refl in (r.0, r.1, r.2)

-- There is no table for 0x800000 yet.
far-IsInsertable : IsInsertable machine 12 0x800000 7 4
unfolding translate pgnum pdx ptx flag
far-IsInsertable = record {
  low = omega arith;
  tree = second-IsTree;
  walkable = machine-IsWalkable 12 0x800000;
  flags = omega arith;
  page = omega arith;
  memory = omega arith;
  room = omega arith;
  old = λ pte e. absurd (ground arith);
}

page_insert-new_table_example :
    (k' : Kernel) × (page_insert 12 (some 4) 0x800000 7 machine ≡ ok (value 0) k')
    × Inserted words 12 0x800000 7 4 k'.mem
unfolding pdx flag pgnum
page_insert-new_table_example =
    let r =
      (page_insert-new_table machine 12 0x800000 7 4 far-IsInsertable refl).1 5 refl (omega arith)
        (omega arith) (omega arith) refl
        (λ i b p. subst (λ v. pgnum (words 12 v) ≢ 5) (sym (only_second i p)) (omega arith)) in
    (r.0, r.1, r.2)
