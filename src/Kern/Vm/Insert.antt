-- ===== src/Kern/Vm/Insert.antt =====
-- jos/kern/pmap.c: `page_insert` where the page table is there.
use mathlib.Core.Path.{fun_ext}
use sisotp.Base.{
  ℕ, ◌+◌, ◌%◌, ◌^◌, ◌≤◌, ◌<◌, ◌≡◌, ◌≢◌, refl, sym, subst, true, false, Option, none, some, update,
  arith, ◌==◌, if◌then◌else◌, Option-cases, inl, inr, bit_or,
}
use sisotp.Kern.Mmu.{pgsize, utop, pte_p, pgnum, pdx, ptx}
use sisotp.Kern.Mmu.Entry.{flag_p-entry}
use sisotp.Kern.State.{Kernel, value}
use sisotp.Kern.Monad.{ok}
use sisotp.Kern.Pmap.{pgdir_walk, page_incref, page2pa}
use sisotp.Kern.Vm.{page_insert, page_remove}
use sisotp.Kern.Vm.Tree.{
  Words, is_present, translate, in_table, write_word, IsTree, translate-write_self,
  translate-write_ne, write-IsTree,
}
use sisotp.Kern.Vm.Walk.{IsWalkable, pgdir_walk-present}
use sisotp.Kern.Vm.Remove.{IsHeld, removed, page_remove-some}

abbrev pub leaf : (pp perm : ℕ) → ℕ
leaf pp perm = bit_or (bit_or (page2pa pp) perm) pte_p

abbrev pub referenced : ℕ → Kernel → Kernel
referenced pp k = record k {
  pages = update k.pages pp (record (k.pages pp) { pp_ref = ((k.pages pp).pp_ref + 1) % 65536 });
}

abbrev pub placed : (pt i entry : ℕ) → Kernel → Kernel
placed pt i entry k = record k { mem = write_word k.mem pt i entry }

module _ (k k' : Kernel) (pgdir va perm pp pt i : ℕ)
    (walk : pgdir_walk pgdir va true k ≡ ok (some (pt, i)) k') where
  pub insert-empty :
      is_present (k'.mem pt i) ≡ false
      → page_insert pgdir (some pp) va perm k
        ≡ ok (value 0) (placed pt i (leaf pp perm) (referenced pp k'))
  unfolding page_insert page_incref
  insert-empty a = rw (walk, a)

  insert-over :
      (k₂ : Kernel)
      → is_present (k'.mem pt i) ≡ true
      → page_remove pgdir va (referenced pp k') ≡ ok tt k₂
      → page_insert pgdir (some pp) va perm k ≡ ok (value 0) (placed pt i (leaf pp perm) k₂)
  unfolding page_insert page_incref
  insert-over k₂ a r = rw (walk, a, r)

-- What an insertion does to the user's space, seen from the words before and after it.
pub record Inserted (mem : Words) (pgdir va perm pp : ℕ) (mem' : Words) : Type 0 where
  pub mapped : translate mem' pgdir va ≡ some (leaf pp perm)
  pub others :
      (a : ℕ) → a < utop → pgnum a ≢ pgnum va → translate mem' pgdir a ≡ translate mem pgdir a
  pub tree : IsTree mem' pgdir

write-write :
    (mem : Words) (p i v w : ℕ) → write_word (write_word mem p i v) p i w ≡ write_word mem p i w
write-write mem p i v w = fun_ext λ a. fun_ext λ b. ground arith

pub written-Inserted :
    (mem : Words) (pgdir va perm pp : ℕ)
    → va < utop
    → IsTree mem pgdir
    → is_present (mem pgdir (pdx va)) ≡ true
    → Inserted mem pgdir va perm pp
        (write_word mem (pgnum (mem pgdir (pdx va))) (ptx va) (leaf pp perm))
written-Inserted mem pgdir va perm pp low t here = record {
  mapped =
      translate-write_self t va low here (leaf pp perm) (flag_p-entry (bit_or (page2pa pp) perm));
  others = λ a l n. translate-write_ne t va low here (leaf pp perm) a l n;
  tree = write-IsTree t va low here (ptx va) (leaf pp perm);
}

-- 1 if the word maps page `q`, else 0.
abbrev pub maps : Option ℕ → ℕ → ℕ
maps none q = 0
maps (some pte) q = if q == pgnum pte then 1 else 0

-- The hypotheses that are about the caller: `pp` is a page in use, or at least no free page, whose
-- counter has room, and `perm` holds flags only.
pub record IsInsertable (k : Kernel) (pgdir va perm pp : ℕ) : Type 0 where
  pub low : va < utop
  pub tree : IsTree k.mem pgdir
  pub walkable : IsWalkable k pgdir va
  pub flags : perm < pgsize
  pub page : pp < k.npages
  pub memory : k.npages ≤ 2 ^ 20
  pub room : (k.pages pp).pp_ref < 65535
  pub old : (pte : ℕ) → translate k.mem pgdir va ≡ some pte → IsHeld k (pgnum pte)

leaf_absent :
    (mem : Words) (pgdir va : ℕ)
    → is_present (mem pgdir (pdx va)) ≡ true
    → translate mem pgdir va ≡ none
    → is_present (mem (pgnum (mem pgdir (pdx va))) (ptx va)) ≡ false
unfolding translate in_table
leaf_absent mem pgdir va here e = ground arith

leaf_present :
    (mem : Words) (pgdir va pte : ℕ)
    → translate mem pgdir va ≡ some pte
    → is_present (mem (pgnum (mem pgdir (pdx va))) (ptx va)) ≡ true
unfolding translate in_table
leaf_present mem pgdir va pte e = ground arith

walked :
    (k : Kernel) (pgdir va : ℕ)
    → IsWalkable k pgdir va
    → is_present (k.mem pgdir (pdx va)) ≡ true
    → pgdir_walk pgdir va true k ≡ ok (some (pgnum (k.mem pgdir (pdx va)), ptx va)) k
walked k pgdir va w here = rw (pgdir_walk-present k pgdir va w true here, here)

referenced-IsWalkable :
    (k : Kernel) (pgdir va pp : ℕ) → IsWalkable k pgdir va → IsWalkable (referenced pp k) pgdir va
referenced-IsWalkable k pgdir va pp w = record {
  fits_pde = w.fits_pde;
  directory = w.directory;
  fits_pte = w.fits_pte;
  leaf = w.leaf;
}

referenced-IsHeld :
    (k : Kernel) (pp q : ℕ) → (k.pages pp).pp_ref < 65535 → IsHeld k q → IsHeld (referenced pp k) q
referenced-IsHeld k pp q b h = record {
  referenced = ground (arith, h.referenced);
  counted = ground (arith, h.counted);
  unlinked = ground (arith, h.unlinked);
}

-- Under the conditions of IsInsertable (a user address in a walkable tree, a page of the machine
-- whose count has room, and a page in use where one is mapped) and with the page table there, an
-- insertion succeeds; it maps the page at the address, leaves the mapping of every other page of
-- the user's space, and moves one reference: the page that was mapped at the address loses one,
-- and the new page, which may be the same, gains one. The table of environments and the current
-- environment stay.
pub page_insert-Inserted :
    (k : Kernel) (pgdir va perm pp : ℕ)
    → IsInsertable k pgdir va perm pp
    → is_present (k.mem pgdir (pdx va)) ≡ true
    → (k' : Kernel) × (page_insert pgdir (some pp) va perm k ≡ ok (value 0) k')
      × Inserted k.mem pgdir va perm pp k'.mem
      × ((q : ℕ)
          → (k'.pages q).pp_ref + maps (translate k.mem pgdir va) q
            ≡ (k.pages q).pp_ref + (if q == pp then 1 else 0))
      × (k'.envs ≡ k.envs)
      × (k'.curenv ≡ k.curenv)
page_insert-Inserted k pgdir va perm pp h here =
    let walk = walked k pgdir va h.walkable here in
    let new = written-Inserted k.mem pgdir va perm pp h.low h.tree here in
    elim (Option-cases (translate k.mem pgdir va)) [
      | inl e ↦ (
        _,
        insert-empty k k pgdir va perm pp _ _ walk (leaf_absent k.mem pgdir va here e),
        new,
        λ q. rw e (ground (arith, h.room)),
        refl,
        refl,
      )
      | inr (pte, e) ↦ (
        _,
        insert-over k k pgdir va perm pp _ _ walk (removed pgdir va (pgnum pte) (referenced pp k))
            (leaf_present k.mem pgdir va pte e)
            (page_remove-some (referenced pp k) pgdir va pte
              (referenced-IsWalkable k pgdir va pp h.walkable) e
              (referenced-IsHeld k pp (pgnum pte) h.room (h.old pte e))),
        subst (Inserted k.mem pgdir va perm pp)
            (sym (write-write k.mem (pgnum (k.mem pgdir (pdx va))) (ptx va) 0 (leaf pp perm))) new,
        λ q. rw e (ground (arith, h.room, (h.old pte e).referenced)),
        refl,
        refl,
      )
    ]
