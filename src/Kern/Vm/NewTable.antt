-- ===== src/Kern/Vm/NewTable.antt =====
-- jos/kern/pmap.c: `page_insert` where the page table must be allocated first.
use sisotp.Base.{
  ℕ, ◌+◌, ◌<◌, ◌≡◌, ◌≢◌, subst, ◌∙◌, true, false, none, some, arith, ◌==◌, if◌then◌else◌,
}
use sisotp.Kern.Mmu.{pgnum, pdx, ptx}
use sisotp.Kern.State.{Kernel, value, error, e_no_mem}
use sisotp.Kern.Monad.{ok}
use sisotp.Kern.Vm.{page_insert}
use sisotp.Kern.Vm.Tree.{
  is_present, write_word, user_pdes, translate-grown, grown-IsTree, zero_absent,
}
use sisotp.Kern.Vm.Grow.{
  table_entry, table_entry-fields, with_table, pgdir_walk-new, pgdir_walk-full,
}
use sisotp.Kern.Vm.Insert.{leaf, Inserted, written-Inserted, IsInsertable, insert-empty}

-- What holds of the words once `p` is the table and the entry is written.
record Grown (k : Kernel) (pgdir va perm pp p : ℕ) : Type 0 where
  empty : is_present ((with_table pgdir va p k).mem p (ptx va)) ≡ false
  space :
      Inserted k.mem pgdir va perm pp
        (write_word (with_table pgdir va p k).mem p (ptx va) (leaf pp perm))
  names :
      pgnum (write_word (with_table pgdir va p k).mem p (ptx va) (leaf pp perm) pgdir (pdx va)) ≡ p

with_table-Grown :
    (k : Kernel) (pgdir va perm pp p : ℕ)
    → IsInsertable k pgdir va perm pp
    → is_present (k.mem pgdir (pdx va)) ≡ false
    → p < k.npages
    → p ≢ pgdir
    → ((i : ℕ) → i < user_pdes → is_present (k.mem pgdir i) ≡ true → pgnum (k.mem pgdir i) ≢ p)
    → Grown k pgdir va perm pp p
with_table-Grown k pgdir va perm pp p h a b d f =
    let k₁ = with_table pgdir va p k in
    let entry = table_entry-fields p (omega (arith, b, h.memory)) in
    let row : k₁.mem pgdir (pdx va) ≡ table_entry p = ground arith in
    let here : is_present (k₁.mem pgdir (pdx va)) ≡ true = rw row entry.0 in
    let names : pgnum (k₁.mem pgdir (pdx va)) ≡ p = rw row entry.1 in
    let t₁ = grown-IsTree h.tree va h.low p (table_entry p) a d f entry.0 entry.1 in
    let new : Inserted k₁.mem pgdir va perm pp (write_word k₁.mem p (ptx va) (leaf pp perm)) =
      subst (λ t. Inserted k₁.mem pgdir va perm pp (write_word k₁.mem t (ptx va) (leaf pp perm)))
        names (written-Inserted k₁.mem pgdir va perm pp h.low t₁ here) in
    record {
      empty = let clear : k₁.mem p (ptx va) ≡ 0 = ground arith in rw clear zero_absent;
      space = record {
        mapped = new.mapped;
        others = λ x l n.
            new.others x l n
            ∙ translate-grown h.tree va h.low p (table_entry p) a d f entry.0 entry.1 x l;
        tree = new.tree;
      };
      names = ground (arith, entry.1);
    }

-- Under the conditions of IsInsertable and without a page table: without a free page, an
-- insertion fails with -E_NO_MEM and changes nothing. With a free page `p` outside the tree,
-- which is not the page to map, `p` becomes the table, with one reference, the insertion
-- succeeds, maps the page at the address, leaves the mapping of every other page of the user's
-- space, and changes the references of no other page but for one more to the page mapped.
pub page_insert-new_table :
    (k : Kernel) (pgdir va perm pp : ℕ)
    → IsInsertable k pgdir va perm pp
    → is_present (k.mem pgdir (pdx va)) ≡ false
    → (k.page_free_list ≡ none → page_insert pgdir (some pp) va perm k ≡ ok (error e_no_mem) k)
      × ((p : ℕ)
          → k.page_free_list ≡ some p
          → p < k.npages
          → p ≢ pgdir
          → p ≢ pp
          → (k.pages p).pp_ref ≡ 0
          → ((i : ℕ)
              → i < user_pdes
              → is_present (k.mem pgdir i) ≡ true
              → pgnum (k.mem pgdir i) ≢ p)
          → (k' : Kernel) × (page_insert pgdir (some pp) va perm k ≡ ok (value 0) k')
            × Inserted k.mem pgdir va perm pp k'.mem
            × (pgnum (k'.mem pgdir (pdx va)) ≡ p)
            × ((k'.pages p).pp_ref ≡ 1)
            × ((q : ℕ)
                → q ≢ p
                → (k'.pages q).pp_ref ≡ (k.pages q).pp_ref + (if q == pp then 1 else 0)))
unfolding page_insert
page_insert-new_table k pgdir va perm pp h a = (
  λ e. rw (pgdir_walk-full k pgdir va h.walkable a e),
  λ p e b d n r f.
      let g = with_table-Grown k pgdir va perm pp p h a b d f in
      (
        _,
        insert-empty k (with_table pgdir va p k) pgdir va perm pp p (ptx va)
            (pgdir_walk-new k pgdir va p h.walkable a e b h.memory) g.empty,
        g.space,
        g.names,
        ground (arith, r, n),
        λ q o. ground (arith, h.room),
      ),
)
