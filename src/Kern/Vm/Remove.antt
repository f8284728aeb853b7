-- ===== src/Kern/Vm/Remove.antt =====
-- jos/kern/pmap.c: `page_decref` and `page_remove`, the mapping, its reference and the TLB entry.
use mathlib.Core.Path.{fun_ext}
use sisotp.Base.{
  ℕ, ◌+◌, ◌-◌, ◌<◌, ◌≡◌, ◌≢◌, true, none, some, ◌∷◌, update, arith, ◌==◌, if◌then◌else◌, Bool-cases,
  inl, inr,
}
use sisotp.Kern.Mmu.{utop, pgnum, pdx, ptx}
use sisotp.Kern.State.{Kernel}
use sisotp.Kern.Monad.{ok}
use sisotp.Kern.Pmap.{page_decref, page_free}
use sisotp.Kern.Vm.{page_remove, tlb_invalidate, uses_pgdir}
use sisotp.Kern.Vm.Tree.{
  is_present, translate, write_word, IsTree, translate-write_ne, translate-write_none, zero_absent,
}
use sisotp.Kern.Vm.Walk.{IsWalkable, page_lookup-translate}

-- One reference less, and the page back on the free list if that was the last.
abbrev pub decremented : ℕ → Kernel → Kernel
decremented q k = record k {
  pages = update k.pages q (record {
    pp_ref = (k.pages q).pp_ref - 1;
    pp_link = if (k.pages q).pp_ref == 1 then k.page_free_list else (k.pages q).pp_link;
  });
  page_free_list = if (k.pages q).pp_ref == 1 then some q else k.page_free_list;
}

pub update-update {ℓ} :
    {A : Type ℓ} (f : ℕ → A) (i : ℕ) (a b : A) → update (update f i a) i b ≡ update f i b
update-update f i a b = fun_ext λ j. ground arith

pub page_decref_lem :
    (k : Kernel) (q : ℕ)
    → 0 < (k.pages q).pp_ref
    → (k.pages q).pp_ref < 65536
    → (k.pages q).pp_link ≡ none
    → page_decref q k ≡ ok tt (decremented q k)
unfolding page_decref page_free
page_decref_lem k q h b l = elim (Bool-cases ((k.pages q).pp_ref == 1)) [
  | inl one ↦ ground (
    arith,
    update-update k.pages q (record (k.pages q) { pp_ref = 0 })
        (record { pp_ref = 0; pp_link = k.page_free_list }),
  )
  | inr more ↦ ground arith
]

abbrev pub cleared : (pgdir va : ℕ) → Kernel → Kernel
cleared pgdir va k = record k { mem = write_word k.mem (pgnum (k.mem pgdir (pdx va))) (ptx va) 0 }

abbrev pub flushed : (pgdir va : ℕ) → Kernel → Kernel
flushed pgdir va k = record k {
  invalidated = if uses_pgdir pgdir k.envs k.curenv then va ∷ k.invalidated else k.invalidated;
}

abbrev pub removed : (pgdir va q : ℕ) → Kernel → Kernel
removed pgdir va q k = flushed pgdir va (cleared pgdir va (decremented q k))

-- A page in use: it has a reference, as many as its counter can hold at most, and no link.
pub record IsHeld (k : Kernel) (q : ℕ) : Type 0 where
  pub referenced : 0 < (k.pages q).pp_ref
  pub counted : (k.pages q).pp_ref < 65536
  pub unlinked : (k.pages q).pp_link ≡ none

pub page_remove-none :
    (k : Kernel) (pgdir va : ℕ)
    → IsWalkable k pgdir va
    → translate k.mem pgdir va ≡ none
    → page_remove pgdir va k ≡ ok tt k
unfolding page_remove
page_remove-none k pgdir va w e = rw (page_lookup-translate k pgdir va w, e)

pub table_of_some :
    (mem : ℕ → ℕ → ℕ) (pgdir va pte : ℕ)
    → translate mem pgdir va ≡ some pte
    → is_present (mem pgdir (pdx va)) ≡ true
unfolding translate
table_of_some mem pgdir va pte e = ground arith

tlb_invalidate_lem :
    (k : Kernel) (pgdir va : ℕ) → tlb_invalidate pgdir va k ≡ ok tt (flushed pgdir va k)
unfolding tlb_invalidate
tlb_invalidate_lem k pgdir va = ground arith

pub page_remove-some :
    (k : Kernel) (pgdir va pte : ℕ)
    → IsWalkable k pgdir va
    → translate k.mem pgdir va ≡ some pte
    → IsHeld k (pgnum pte)
    → page_remove pgdir va k ≡ ok tt (removed pgdir va (pgnum pte) k)
unfolding page_remove
page_remove-some k pgdir va pte w e h =
    let d = page_decref_lem k (pgnum pte) h.referenced h.counted h.unlinked in
    rw (page_lookup-translate k pgdir va w, e, table_of_some k.mem pgdir va pte e)
      (rw d (tlb_invalidate_lem (cleared pgdir va (decremented (pgnum pte) k)) pgdir va))

-- `page_remove` on a user address, in a tree in which the address is walkable. Where no page is
-- mapped it changes nothing. Where `pte` maps a page in use, the address is unmapped afterwards
-- and every other page of the user's space is mapped as before, the page loses one reference (and
-- goes to the front of the free list if it was the last) while all other pages keep theirs, and
-- the TLB entry is invalidated if the processor uses this directory or runs no environment.
pub page_remove-translate :
    (k : Kernel) (pgdir va : ℕ)
    → va < utop
    → IsTree k.mem pgdir
    → IsWalkable k pgdir va
    → (translate k.mem pgdir va ≡ none → page_remove pgdir va k ≡ ok tt k)
      × ((pte : ℕ)
          → translate k.mem pgdir va ≡ some pte
          → IsHeld k (pgnum pte)
          → (k' : Kernel) × (page_remove pgdir va k ≡ ok tt k')
            × (translate k'.mem pgdir va ≡ none)
            × ((a : ℕ)
                → a < utop
                → pgnum a ≢ pgnum va
                → translate k'.mem pgdir a ≡ translate k.mem pgdir a)
            × ((q : ℕ)
                → (k'.pages q).pp_ref + (if q == pgnum pte then 1 else 0) ≡ (k.pages q).pp_ref)
            × ((k.pages (pgnum pte)).pp_ref ≡ 1
                → (k'.page_free_list ≡ some (pgnum pte))
                  × ((k'.pages (pgnum pte)).pp_link ≡ k.page_free_list))
            × (uses_pgdir pgdir k.envs k.curenv ≡ true → k'.invalidated ≡ va ∷ k.invalidated))
page_remove-translate k pgdir va low t w = (
  λ e. page_remove-none k pgdir va w e,
  λ pte e h.
      let here = table_of_some k.mem pgdir va pte e in
      (
        removed pgdir va (pgnum pte) k,
        page_remove-some k pgdir va pte w e h,
        translate-write_none t va low here 0 zero_absent,
        λ a l n. translate-write_ne t va low here 0 a l n,
        λ q. ground (arith, h.referenced),
        λ one. ground arith,
        λ u. ground arith,
      ),
)
