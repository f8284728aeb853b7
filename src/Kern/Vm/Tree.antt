-- ===== src/Kern/Vm/Tree.antt =====
-- The abstract view of an address space: what the two-level tree of words below a page directory
-- says of an address, and how that view changes when a word or a page table is written.
use sisotp.Base.{
  ℕ, ◌<◌, ◌≡◌, ◌≢◌, refl, sym, Bool, true, false, Option, none, some, update, arith, ◌==◌,
  if◌then◌else◌, Bool-cases, inl, inr,
}
use sisotp.Kern.Mmu.{pte_p, utop, pgnum, pdx, ptx, flag}
use sisotp.Kern.Mmu.Entry.{pgnum-fields, pdx_lem, ptx_lem}

abbrev pub Words : Type 0
Words = ℕ → ℕ → ℕ

abbrev pub write_word : Words → ℕ → ℕ → ℕ → Words
write_word mem page i v = update mem page (update (mem page) i v)

abbrev pub is_present : ℕ → Bool
is_present entry = flag entry pte_p

-- The word that maps an address, if both levels are present.
unfoldable pub in_table : Words → ℕ → ℕ → Option ℕ
in_table mem pt i = if is_present (mem pt i) then some (mem pt i) else none

unfoldable pub translate : Words → ℕ → ℕ → Option ℕ
unfolding in_table
translate mem pgdir va =
    if is_present (mem pgdir (pdx va))
    then in_table mem (pgnum (mem pgdir (pdx va))) (ptx va)
    else none

-- The entries of a directory for addresses below UTOP.
abbrev pub user_pdes : ℕ
user_pdes = 955

pub pdx-lt-user : (va : ℕ) → va < utop → pdx va < user_pdes
pdx-lt-user va h = omega (arith, pdx_lem va)

-- No page serves as two tables, or as a table and the directory.
pub record IsTree (mem : Words) (pgdir : ℕ) : Type 0 where
  pub apart :
      (i j : ℕ)
      → i < user_pdes
      → j < user_pdes
      → is_present (mem pgdir i) ≡ true
      → is_present (mem pgdir j) ≡ true
      → pgnum (mem pgdir i) ≡ pgnum (mem pgdir j)
      → i ≡ j
  pub outside :
      (i : ℕ) → i < user_pdes → is_present (mem pgdir i) ≡ true → pgnum (mem pgdir i) ≢ pgdir

pub same_page :
    (va va' : ℕ)
    → va < utop
    → va' < utop
    → pdx va ≡ pdx va'
    → ptx va ≡ ptx va'
    → pgnum va ≡ pgnum va'
same_page va va' h h' e f = omega (arith, pgnum-fields va, pgnum-fields va')

pub fields_of_page :
    (va va' : ℕ)
    → va < utop
    → va' < utop
    → pgnum va ≡ pgnum va'
    → (pdx va ≡ pdx va') × (ptx va ≡ ptx va')
fields_of_page va va' h h' e =
    omega (arith, pgnum-fields va, pgnum-fields va', ptx_lem va, ptx_lem va')

pub zero_absent : is_present 0 ≡ false
unfolding flag
zero_absent = refl

module _ {mem : Words} {pgdir : ℕ} (t : IsTree mem pgdir) (va : ℕ) (low : va < utop) where
  module _ (here : is_present (mem pgdir (pdx va)) ≡ true) where
    abbrev pt : ℕ
    pt = pgnum (mem pgdir (pdx va))

    not_pgdir : pgdir ≢ pt
    not_pgdir e = t.outside (pdx va) (pdx-lt-user va low) here (sym e)

    pub translate-write_self :
        (w : ℕ) → is_present w ≡ true → translate (write_word mem pt (ptx va) w) pgdir va ≡ some w
    unfolding translate in_table
    translate-write_self w p = ground (arith, not_pgdir)

    pub translate-write_none :
        (w : ℕ) → is_present w ≡ false → translate (write_word mem pt (ptx va) w) pgdir va ≡ none
    unfolding translate in_table
    translate-write_none w p = ground (arith, not_pgdir)

    pub translate-write_ne :
        (w va' : ℕ)
        → va' < utop
        → pgnum va' ≢ pgnum va
        → translate (write_word mem pt (ptx va) w) pgdir va' ≡ translate mem pgdir va'
    unfolding translate
    translate-write_ne w va' low' ne = ground (
      arith,
      not_pgdir,
      same_page va' va,
      t.apart (pdx va') (pdx va) (pdx-lt-user va' low') (pdx-lt-user va low),
    )

    pub write-IsTree : (i w : ℕ) → IsTree (write_word mem pt i w) pgdir
    write-IsTree i w = record {
      apart = λ a b ha hb pa pb e. ground (arith, not_pgdir, t.apart a b ha hb);
      outside = λ a ha pa e. ground (arith, not_pgdir, t.outside a ha);
    }

  -- A cleared page `p` that is not in the tree becomes the table for the address.
  module _ (p e : ℕ) (absent : is_present (mem pgdir (pdx va)) ≡ false) (other : p ≢ pgdir)
      (fresh : (i : ℕ) → i < user_pdes → is_present (mem pgdir i) ≡ true → pgnum (mem pgdir i) ≢ p)
      (present : is_present e ≡ true) (names : pgnum e ≡ p) where
    abbrev grown : Words
    grown = write_word (update mem p (λ _. 0)) pgdir (pdx va) e

    pub translate-grown :
        (va' : ℕ) → va' < utop → translate grown pgdir va' ≡ translate mem pgdir va'
    unfolding translate in_table
    translate-grown va' low' = elim (Bool-cases (pdx va' == pdx va)) [
      | inl same ↦ ground (arith, zero_absent)
      | inr differs ↦ ground (
        arith,
        fresh (pdx va') (pdx-lt-user va' low'),
        t.outside (pdx va') (pdx-lt-user va' low'),
      )
    ]

    pub grown-IsTree : IsTree grown pgdir
    grown-IsTree = record {
      apart = λ a b ha hb pa pb e. ground (arith, t.apart a b ha hb, fresh a ha, fresh b hb);
      outside = λ a ha pa e. ground (arith, t.outside a ha);
    }
