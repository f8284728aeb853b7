-- ===== src/Kern/Pmap/Alloc.antt =====
-- `page_alloc` and `page_free` as the two ends of a stack of free pages.
use sisotp.Base.{
  ℕ, ◌^◌, ◌≤◌, ◌<◌, ◌≡◌, ◌≢◌, refl, true, none, some, List, [], ◌∷◌, ◌∉◌, update, arith,
  if◌then◌else◌,
}
use sisotp.Kern.Mmu.{pgnum, flag}
use sisotp.Kern.State.{Kernel}
use sisotp.Kern.Monad.{ok, stop, panic}
use sisotp.Kern.Pmap.{alloc_zero, page_alloc, page_alloc_first, page_free, page2kva, kaddr, page2pa}
use sisotp.Kern.Pmap.FreeList.{IsFreeList, Chain-update, All-update}

-- The kernel's pointer to a page of the machine is that page.
pub page2kva_lem : (k : Kernel) (p : ℕ) → p < k.npages → k.npages ≤ 2 ^ 20 → page2kva p k ≡ ok p k
unfolding page2kva kaddr page2pa pgnum
page2kva_lem k p h m = ground arith

-- The state that `page_alloc` leaves when it takes page `p`.
abbrev pub taken : (alloc_flags p : ℕ) → Kernel → Kernel
taken alloc_flags p k = record k {
  page_free_list = (k.pages p).pp_link;
  pages = update k.pages p (record (k.pages p) { pp_link = none });
  mem = if flag alloc_flags alloc_zero then update k.mem p (λ _. 0) else k.mem;
}

page_alloc-none :
    (alloc_flags : ℕ) (k : Kernel) → k.page_free_list ≡ none → page_alloc alloc_flags k ≡ ok none k
unfolding page_alloc
page_alloc-none alloc_flags k e = rw e

pub page_alloc-some :
    (alloc_flags : ℕ) (k : Kernel) (p : ℕ)
    → k.page_free_list ≡ some p
    → p < k.npages
    → k.npages ≤ 2 ^ 20
    → page_alloc alloc_flags k ≡ ok (some p) (taken alloc_flags p k)
unfolding page_alloc page_alloc_first page2kva kaddr page2pa pgnum
page_alloc-some alloc_flags k p e h m = ground arith

-- On a machine of at most 2 ^ 20 pages: on an empty free list `page_alloc` returns NULL and
-- changes nothing; on a list that begins with page `p` it returns `p`, unlinked and with no
-- references, the rest is the new free list, the page is cleared if ALLOC_ZERO is asked for, and
-- no other page or word of memory changes.
pub page_alloc-IsFreeList :
    (alloc_flags : ℕ) (k : Kernel) (p : ℕ) (xs : List ℕ)
    → k.npages ≤ 2 ^ 20
    → (IsFreeList k [] → page_alloc alloc_flags k ≡ ok none k)
      × (IsFreeList k (p ∷ xs)
          → (k' : Kernel) × (page_alloc alloc_flags k ≡ ok (some p) k')
            × IsFreeList k' xs
            × (p ∉ xs)
            × ((k'.pages p).pp_link ≡ none)
            × ((k'.pages p).pp_ref ≡ 0)
            × (flag alloc_flags alloc_zero ≡ true → (i : ℕ) → k'.mem p i ≡ 0)
            × ((q : ℕ) → q ≢ p → k'.pages q ≡ k.pages q)
            × ((q i : ℕ) → q ≢ p → k'.mem q i ≡ k.mem q i))
page_alloc-IsFreeList alloc_flags k p xs m = (
  λ e. page_alloc-none alloc_flags k e.chain,
  λ e. (
    taken alloc_flags p k,
    page_alloc-some alloc_flags k p e.chain.0 e.unused.0.0 m,
    record {
      chain = Chain-update k.pages (k.pages p).pp_link xs p _ e.distinct.0 e.chain.1;
      distinct = e.distinct.1;
      unused = All-update k.pages k.npages xs p _ e.distinct.0 e.unused.1;
    },
    e.distinct.0,
    ground arith,
    ground (arith, e.unused.0.1),
    λ z i. ground arith,
    λ q h. ground arith,
    λ q i h. ground arith,
  ),
)

-- The state that `page_free` leaves.
abbrev pub freed : ℕ → Kernel → Kernel
freed p k = record k {
  page_free_list = some p;
  pages = update k.pages p (record (k.pages p) { pp_link = k.page_free_list });
}

pub page_free-freed :
    (k : Kernel) (p : ℕ)
    → (k.pages p).pp_ref ≡ 0
    → (k.pages p).pp_link ≡ none
    → page_free p k ≡ ok tt (freed p k)
unfolding page_free
page_free-freed k p r l = ground arith

freed-IsFreeList :
    (k : Kernel) (p : ℕ) (xs : List ℕ)
    → IsFreeList k xs
    → p ∉ xs
    → p < k.npages
    → (k.pages p).pp_ref ≡ 0
    → IsFreeList (freed p k) (p ∷ xs)
freed-IsFreeList k p xs e o b r = record {
  chain = (
    refl,
    ground (
      arith,
      Chain-update k.pages k.page_free_list xs p (record (k.pages p) { pp_link = k.page_free_list })
          o e.chain,
    ),
  );
  distinct = (o, e.distinct);
  unused = (ground arith, All-update k.pages k.npages xs p _ o e.unused);
}

-- `page_free` panics, before it changes anything, on a page that is still referenced and on a page
-- with a link; on any other page outside the free list it puts the page at the front of that list,
-- and no other PageInfo and no memory changes.
pub page_free-IsFreeList :
    (k : Kernel) (p : ℕ) (xs : List ℕ)
    → IsFreeList k xs
    → p < k.npages
    → ((k.pages p).pp_ref ≢ 0 → page_free p k ≡ stop panic k)
      × ((k.pages p).pp_link ≢ none → page_free p k ≡ stop panic k)
      × ((k.pages p).pp_ref ≡ 0
          → (k.pages p).pp_link ≡ none
          → p ∉ xs
          → (k' : Kernel) × (page_free p k ≡ ok tt k')
            × IsFreeList k' (p ∷ xs)
            × ((q : ℕ) → q ≢ p → k'.pages q ≡ k.pages q)
            × (k'.mem ≡ k.mem))
unfolding page_free
page_free-IsFreeList k p xs e b = (
  λ r. ground arith,
  λ l. ground arith,
  λ r l o. (
    freed p k,
    page_free-freed k p r l,
    freed-IsFreeList k p xs e o b r,
    λ q h. ground arith,
    refl,
  ),
)

-- A page that goes to an empty free list of at most 2 ^ 20 pages has the link NULL there, which
-- is also the mark of a page in use: a second `page_free` of it is not refused, and the next two
-- calls of `page_alloc` both return that page.
pub page_free-twice :
    (k : Kernel) (p : ℕ)
    → IsFreeList k []
    → p < k.npages
    → k.npages ≤ 2 ^ 20
    → (k.pages p).pp_ref ≡ 0
    → (k.pages p).pp_link ≡ none
    → (k₁ k₂ k₃ k₄ : Kernel) × (page_free p k ≡ ok tt k₁)
      × (page_free p k₁ ≡ ok tt k₂)
      × (page_alloc 0 k₂ ≡ ok (some p) k₃)
      × (page_alloc 0 k₃ ≡ ok (some p) k₄)
page_free-twice k p e b m r l =
    let k₁ = freed p k in
    let k₂ = freed p k₁ in
    let k₃ = taken 0 p k₂ in
    let empty : k.page_free_list ≡ none = e.chain in
    (
      k₁,
      k₂,
      k₃,
      taken 0 p k₃,
      page_free-freed k p r l,
      page_free-freed k₁ p (ground arith) (ground arith),
      page_alloc-some 0 k₂ p refl b m,
      page_alloc-some 0 k₃ p (ground arith) b m,
    )
