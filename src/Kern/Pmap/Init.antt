-- ===== src/Kern/Pmap/Init.antt =====
-- `page_init`: which pages of the machine start out free.
use sisotp.Base.{
  ℕ, zero, suc, ◌+◌, ◌-◌, ◌/◌, ◌^◌, ◌≤◌, ◌<◌, ◌≡◌, ◌≢◌, ◌↔◌, refl, Bool, true, false, not, ◌&&◌,
  ◌||◌, ◌⊎◌, subst, none, some, List, [], ◌∷◌, All, has, ◌∈◌, ◌∉◌, update, arith, ltb, leb, ◌==◌,
  inl, inr, Bool-cases,
}
use sisotp.Kern.Mmu.{kernbase, pgnum}
use sisotp.Kern.State.{PageInfo, Kernel}
use sisotp.Kern.Monad.{ok}
use sisotp.Kern.Pmap.{page_init, page_init_loop, page_init_round, boot_alloc, paddr}
use sisotp.Kern.Pmap.FreeList.{IsFreeList, Chain-update, All-update}

-- The I/O hole and the kernel with its tables, and the page of the startup code for other CPUs.
abbrev pub is_reserved : (lim_sup_kernmem p : ℕ) → Bool
is_reserved lim p = (leb 160 p && ltb p lim) || p == 7

below-∉ : (xs : List ℕ) (i : ℕ) → All (λ x. x < i) xs → i ∉ xs
below-∉ [] i b = refl
below-∉ (x ∷ xs) i b = ground (arith, below-∉ xs i)

below_mono : (xs : List ℕ) (i : ℕ) → All (λ x. x < i) xs → All (λ x. x < i + 1) xs
below_mono [] i b = tt
below_mono (x ∷ xs) i b = (omega arith, below_mono xs i b.1)

-- What the loop has done when it comes to page `i`.
pub record Progress (k₀ : Kernel) (i : ℕ) (xs : List ℕ) (k : Kernel) : Type 0 where
  pub free : IsFreeList k xs
  pub below : All (λ x. x < i) xs
  pub npages : k.npages ≡ k₀.npages
  pub mem : k.mem ≡ k₀.mem

round-reserved :
    (k₀ k : Kernel) (lim i : ℕ) (xs : List ℕ)
    → Progress k₀ i xs k
    → is_reserved lim i ≡ true
    → (k' : Kernel) × (page_init_round lim i k ≡ ok tt k') × Progress k₀ (i + 1) xs k'
unfolding page_init_round pgnum
round-reserved k₀ k lim i xs g r = (
  record k { pages = update k.pages i (record (k.pages i) { pp_ref = 1 }) },
  rw r,
  record {
    free = record {
      chain = Chain-update k.pages k.page_free_list xs i _ (below-∉ xs i g.below) g.free.chain;
      distinct = g.free.distinct;
      unused = All-update k.pages k.npages xs i _ (below-∉ xs i g.below) g.free.unused;
    };
    below = below_mono xs i g.below;
    npages = g.npages;
    mem = g.mem;
  },
)

round-usable :
    (k₀ k : Kernel) (lim i : ℕ) (xs : List ℕ)
    → Progress k₀ i xs k
    → i < k.npages
    → is_reserved lim i ≡ false
    → (k' : Kernel) × (page_init_round lim i k ≡ ok tt k') × Progress k₀ (i + 1) (i ∷ xs) k'
unfolding page_init_round pgnum
round-usable k₀ k lim i xs g b r =
    let fresh = below-∉ xs i g.below in
    let info : PageInfo = record { pp_ref = 0; pp_link = k.page_free_list } in
    (
      record k { pages = update k.pages i info; page_free_list = some i },
      rw r,
      record {
        free = record {
          chain = (
            refl,
            ground (arith, Chain-update k.pages k.page_free_list xs i info fresh g.free.chain),
          );
          distinct = (fresh, g.free.distinct);
          unused = (ground arith, All-update k.pages k.npages xs i info fresh g.free.unused);
        };
        below = (omega arith, below_mono xs i g.below);
        npages = g.npages;
        mem = g.mem;
      },
    )

abbrev covered : (lim i end : ℕ) → ℕ → Bool
covered lim i end p = leb i p && ltb p end && not (is_reserved lim p)

-- The loop from page `i` up to page `end`.
record Done (k₀ : Kernel) (lim i end : ℕ) (xs : List ℕ) (k k' : Kernel) (rounds : ℕ) : Type 0 where
  ys : List ℕ
  returns : page_init_loop lim rounds i k ≡ ok tt k'
  progress : Progress k₀ end ys k'
  members : (p : ℕ) → has p ys ≡ (has p xs || covered lim i end p)

loop-Done :
    (k₀ : Kernel) (lim rounds i end : ℕ) (xs : List ℕ) (k : Kernel)
    → Progress k₀ i xs k
    → i + rounds ≡ end
    → end ≤ k₀.npages
    → (k' : Kernel) × Done k₀ lim i end xs k k' rounds
unfolding page_init_loop
loop-Done k₀ lim zero i end xs k g e b = (
  k,
  record {
    ys = xs;
    returns = refl;
    progress = subst (λ n. Progress k₀ n xs k) (omega arith) g;
    members = λ p. ground arith;
  },
)
loop-Done k₀ lim (suc rounds) i end xs k g e b = elim (Bool-cases (is_reserved lim i)) [
  | inl r ↦
      let (k₁, e₁, g₁) = round-reserved k₀ k lim i xs g r in
      let (k', d) = loop-Done k₀ lim rounds (i + 1) end xs k₁ g₁ (omega arith) b in
      (
        k',
        record {
          ys = d.ys;
          returns = rw e₁ d.returns;
          progress = d.progress;
          members = λ p. ground (arith, d.members p);
        },
      )
  | inr r ↦
      let (k₁, e₁, g₁) = round-usable k₀ k lim i xs g (ground arith) r in
      let (k', d) = loop-Done k₀ lim rounds (i + 1) end (i ∷ xs) k₁ g₁ (omega arith) b in
      (
        k',
        record {
          ys = d.ys;
          returns = rw e₁ d.returns;
          progress = d.progress;
          members = λ p. ground (arith, d.members p);
        },
      )
]

-- `page_init`, run on an empty free list of a machine with pages, where `boot_alloc` has given
-- away memory from KERNBASE up, returns, changes no memory, and leaves a free list (a chain
-- without repetition of unreferenced pages) that holds exactly the pages of the machine other
-- than page 0, page MPENTRY_PADDR / PGSIZE = 7, and those from the start of the I/O hole, page
-- 160, up to the first address that `boot_alloc` has not given away.
pub page_init-IsFreeList :
    (end : ℕ) (k : Kernel)
    → k.page_free_list ≡ none
    → kernbase ≤ k.nextfree
    → 0 < k.npages
    → (k' : Kernel) × (ys : List ℕ) × (page_init end k ≡ ok tt k')
      × IsFreeList k' ys
      × (k'.mem ≡ k.mem)
      × ((p : ℕ)
          → (p ∈ ys) ↔ (
              (0 < p)
              × (p < k.npages)
              × (p ≢ 7)
              × ((p < 160) ⊎ ((k.nextfree - kernbase) / 2 ^ 12 ≤ p))))
unfolding page_init boot_alloc paddr pgnum
page_init-IsFreeList end k e b n =
    let lim = (k.nextfree - kernbase) / 2 ^ 12 in
    let start : Progress k 1 [] k = record {
      free = record { chain = e; distinct = tt; unused = tt };
      below = tt;
      npages = refl;
      mem = refl;
    } in
    let (k', d) =
      loop-Done k lim (k.npages - 1) 1 k.npages [] k start (omega arith) (omega arith) in
    (
      k',
      d.ys,
      ground (arith, d.returns),
      d.progress.free,
      d.progress.mem,
      λ p. ground (arith, d.members p),
    )
