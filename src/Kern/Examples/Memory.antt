-- ===== src/Kern/Examples/Memory.antt =====
-- Free pages of the example machine.
use sisotp.Base.{
  ℕ, ◌-◌, ◌/◌, ◌^◌, ◌≤◌, ◌<◌, ◌≡◌, ◌≢◌, ◌⊎◌, ◌↔◌, refl, none, some, List, [], ◌∷◌, ◌∈◌, arith,
}
use sisotp.Kern.State.{Kernel}
use sisotp.Kern.Monad.{ok, stop, panic}
use sisotp.Kern.Pmap.{page_alloc, page_free, page_init}
use sisotp.Kern.Pmap.FreeList.{IsFreeList}
use sisotp.Kern.Pmap.Alloc.{page_alloc-IsFreeList, page_free-IsFreeList, page_free-twice}
use sisotp.Kern.Pmap.Init.{page_init-IsFreeList}
use sisotp.Kern.Examples.{machine}

machine-IsFreeList : IsFreeList machine (5 ∷ 6 ∷ [])
machine-IsFreeList = record {
  chain = (refl, (refl, refl));
  distinct = ground arith;
  unused = ((omega arith, refl), ((omega arith, refl), tt));
}

page_alloc-IsFreeList_example :
    (k' : Kernel) × (page_alloc 1 machine ≡ ok (some 5) k') × IsFreeList k' (6 ∷ [])
page_alloc-IsFreeList_example =
    let r = (page_alloc-IsFreeList 1 machine 5 (6 ∷ []) (omega arith)).1 machine-IsFreeList in
    (r.0, r.1, r.2)

abbrev drained : Kernel
drained = record machine { page_free_list = none }

drained-IsFreeList : IsFreeList drained []
drained-IsFreeList = record { chain = refl; distinct = tt; unused = tt }

-- Page 6 is not on a list any more.
page_free-IsFreeList_example :
    (page_free 4 drained ≡ stop panic drained)
    × ((k' : Kernel) × (page_free 6 drained ≡ ok tt k') × IsFreeList k' (6 ∷ []))
page_free-IsFreeList_example =
    let r =
      (page_free-IsFreeList drained 6 [] drained-IsFreeList (omega arith)).2 refl refl
        (ground arith) in
    (
      (page_free-IsFreeList drained 4 [] drained-IsFreeList (omega arith)).0 (omega arith),
      (r.0, r.1, r.2),
    )

page_free-twice_example :
    (k₁ k₂ k₃ k₄ : Kernel) × (page_free 6 drained ≡ ok tt k₁)
    × (page_free 6 k₁ ≡ ok tt k₂)
    × (page_alloc 0 k₂ ≡ ok (some 6) k₃)
    × (page_alloc 0 k₃ ≡ ok (some 6) k₄)
page_free-twice_example =
    page_free-twice drained 6 drained-IsFreeList (omega arith) (omega arith) refl refl

-- `boot_alloc` has given away the pages below 1065.
page_init-IsFreeList_example :
    (k' : Kernel) × (ys : List ℕ) × (page_init 0 drained ≡ ok tt k')
    × IsFreeList k' ys
    × (k'.mem ≡ drained.mem)
    × ((p : ℕ)
        → (p ∈ ys) ↔ (
            (0 < p)
            × (p < 4096)
            × (p ≢ 7)
            × ((p < 160) ⊎ ((4031774720 - 4026531840) / 2 ^ 12 ≤ p))))
page_init-IsFreeList_example = page_init-IsFreeList 0 drained refl (omega arith) (omega arith)
