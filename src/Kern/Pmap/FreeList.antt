-- ===== src/Kern/Pmap/FreeList.antt =====
-- The list of free pages that `page_free_list` and the `pp_link` fields stand for.
use sisotp.Base.{
  ℕ, ◌≡◌, ◌<◌, Option, none, some, List, [], ◌∷◌, All, ◌∉◌, IsDistinct, update, arith,
}
use sisotp.Kern.State.{PageInfo, Kernel}

-- From `head` the links lead through the pages of the list, and end in NULL.
abbrev pub Chain : (ℕ → PageInfo) → Option ℕ → List ℕ → Type 0
Chain pages head [] = head ≡ none
Chain pages head (x ∷ xs) = (head ≡ some x) × Chain pages (pages x).pp_link xs

-- A free page is one of the machine's pages, and nothing refers to it.
abbrev pub IsUnused : (ℕ → PageInfo) → ℕ → ℕ → Type 0
IsUnused pages npages p = (p < npages) × ((pages p).pp_ref ≡ 0)

pub record IsFreeList (k : Kernel) (xs : List ℕ) : Type 0 where
  pub chain : Chain k.pages k.page_free_list xs
  pub distinct : IsDistinct xs
  pub unused : All (IsUnused k.pages k.npages) xs

pub Chain-update :
    (pages : ℕ → PageInfo) (head : Option ℕ) (xs : List ℕ) (p : ℕ) (i : PageInfo)
    → p ∉ xs
    → Chain pages head xs
    → Chain (update pages p i) head xs
Chain-update pages head [] p i o c = c
Chain-update pages head (x ∷ xs) p i o c =
    ground (arith, Chain-update pages (pages x).pp_link xs p i)

pub All-update :
    (pages : ℕ → PageInfo) (npages : ℕ) (xs : List ℕ) (p : ℕ) (i : PageInfo)
    → p ∉ xs
    → All (IsUnused pages npages) xs
    → All (IsUnused (update pages p i) npages) xs
All-update pages npages [] p i o c = tt
All-update pages npages (x ∷ xs) p i o c = ground (arith, All-update pages npages xs p i)
