-- ===== src/Kern/Kdebug/Sorted.antt =====
-- jos/kern/kdebug.c: what `stab_binsearch` finds in a sorted table.
use sisotp.Base.{
  ℕ, ◌+◌, ◌-◌, ◌*◌, ◌^◌, ◌≤◌, ◌<◌, ◌≡◌, ◌≢◌, inl, inr, ap, ◌∙◌, some, arith, Bool-cases, ltb,
}
use sisotp.Kern.Kdebug.{Stab, value_at, stab_binsearch}
use sisotp.Kern.Kdebug.Loops.{size-le, rounds-end}
use sisotp.Kern.Kdebug.Search.{at_first, stab_binsearch-outcome}
use sisotp.Kern.Kdebug.Bracket.{
  IsEntry, IsSorted, Bracket, round-Bracket, first-Bracket, last_region,
}

-- In a range in which the values of the entries of the type do not decrease, none is `addr + 1`, and
-- an entry `j` has a value of at most `addr`: `*region_left` is left at the last entry of the type
-- with a value of at most `addr`, and `*region_right` at an index from there on, in front of all
-- entries of the type with a greater value.
pub stab_binsearch-IsLast :
    (fuel : ℕ) (stabs : ℕ → Stab) (left right type addr j : ℕ)
    → 1 ≤ left
    → 2 * (right + 1 - left) + 1 < fuel
    → IsSorted stabs type left right
    → addr + 1 < 2 ^ 32
    → ((k : ℕ) → IsEntry stabs type left right k → value_at stabs k ≢ addr + 1)
    → IsEntry stabs type left right j
    → value_at stabs j ≤ addr
    → (left' right' : ℕ) × (stab_binsearch stabs fuel left right type addr ≡ some (left', right'))
      × IsEntry stabs type left right left'
      × (value_at stabs left' ≤ addr)
      × (left' ≤ right')
      × ((k : ℕ) → IsEntry stabs type left right k → value_at stabs k ≤ addr → k ≤ left')
      × ((k : ℕ) → IsEntry stabs type left right k → addr < value_at stabs k → right' < k)
stab_binsearch-IsLast fuel stabs left right type addr j e b sorted room gap i v =
    let s = at_first stabs left right addr in
    let (t, r, g, q) =
      rounds-end stabs fuel type (Bracket stabs type left right addr) s
        (round-Bracket stabs type left right addr sorted room gap) e
        (omega (arith, size-le stabs s))
        (first-Bracket stabs type left right addr sorted room gap) in
    let (n, h, entry, w, le, all) =
      last_region stabs type left right addr sorted room gap t j e q g i v in
    (
      n,
      t.r,
      stab_binsearch-outcome stabs fuel left right type addr t r ∙ ap some h,
      entry,
      w,
      le,
      all,
      (λ k c d. elim (Bool-cases (ltb t.r k)) [
        | inl u ↦ ground arith
        | inr u ↦ (let b : k < t.l = ground arith in absurd (omega (arith, q.below k c b)))
      ]),
    )
