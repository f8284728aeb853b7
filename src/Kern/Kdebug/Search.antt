-- ===== src/Kern/Kdebug/Search.antt =====
-- jos/kern/kdebug.c: what `stab_binsearch` says of any table.
use sisotp.Base.{
  ℕ, ◌+◌, ◌-◌, ◌*◌, ◌/◌, ◌≤◌, ◌<◌, ◌≡◌, ◌⊎◌, inl, inr, refl, ap, ◌∙◌, true, false, Option, none,
  some, arith, Bool-cases, ltb,
}
use sisotp.Kern.Kdebug.{Stab, has_type, earliest, Region, round, rounds, outcome, stab_binsearch}
use sisotp.Kern.Kdebug.Loops.{earliest-Earliest, narrow-cases, size-le, rounds-end}

module _ (stabs : ℕ → Stab) (type left right : ℕ) where
  -- What the rounds know of the entries of the type.
  pub record Known (s : Region stabs) : Type 0 where
    pub first : left ≤ s.l
    pub last : s.r ≤ right
    pub same : s.region_right ≡ s.r
    pub kept : s.any_matches ≡ false → s.region_left ≡ left
    pub passed :
        s.any_matches ≡ false
        → (k : ℕ) → left ≤ k
        → k ≤ right
        → (k < s.l) ⊎ (s.r < k)
        → has_type stabs type k ≡ false
    pub found :
        s.any_matches ≡ true → (k : ℕ) × (left ≤ k) × (k ≤ right) × (has_type stabs type k ≡ true)

  -- A round that finds the entry `m`.
  found_at :
      (s t : Region stabs) (m : ℕ)
      → Known s
      → s.l ≤ m
      → m ≤ s.r
      → has_type stabs type m ≡ true
      → t.any_matches ≡ true
      → s.l ≤ t.l
      → t.r ≤ s.r
      → t.region_right ≡ t.r
      → Known t
  found_at s t m k lo hi e y a b c = record {
    first = omega (arith, k.first);
    last = omega (arith, k.last);
    same = c;
    kept = λ n. cc;
    passed = λ n j. cc;
    found = λ _. (m, omega (arith, k.first), omega (arith, k.last), e);
  }

  pub round-Known : (s : Region stabs) → 1 ≤ s.l → s.l ≤ s.r → Known s → Known (round stabs type s)
  unfolding round
  round-Known s e g k =
      let mid = (s.l + s.r) / 2 in
      let p = earliest-Earliest stabs type s.l mid e in
      let m = earliest stabs type s.l mid in
      narrow-cases stabs Known mid m s
        (λ h. record {
          first = omega (arith, k.first);
          last = k.last;
          same = k.same;
          kept = k.kept;
          passed = λ n j a b. elim (Bool-cases (ltb j s.l)) [
            | inl t ↦ (λ c. k.passed n j a b (inl (ground arith)))
            | inr t ↦ (λ c. elim (Bool-cases (ltb s.r j)) [
              | inl u ↦ k.passed n j a b (inr (ground arith))
              | inr u ↦ p.skipped j (ground arith) (ground arith) (ground arith)
            ])
          ];
          found = k.found;
        })
        (λ h v.
          found_at s _ m k h (omega (arith, p.le)) (p.found h) refl (omega arith) (omega arith)
            k.same)
        (λ h v.
          found_at s _ m k h (omega (arith, p.le)) (p.found h) refl (omega arith)
            (omega (arith, p.le)) refl)
        (λ h v. found_at s _ m k h (omega (arith, p.le)) (p.found h) refl h (omega arith) k.same)

  -- An index lies in front of an empty range or behind it.
  pub outside : (k l r : ℕ) → r < l → (k < l) ⊎ (r < k)
  outside k l r h = elim (Bool-cases (ltb k l)) [
    | inl t ↦ inl (ground arith)
    | inr t ↦ inr (ground arith)
  ]

  ends :
      (s : Region stabs)
      → 1 ≤ left
      → s.r < s.l
      → Known s
      → (left' right' : ℕ) × (outcome stabs type s ≡ (left', right'))
        × ((k : ℕ) → left ≤ k → k ≤ right → has_type stabs type k ≡ true → left' ≤ right')
        × (((k : ℕ) → left ≤ k → k ≤ right → has_type stabs type k ≡ false) → right' < left')
  unfolding outcome
  ends s e g q = elim (Bool-cases s.any_matches) [
    | inl t ↦
        (let p = earliest-Earliest stabs type (s.region_left + 1) s.region_right (omega arith) in
          let (k, a, b, c) = q.found t in
          (
            earliest stabs type (s.region_left + 1) s.region_right,
            s.region_right,
            rw t refl,
            (λ j x y z. p.le),
            (λ no. ground (arith, no k a b)),
          ))
    | inr t ↦ (
      s.region_left,
      s.region_left - 1,
      rw t refl,
      (λ j x y z. ground (arith, q.passed t j x y (outside j s.l s.r g))),
      (λ no. omega (arith, q.kept t)),
    )
  ]

abbrev pub at_first : (stabs : ℕ → Stab) (left right addr : ℕ) → Region stabs
at_first stabs left right addr = record {
  region_left = left;
  region_right = right;
  l = left;
  r = right;
  addr = addr;
  any_matches = false;
}

pub at_first-Known :
    (stabs : ℕ → Stab) (type left right addr : ℕ)
    → Known stabs type left right (at_first stabs left right addr)
at_first-Known stabs type left right addr = record {
  first = omega arith;
  last = omega arith;
  same = refl;
  kept = λ _. refl;
  passed = λ _ k a c h. absurd (ground arith);
  found = λ h. cc;
}

pub stab_binsearch-outcome :
    (stabs : ℕ → Stab) (fuel left right type addr : ℕ) (t : Region stabs)
    → rounds stabs fuel type (at_first stabs left right addr) ≡ some t
    → stab_binsearch stabs fuel left right type addr ≡ some (outcome stabs type t)
unfolding stab_binsearch
stab_binsearch-outcome stabs fuel left right type addr t e =
    ap
      (λ (o : Option (Region stabs)). elim o as (λ _. Option (ℕ × ℕ)) [
        | none ↦ none
        | some s ↦ some (outcome stabs type s)
      ])
      e

-- `stab_binsearch` ends on every table, sorted or not, and every address, also where `addr + 1` wraps
-- around. Afterwards `*region_left` is at most `*region_right` if some entry of the range has the
-- type, whatever the values of such entries are, and greater than it if none has.
pub stab_binsearch-found :
    (fuel : ℕ) (stabs : ℕ → Stab) (left right type addr : ℕ)
    → 1 ≤ left
    → 2 * (right + 1 - left) + 1 < fuel
    → (left' right' : ℕ) × (stab_binsearch stabs fuel left right type addr ≡ some (left', right'))
      × ((k : ℕ) → left ≤ k → k ≤ right → has_type stabs type k ≡ true → left' ≤ right')
      × (((k : ℕ) → left ≤ k → k ≤ right → has_type stabs type k ≡ false) → right' < left')
stab_binsearch-found fuel stabs left right type addr e b =
    let s = at_first stabs left right addr in
    let (t, r, g, q) =
      rounds-end stabs fuel type (Known stabs type left right) s (round-Known stabs type left right)
        e (omega (arith, size-le stabs s)) (at_first-Known stabs type left right addr) in
    let (x, y, h, m, n) = ends stabs type left right t e g q in
    (x, y, stab_binsearch-outcome stabs fuel left right type addr t r ∙ ap some h, m, n)
