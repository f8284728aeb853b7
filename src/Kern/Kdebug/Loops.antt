-- ===== src/Kern/Kdebug/Loops.antt =====
-- jos/kern/kdebug.c: the loops of `stab_binsearch`.
use sisotp.Base.{
  ℕ, zero, suc, ◌+◌, ◌-◌, ◌*◌, ◌/◌, ◌%◌, ◌^◌, ◌≤◌, ◌<◌, ◌≡◌, inl, inr, refl, ap, true, false, not,
  ◌&&◌, some, arith, Bool-cases, ltb, leb, eq_of_==, ◌==◌, if◌then◌else◌,
}
use sisotp.Kern.Kdebug.{Stab, has_type, value_at, earliest, Region, narrow, round, rounds}

-- What the loops downwards find in front of `m`.
pub record Earliest (stabs : ℕ → Stab) (type l m n : ℕ) : Type 0 where
  pub le : n ≤ m
  pub low : l ≤ m + 1 → l ≤ n + 1
  pub found : l ≤ n → has_type stabs type n ≡ true
  pub skipped : (k : ℕ) → l ≤ k → n < k → k ≤ m → has_type stabs type k ≡ false

pub earliest-Earliest :
    (stabs : ℕ → Stab) (type l m : ℕ) → 1 ≤ l → Earliest stabs type l m (earliest stabs type l m)
unfolding earliest
earliest-Earliest stabs type l zero e = record {
  le = omega arith;
  low = λ h. h;
  found = λ h. absurd (omega arith);
  skipped = λ k a b c. absurd (omega arith);
}
earliest-Earliest stabs type l (suc m) e =
    elim (Bool-cases (leb l (suc m) && not (has_type stabs type (suc m)))) [
      | inl t ↦
          (let p = earliest-Earliest stabs type l m e in
            rw t (record {
              le = omega (arith, p.le);
              low = λ h. ground (arith, p.low);
              found = p.found;
              skipped = λ k a b c. elim (Bool-cases (k == suc m)) [
                | inl u ↦ rw (eq_of_== k (suc m) u) (ground arith)
                | inr u ↦ p.skipped k a b (ground arith)
              ];
            }))
      | inr t ↦ rw t (record {
        le = omega arith;
        low = λ h. h;
        found = λ h. ground arith;
        skipped = λ k a b c. absurd (omega arith);
      })
    ]

module _ (stabs : ℕ → Stab) where
  -- The four ways of the body of the search.
  pub narrow-cases :
      (P : Region stabs → Type 0) (true_m m : ℕ) (s : Region stabs)
      → (m < s.l → P (record s { l = true_m + 1 }))
      → (s.l ≤ m
          → value_at stabs m < s.addr
          → P (record s { any_matches = true; region_left = m; l = true_m + 1 }))
      → (s.l ≤ m
          → s.addr < value_at stabs m
          → P (record s { any_matches = true; region_right = m - 1; r = m - 1 }))
      → (s.l ≤ m
          → value_at stabs m ≡ s.addr
          → P (record s {
            any_matches = true;
            region_left = m;
            l = m;
            addr = (s.addr + 1) % 2 ^ 32;
          }))
      → P (narrow stabs true_m m s)
  unfolding narrow
  narrow-cases P true_m m s h1 h2 h3 h4 = elim (Bool-cases (ltb m s.l)) [
    | inl t ↦ rw t (h1 (ground arith))
    | inr t ↦ rw t (elim (Bool-cases (ltb (value_at stabs m) s.addr)) [
      | inl u ↦ rw u (h2 (ground arith) (ground arith))
      | inr u ↦ rw u (elim (Bool-cases (ltb s.addr (value_at stabs m))) [
        | inl v ↦ rw v (h3 (ground arith) (ground arith))
        | inr v ↦ rw v (h4 (ground arith) (ground arith))
      ])
    ])
  ]

  -- What a round makes smaller. An exact match may leave the range, but not the address.
  pub size : Region stabs → ℕ
  size s = 2 * (s.r + 1 - s.l) + (if value_at stabs s.l == s.addr then 1 else 0)

  pub size-le : (s : Region stabs) → size s ≤ 2 * (s.r + 1 - s.l) + 1
  unfolding size
  size-le s = ground arith

  Smaller : (s t : Region stabs) → Type 0
  Smaller s t = (size t < size s) × (1 ≤ t.l)

  shorter : (s t : Region stabs) → t.r + 1 - t.l < s.r + 1 - s.l → 1 ≤ t.l → Smaller s t
  unfolding Smaller size
  shorter s t l e = (ground arith, e)

  again :
      (s : Region stabs) (m : ℕ)
      → s.l ≡ m
      → value_at stabs m ≡ s.addr
      → 1 ≤ s.l
      → Smaller s
          (record s { any_matches = true; region_left = m; l = m; addr = (s.addr + 1) % 2 ^ 32 })
  unfolding Smaller size
  again s m q g e = (ground (arith, ap (value_at stabs) q), omega arith)

  narrow-Smaller :
      (s : Region stabs) (true_m m : ℕ)
      → 1 ≤ s.l
      → s.l ≤ true_m
      → true_m ≤ s.r
      → m ≤ true_m
      → Smaller s (narrow stabs true_m m s)
  narrow-Smaller s true_m m e lo hi a =
      narrow-cases (Smaller s) true_m m s (λ h. shorter s _ (omega arith) (omega arith))
        (λ h g. shorter s _ (omega arith) (omega arith)) (λ h g. shorter s _ (omega arith) e)
        (λ h g. elim (Bool-cases (s.l == m)) [
          | inl t ↦ again s m (eq_of_== s.l m t) g e
          | inr t ↦ shorter s _ (ground arith) (omega arith)
        ])

  round-Smaller :
      (type : ℕ) (s : Region stabs) → 1 ≤ s.l → s.l ≤ s.r → Smaller s (round stabs type s)
  unfolding round
  round-Smaller type s e g =
      narrow-Smaller s ((s.l + s.r) / 2) _ e (omega arith) (omega arith)
        (earliest-Earliest stabs type s.l ((s.l + s.r) / 2) e).le

  -- The loop ends, with the range empty and what the rounds keep.
  pub rounds-end :
      (fuel type : ℕ) (P : Region stabs → Type 0) (s : Region stabs)
      → ((q : Region stabs) → 1 ≤ q.l → q.l ≤ q.r → P q → P (round stabs type q))
      → 1 ≤ s.l
      → size s < fuel
      → P s
      → (t : Region stabs) × (rounds stabs fuel type s ≡ some t) × (t.r < t.l) × P t
  unfolding rounds Smaller
  rounds-end zero type P s k e b p = absurd (omega arith)
  rounds-end (suc fuel) type P s k e b p = elim (Bool-cases (ltb s.r s.l)) [
    | inl t ↦ (s, rw t refl, ground arith, p)
    | inr t ↦
        (let go : s.l ≤ s.r = ground arith in
          let (less, low) = round-Smaller type s e go in
          let (u, r, l, q) =
            rounds-end fuel type P (round stabs type s) k low (omega arith) (k s e go p) in
          (u, rw t r, l, q))
  ]
