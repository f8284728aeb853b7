-- ===== src/Kern/Kdebug/Bracket.antt =====
-- jos/kern/kdebug.c: what the rounds of `stab_binsearch` know of a sorted table.
use sisotp.Base.{
  ℕ, ◌+◌, ◌/◌, ◌^◌, ◌≤◌, ◌<◌, ◌≡◌, ◌≢◌, ◌⊎◌, inl, inr, refl, sym, subst, true, arith, Bool-cases,
  leb, ◌==◌, eq_of_==,
}
use sisotp.Kern.Kdebug.{Stab, has_type, value_at, earliest, Region, round, outcome}
use sisotp.Kern.Kdebug.Loops.{Earliest, earliest-Earliest, narrow-cases}
use sisotp.Kern.Kdebug.Search.{Known, round-Known, outside, at_first, at_first-Known}

module _ (stabs : ℕ → Stab) (type left right : ℕ) where
  -- An entry of the range that has the type.
  pub record IsEntry (k : ℕ) : Type 0 where
    pub from : left ≤ k
    pub to : k ≤ right
    pub typed : has_type stabs type k ≡ true

  -- The entries of the type stand in the order of their values.
  abbrev pub IsSorted : Type 0
  IsSorted = (j k : ℕ) → IsEntry j → IsEntry k → j < k → value_at stabs j ≤ value_at stabs k

  module _ (addr : ℕ) where
    pub record Bracket (s : Region stabs) : Type 0 where
      pub known : Known stabs type left right s
      pub current : (s.addr ≡ addr) ⊎ (s.addr ≡ addr + 1)
      pub below : (k : ℕ) → IsEntry k → k < s.l → value_at stabs k ≤ addr
      pub above : (k : ℕ) → IsEntry k → s.r < k → addr < value_at stabs k
      pub best :
          (s.region_left ≡ left) ⊎ (IsEntry s.region_left × (value_at stabs s.region_left ≤ addr))

    module _ (sorted : IsSorted) (room : addr + 1 < 2 ^ 32)
        (gap : (k : ℕ) → IsEntry k → value_at stabs k ≢ addr + 1) where
      -- The entries up to one with a value of at most `addr`, and those from one with a greater value.
      up_to :
          (m : ℕ)
          → IsEntry m
          → value_at stabs m ≤ addr
          → (k : ℕ) → IsEntry k
          → k ≤ m
          → value_at stabs k ≤ addr
      up_to m i v k j h = elim (Bool-cases (k == m)) [
        | inl t ↦ rw (eq_of_== k m t) v
        | inr t ↦ omega (arith, sorted k m j i (ground arith))
      ]

      from_on :
          (m : ℕ)
          → IsEntry m
          → addr < value_at stabs m
          → (k : ℕ) → IsEntry k
          → m ≤ k
          → addr < value_at stabs k
      from_on m i v k j h = elim (Bool-cases (k == m)) [
        | inl t ↦ rw (eq_of_== k m t) v
        | inr t ↦ omega (arith, sorted m k i j (ground arith))
      ]

      -- The entries in front of `mid + 1`, if those in front of `n + 1` are known.
      to_middle :
          (l mid n : ℕ)
          → Earliest stabs type l mid n
          → l ≤ n + 1
          → ((k : ℕ) → IsEntry k → k ≤ n → value_at stabs k ≤ addr)
          → (k : ℕ) → IsEntry k
          → k < mid + 1
          → value_at stabs k ≤ addr
      to_middle l mid n p e b k i h = elim (Bool-cases (leb k n)) [
        | inl t ↦ b k i (ground arith)
        | inr t ↦ ground (arith, i.typed, p.skipped k)
      ]

      pub round-Bracket :
          (s : Region stabs) → 1 ≤ s.l → s.l ≤ s.r → Bracket s → Bracket (round stabs type s)
      unfolding round
      round-Bracket s e g b =
          let mid = (s.l + s.r) / 2 in
          let p = earliest-Earliest stabs type s.l mid e in
          let m = earliest stabs type s.l mid in
          let known = round-Known stabs type left right s e g b.known in
          let low = p.low (omega arith) in
          let entry : s.l ≤ m → IsEntry m = λ h. record {
            from = omega (arith, b.known.first);
            to = omega (arith, b.known.last, p.le);
            typed = p.found h;
          } in
          narrow-cases stabs (λ t. Known stabs type left right t → Bracket t) mid m s
            (λ h k. record {
              known = k;
              current = b.current;
              below = to_middle s.l mid m p low (λ j i a. b.below j i (omega arith));
              above = b.above;
              best = b.best;
            })
            (λ h v k.
              let v' : value_at stabs m ≤ addr = ground (arith, b.current, gap m (entry h)) in
              record {
                known = k;
                current = b.current;
                below = to_middle s.l mid m p low (up_to m (entry h) v');
                above = b.above;
                best = inr (entry h, v');
              })
            (λ h v k. record {
              known = k;
              current = b.current;
              below = b.below;
              above = λ j i a. from_on m (entry h) (ground (arith, b.current)) j i (omega arith);
              best = b.best;
            })
            (λ h v k.
              let c : s.addr ≡ addr = ground (arith, b.current, gap m (entry h)) in
              record {
                known = k;
                current = inr (omega arith);
                below = λ j i a. up_to m (entry h) (omega arith) j i (omega arith);
                above = b.above;
                best = inr (entry h, omega arith);
              })
            known

      pub first-Bracket : Bracket (at_first stabs left right addr)
      first-Bracket = record {
        known = at_first-Known stabs type left right addr;
        current = inl refl;
        below = λ k i h. absurd (omega (arith, i.from));
        above = λ k i h. absurd (omega (arith, i.to));
        best = inl refl;
      }

      -- What the function leaves behind the loop.
      pub last_region :
          (s : Region stabs) (j : ℕ)
          → 1 ≤ left
          → Bracket s
          → s.r < s.l
          → IsEntry j
          → value_at stabs j ≤ addr
          → (left' : ℕ) × (outcome stabs type s ≡ (left', s.r))
            × IsEntry left'
            × (value_at stabs left' ≤ addr)
            × (left' ≤ s.r)
            × ((k : ℕ) → IsEntry k → value_at stabs k ≤ addr → k ≤ left')
      unfolding outcome
      last_region s j e b g i v =
          let n = earliest stabs type (s.region_left + 1) s.region_right in
          let p = earliest-Earliest stabs type (s.region_left + 1) s.region_right (omega arith) in
          let same = b.known.same in
          let any : s.any_matches ≡ true = elim (Bool-cases s.any_matches) [
            | inl t ↦ t
            | inr t ↦ ground (
              arith,
              i.typed,
              b.known.passed t j i.from i.to (outside stabs type left right j s.l s.r g),
            )
          ] in
          let up : (k : ℕ) → IsEntry k → value_at stabs k ≤ addr → k ≤ s.r = λ k c d.
            elim (Bool-cases (leb k s.r)) [
              | inl t ↦ ground arith
              | inr t ↦ omega (arith, b.above k c (ground arith))
            ] in
          let low : s.region_left ≤ n = elim b.best [
            | inl t ↦ omega (arith, p.low (omega (arith, i.from, up j i v)))
            | inr t ↦ omega (arith, p.low (omega (arith, up s.region_left t.0 t.1)))
          ] in
          let all : (k : ℕ) → IsEntry k → value_at stabs k ≤ addr → k ≤ n = λ k c d.
            elim (Bool-cases (leb k n)) [
              | inl t ↦ ground arith
              | inr t ↦ ground (arith, c.typed, up k c d, p.skipped k)
            ] in
          let entry : IsEntry n = elim (Bool-cases (leb (s.region_left + 1) n)) [
            | inl t ↦ record {
              from = elim b.best [
                | inl u ↦ omega (arith, low)
                | inr u ↦ omega (arith, low, u.0.from)
              ];
              to = omega (arith, p.le, b.known.last);
              typed = p.found (ground arith);
            }
            | inr t ↦
                (let at : n ≡ s.region_left = ground arith in
                  elim b.best [
                    | inl u ↦ subst IsEntry (omega (arith, at, all j i v, i.from)) i
                    | inr u ↦ subst IsEntry (sym at) u.0
                  ])
          ] in
          (
            n,
            rw (any, same) refl,
            entry,
            b.below n entry (omega (arith, p.le)),
            omega (arith, p.le),
            all,
          )
