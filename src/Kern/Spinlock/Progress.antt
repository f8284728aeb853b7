-- ===== src/Kern/Spinlock/Progress.antt =====
-- jos/kern/spinlock.c: a CPU that spins can get the lock.
use sisotp.Base.{
  ℕ, ◌≤◌, ◌<◌, ◌≡◌, ◌≢◌, inl, inr, refl, ap, ◌∙◌, leb, true, false, ◌||◌, arith, Bool-cases, ◌==◌,
  ==-eq_false, eq_of_==, if◌then◌else◌, update, update_self, update_ne, subst,
}
use sisotp.Kern.Spinlock.{
  Pc, running, lock_called, lock_test, unlock_called, unlock_test, panicked, spinning, acquired,
  recorded, unlocking, clearing, releasing, spin_step,
}
use sisotp.Kern.Spinlock.System.{System, Step, spin_lock, spin_unlock, access, Reach, start, later}
use sisotp.Kern.Spinlock.Invariant.{owns, named, Inv, Step-Inv, Reach-Inv}
use sisotp.Kern.Spinlock.Safety.{is_misuse, is_panicked, is_own}

pub data Steps (n : ℕ) : System → System → Type 0 where
  none : {s : System} → Steps n s s
  next : {s t u : System} → Step n s t → Steps n t u → Steps n s u

-- Only a CPU below `n` calls the functions.
running_outside : {n : ℕ} {s : System} → Reach n s → (j : ℕ) → n ≤ j → s.pc j ≡ running false
running_outside start j l = refl
running_outside (later r (spin_lock i h e)) j l = ground (arith, running_outside r j l)
running_outside (later r (spin_unlock i h e)) j l = ground (arith, running_outside r j l)
running_outside (later {s} r (access i word ebp h)) j l =
    update_ne s.pc i _ (λ e. omega arith) ∙ running_outside r j l

-- The state after the access of the CPU `k`, with no frame on its stack.
turn : (k : ℕ) → System → System
turn k s = record {
  lock = (spin_step (λ a. 0) 0 k s.lock (s.pc k)).0;
  pc = update s.pc k (spin_step (λ a. 0) 0 k s.lock (s.pc k)).1;
}

turn-Step : {n : ℕ} (k : ℕ) (s : System) → k < n → Step n s (turn k s)
unfolding turn
turn-Step k s l = access k (λ a. 0) 0 l

-- The CPU `i` gets the lock.
Gets : (n i : ℕ) → System → Type 0
Gets n i s = (t : System) × Steps n s t × (t.pc i ≡ acquired)

from_free : (n i : ℕ) (s : System) → i < n → s.pc i ≡ spinning → s.lock.locked ≡ 0 → Gets n i s
unfolding Gets turn spin_step
from_free n i s b e l =
    (turn i s, next (turn-Step i s b) none, update_self s.pc i _ ∙ rw (e, l) refl)

module _ (n i j : ℕ) (i_below : i < n) (j_below : j < n) (differ : i ≢ j) where
  record Ready (s : System) (p : Pc) : Type 0 where
    inv : Inv s.lock s.pc
    spins : s.pc i ≡ spinning
    stands : s.pc j ≡ p

  after_turn :
      (s : System) (p : Pc)
      → Ready s p
      → (Ready (turn j s) (spin_step (λ a. 0) 0 j s.lock p).1 → Gets n i (turn j s))
      → Gets n i s
  unfolding Gets turn
  after_turn s p r k =
      let (t, steps, got) = k (record {
        inv = Step-Inv (turn-Step j s j_below) r.inv;
        spins = update_ne s.pc j _ differ ∙ r.spins;
        stands = update_self s.pc j _ ∙ ap (λ q. (spin_step (λ a. 0) 0 j s.lock q).1) r.stands;
      }) in
      (t, next (turn-Step j s j_below) steps, got)

  -- The accesses of the owner `j`, from the last to the first.
  from_releasing : (s : System) → Ready s releasing → Gets n i s
  unfolding Gets turn spin_step
  from_releasing s r = after_turn s releasing r λ q.
      from_free n i (turn j s) i_below q.spins
        (ap (λ p. (spin_step (λ a. 0) 0 j s.lock p).0.locked) r.stands)

  from_clearing : (s : System) → Ready s clearing → Gets n i s
  unfolding spin_step
  from_clearing s r = after_turn s clearing r (λ q. from_releasing (turn j s) q)

  from_unlocking : (s : System) → Ready s unlocking → Gets n i s
  unfolding spin_step
  from_unlocking s r = after_turn s unlocking r (λ q. from_clearing (turn j s) q)

  from_unlock_test : (s : System) → Ready s (unlock_test true) → Gets n i s
  unfolding spin_step owns named
  from_unlock_test s r =
      let mine = is_own s j r.inv (rw (r.stands) refl) in
      after_turn s (unlock_test true) r λ q.
        from_unlocking (turn j s)
          (subst (λ b. Ready (turn j s) (if b then unlocking else panicked true)) mine q)

  from_unlock_called : (s : System) → Ready s (unlock_called true) → Gets n i s
  unfolding spin_step owns
  from_unlock_called s r =
      let taken : (s.lock.locked == 0) ≡ false =
        ==-eq_false s.lock.locked 0 (r.inv.owned j (rw (r.stands) refl)) in
      after_turn s (unlock_called true) r λ q.
        from_unlock_test (turn j s)
          (subst (λ b. Ready (turn j s) (if b then panicked true else unlock_test true)) taken q)

  from_running : (s : System) → Ready s (running true) → Gets n i s
  unfolding Gets
  from_running s r =
      let t : System = record s { pc = update s.pc j (unlock_called true) } in
      let step = spin_unlock j j_below r.stands in
      let (u, steps, got) = from_unlock_called t (record {
        inv = Step-Inv {n = n} {s = s} {t = t} step r.inv;
        spins = update_ne s.pc j _ differ ∙ r.spins;
        stands = update_self s.pc j _;
      }) in
      (u, next {s = s} {t = t} step steps, got)

  from_recorded : (s : System) → Ready s recorded → Gets n i s
  unfolding spin_step
  from_recorded s r = after_turn s recorded r (λ q. from_running (turn j s) q)

  from_acquired : (s : System) → Ready s acquired → Gets n i s
  unfolding spin_step
  from_acquired s r = after_turn s acquired r (λ q. from_recorded (turn j s) q)

  from_owner :
      (s : System) (p : Pc)
      → Ready s p
      → owns p ≡ true
      → is_misuse p ≡ false
      → is_panicked p ≡ false
      → Gets n i s
  unfolding owns is_misuse is_panicked
  from_owner s (running true) r o m h = from_running s r
  from_owner s (running false) r o m h = cc
  from_owner s (lock_called true) r o m h = cc
  from_owner s (lock_called false) r o m h = cc
  from_owner s (lock_test true) r o m h = cc
  from_owner s (lock_test false) r o m h = cc
  from_owner s (unlock_called true) r o m h = from_unlock_called s r
  from_owner s (unlock_called false) r o m h = cc
  from_owner s (unlock_test true) r o m h = from_unlock_test s r
  from_owner s (unlock_test false) r o m h = cc
  from_owner s (panicked held) r o m h = cc
  from_owner s spinning r o m h = cc
  from_owner s acquired r o m h = from_acquired s r
  from_owner s recorded r o m h = from_recorded s r
  from_owner s unlocking r o m h = from_unlocking s r
  from_owner s clearing r o m h = from_clearing s r
  from_owner s releasing r o m h = from_releasing s r

-- A CPU that calls, or has called, is one below `n`.
below : {n : ℕ} {s : System} → Reach n s → (j : ℕ) → s.pc j ≢ running false → j < n
below {n} r j h = elim (Bool-cases (leb n j)) [
  | inl t ↦ absurd (h (running_outside r j (ground arith)))
  | inr t ↦ ground arith
]

-- From every reachable state in which a CPU spins for the lock, some run of the CPUs gives it the
-- lock, provided that the CPU which owns the lock, if there is one, has neither panicked nor called
-- `spin_lock` again.
pub spin_lock-gets :
    {n : ℕ} {s : System}
    → Reach n s
    → (i : ℕ) → s.pc i ≡ spinning
    → ((j : ℕ) → owns (s.pc j) ≡ true → (is_misuse (s.pc j) || is_panicked (s.pc j)) ≡ false)
    → (t : System) × Steps n s t × (t.pc i ≡ acquired)
unfolding Gets owns
spin_lock-gets {n} {s} r i e h =
    let inv = Reach-Inv r in
    let i_below = below r i (λ q. cc) in
    elim (Bool-cases (s.lock.locked == 0)) [
      | inl t ↦ from_free n i s i_below e (eq_of_== _ _ t)
      | inr t ↦
          (let (j, o) = inv.owner (ground arith) in
            from_owner n i j i_below (below r j (λ q. cc)) (λ q. cc) s (s.pc j)
              (record { inv = inv; spins = e; stands = refl }) o (ground (arith, h j))
              (ground (arith, h j)))
    ]
