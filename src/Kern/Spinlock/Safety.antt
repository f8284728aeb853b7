-- ===== src/Kern/Spinlock/Safety.antt =====
-- jos/kern/spinlock.c: what holds in every state that the CPUs reach.
use sisotp.Base.{
  ℕ, ◌≡◌, inl, inr, refl, Bool, true, false, ◌||◌, some, arith, Bool-cases, ◌==◌, ==-refl,
}
use sisotp.Kern.Spinlock.{
  Pc, running, lock_called, lock_test, unlock_called, unlock_test, panicked, spinning, acquired,
  recorded, unlocking, clearing, releasing, is_cpu, spin_step,
}
use sisotp.Kern.Spinlock.System.{System, Reach}
use sisotp.Kern.Spinlock.Invariant.{owns, named, Inv, is_cpu-true, named-owns, Reach-Inv}

-- In every reachable state at most one CPU owns the lock, from the exchange in `spin_lock` that found
-- it free to the one in `spin_unlock` that frees it; and `cpu` names the owner from the access that
-- writes it to the one that clears it, and no other CPU.
pub mutual_exclusion :
    {n : ℕ} {s : System}
    → Reach n s
    → (i j : ℕ) → owns (s.pc i) ≡ true
    → (owns (s.pc j) ≡ true → i ≡ j)
      × (named (s.pc i) ≡ true → s.lock.cpu ≡ some i)
      × (s.lock.cpu ≡ some j → i ≡ j)
mutual_exclusion {s} r i j o =
    let inv = Reach-Inv r in
    (inv.unique i j o, inv.names i, λ c. inv.unique i j o (named-owns (s.pc j) (inv.is_named j c)))

-- A call of `spin_lock` by the CPU that holds the lock, or of `spin_unlock` by one that does not.
unfoldable pub is_misuse : Pc → Bool
is_misuse (lock_called held) = held
is_misuse (lock_test held) = held
is_misuse (unlock_called true) = false
is_misuse (unlock_called false) = true
is_misuse (unlock_test true) = false
is_misuse (unlock_test false) = true
is_misuse _ = false

unfoldable pub is_panicked : Pc → Bool
is_panicked (panicked held) = true
is_panicked _ = false

pub is_own :
    (s : System) (i : ℕ) → Inv s.lock s.pc → named (s.pc i) ≡ true → is_cpu s.lock.cpu i ≡ true
is_own s i inv h = rw (inv.names i h) (==-refl i)

step_panics :
    (word : ℕ → ℕ) (ebp i : ℕ) (s : System) (p : Pc)
    → Inv s.lock s.pc
    → s.pc i ≡ p
    → is_panicked p ≡ false
    → (is_misuse (spin_step word ebp i s.lock p).1 || is_panicked (spin_step word ebp i s.lock p).1)
      ≡ is_misuse p
unfolding spin_step is_misuse is_panicked owns named
step_panics word ebp i s (running held) inv e h = refl
step_panics word ebp i s (lock_called true) inv e h =
    let t : (s.lock.locked == 0) ≡ false = ground (arith, inv.owned i) in rw t refl
step_panics word ebp i s (lock_called false) inv e h = elim (Bool-cases (s.lock.locked == 0)) [
  | inl t ↦ rw t refl
  | inr t ↦ rw t refl
]
step_panics word ebp i s (lock_test true) inv e h = let t = is_own s i inv (rw e refl) in rw t refl
step_panics word ebp i s (lock_test false) inv e h = elim (Bool-cases (is_cpu s.lock.cpu i)) [
  | inl t ↦ ground (arith, inv.is_named i, is_cpu-true s.lock.cpu i t)
  | inr t ↦ rw t refl
]
step_panics word ebp i s (unlock_called true) inv e h =
    let t : (s.lock.locked == 0) ≡ false = ground (arith, inv.owned i) in rw t refl
step_panics word ebp i s (unlock_called false) inv e h = elim (Bool-cases (s.lock.locked == 0)) [
  | inl t ↦ rw t refl
  | inr t ↦ rw t refl
]
step_panics word ebp i s (unlock_test true) inv e h =
    let t = is_own s i inv (rw e refl) in rw t refl
step_panics word ebp i s (unlock_test false) inv e h = elim (Bool-cases (is_cpu s.lock.cpu i)) [
  | inl t ↦ ground (arith, inv.is_named i, is_cpu-true s.lock.cpu i t)
  | inr t ↦ rw t refl
]
step_panics word ebp i s (panicked held) inv e h = cc
step_panics word ebp i s spinning inv e h = elim (Bool-cases (s.lock.locked == 0)) [
  | inl t ↦ rw t refl
  | inr t ↦ rw t refl
]
step_panics word ebp i s acquired inv e h = refl
step_panics word ebp i s recorded inv e h = refl
step_panics word ebp i s unlocking inv e h = refl
step_panics word ebp i s clearing inv e h = refl
step_panics word ebp i s releasing inv e h = refl

-- In every reachable state, the next access of a CPU that has not panicked panics, or goes on in a
-- wrong call, exactly if the CPU is in a wrong call: in `spin_lock` while it holds the lock, or in
-- `spin_unlock` while it does not. So a CPU that calls the two in turn never panics, and a wrong call
-- never gets past the test of `holding`, whatever the other CPUs do.
spin_step-panics :
    {n : ℕ} {s : System}
    → Reach n s
    → (word : ℕ → ℕ) (ebp i : ℕ) → is_panicked (s.pc i) ≡ false
    → (is_misuse (spin_step word ebp i s.lock (s.pc i)).1
        || is_panicked (spin_step word ebp i s.lock (s.pc i)).1)
      ≡ is_misuse (s.pc i)
spin_step-panics {s} r word ebp i h = step_panics word ebp i s (s.pc i) (Reach-Inv r) refl h
