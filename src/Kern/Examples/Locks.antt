-- ===== src/Kern/Examples/Locks.antt =====
-- Two processors: the first holds the lock, and the second spins.
use sisotp.Base.{ℕ, ◌<◌, ◌≡◌, refl, Bool, true, false, ◌||◌, some, arith}
use sisotp.Kern.Spinlock.{spin_initlock, running, spinning, acquired, spin_step}
use sisotp.Kern.Spinlock.System.{System, at_start, spin_lock, access, Reach, start, later}
use sisotp.Kern.Spinlock.Invariant.{owns, named}
use sisotp.Kern.Spinlock.Safety.{is_misuse, is_panicked, mutual_exclusion}
use sisotp.Kern.Spinlock.Progress.{Steps, spin_lock-gets}

record Trace : Type 0 where
  last : System
  reach : Reach 2 last

-- The processor `i` calls `spin_lock`, and makes its next access.
abbrev lock_by : (t : Trace) (i : ℕ) {held : Bool} → i < 2 → t.last.pc i ≡ running held → Trace
lock_by t i l e = record { last = _; reach = later t.reach (spin_lock i l e) }

abbrev access_by : (t : Trace) (i : ℕ) → i < 2 → Trace
access_by t i l = record { last = _; reach = later t.reach (access i (λ a. 0) 0 l) }

first : 0 < 2
first = omega arith

second : 1 < 2
second = omega arith

abbrev called : Trace
called = lock_by (record { last = at_start; reach = start }) 0 {held = false} first refl

abbrev held_by_first : Trace
held_by_first = access_by (access_by (access_by (access_by called 0 first) 0 first) 0 first) 0 first

first_holds : held_by_first.last.pc 0 ≡ running true
unfolding spin_step spin_initlock
first_holds = refl

second_waits : held_by_first.last.pc 1 ≡ running false
unfolding spin_step spin_initlock
second_waits = refl

abbrev contended : Trace
contended =
    access_by (access_by (lock_by held_by_first 1 {held = false} second second_waits) 1 second) 1
      second

first_owns : owns (contended.last.pc 0) ≡ true
unfolding spin_step spin_initlock owns
first_owns = refl

second_spins : contended.last.pc 1 ≡ spinning
unfolding spin_step spin_initlock
second_spins = refl

only_first :
    (j : ℕ)
    → owns (contended.last.pc j) ≡ true
    → (is_misuse (contended.last.pc j) || is_panicked (contended.last.pc j)) ≡ false
unfolding spin_step spin_initlock owns is_misuse is_panicked
only_first j o = ground arith

mutual_exclusion_example :
    (owns (contended.last.pc 1) ≡ true → ◌≡◌ {A = ℕ} 0 1)
    × (named (contended.last.pc 0) ≡ true → contended.last.lock.cpu ≡ some 0)
    × (contended.last.lock.cpu ≡ some 1 → ◌≡◌ {A = ℕ} 0 1)
mutual_exclusion_example = mutual_exclusion contended.reach 0 1 first_owns

spin_lock-gets_example : (t : System) × Steps 2 contended.last t × (t.pc 1 ≡ acquired)
spin_lock-gets_example = spin_lock-gets contended.reach 1 second_spins only_first
