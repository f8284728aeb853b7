-- ===== src/Kern/Spinlock/System.antt =====
-- jos/kern/spinlock.c: the CPUs below `n` and one lock, with the accesses of the CPUs in any order.
use sisotp.Base.{ℕ, ◌<◌, ◌≡◌, Bool, false, none, update}
use sisotp.Kern.Spinlock.{
  Spinlock, spin_initlock, Pc, running, lock_called, unlock_called, spin_step,
}

pub record System : Type 0 where
  pub lock : Spinlock
  pub pc : ℕ → Pc

abbrev pub at_start : System
at_start = record {
  lock = spin_initlock (record { locked = 0; cpu = none; pcs = λ i. 0 });
  pc = λ i. running false;
}

-- A CPU that runs outside may call either function, whether it holds the lock or not.
pub data Step (n : ℕ) (s : System) : System → Type 0 where
  spin_lock :
      (i : ℕ) {held : Bool}
      → i < n
      → s.pc i ≡ running held
      → Step n s (record s { pc = update s.pc i (lock_called held) })
  spin_unlock :
      (i : ℕ) {held : Bool}
      → i < n
      → s.pc i ≡ running held
      → Step n s (record s { pc = update s.pc i (unlock_called held) })
  access :
      (i : ℕ) (word : ℕ → ℕ) (ebp : ℕ)
      → i < n
      → Step n s (record {
        lock = (spin_step word ebp i s.lock (s.pc i)).0;
        pc = update s.pc i (spin_step word ebp i s.lock (s.pc i)).1;
      })

pub data Reach (n : ℕ) : System → Type 0 where
  start : Reach n at_start
  later : {s t : System} → Reach n s → Step n s t → Reach n t
