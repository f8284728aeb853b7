-- ===== src/Kern/Spinlock.antt =====
-- jos/kern/spinlock.c, with `DEBUG_SPINLOCK` defined: the lock, its operations as the accesses to
-- shared memory that a CPU makes one after the other, and CPUs that make them in any order.
pub mod System
pub mod Invariant
pub mod Safety
pub mod Progress
use sisotp.Base.{
  ℕ, zero, suc, ◌+◌, ◌-◌, Bool, true, false, ◌||◌, Option, none, some, ltb, ◌==◌, if◌then◌else◌,
  update,
}
use sisotp.Kern.Mmu.{ulim}

-- `cpu` is none for the null pointer and else the index of the CPU.
pub record Spinlock : Type 0 where
  pub locked : ℕ
  pub cpu : Option ℕ
  pub pcs : ℕ → ℕ

-- The loop that clears the entries from `i` to 9, `n` of them.
unfoldable pub clear_pcs : (n i : ℕ) → (ℕ → ℕ) → ℕ → ℕ
clear_pcs zero i pcs = pcs
clear_pcs (suc n) i pcs = clear_pcs n (i + 1) (update pcs i 0)

-- The loop over the frames of the stack, of which `n` entries are left; `word` is the memory.
unfoldable pub fill_pcs : (n : ℕ) → (word : ℕ → ℕ) → (ebp i : ℕ) → (ℕ → ℕ) → ℕ → ℕ
fill_pcs zero word ebp i pcs = pcs
fill_pcs (suc n) word ebp i pcs =
    let frame = fill_pcs n word (word ebp) (i + 1) (update pcs i (word (ebp + 4))) in
    if ebp == 0 || ltb ebp ulim then clear_pcs (suc n) i pcs else frame

unfoldable pub get_caller_pcs : (word : ℕ → ℕ) → (ebp : ℕ) → (ℕ → ℕ) → ℕ → ℕ
get_caller_pcs word ebp pcs = fill_pcs 10 word ebp 0 pcs

unfoldable pub spin_initlock : Spinlock → Spinlock
spin_initlock lk = record lk { locked = 0; cpu = none }

-- Where a CPU stands in its calls: `running` outside of them, and then in front of the access that it
-- makes next. `held` says whether the last call that returned was `spin_lock`.
pub data Pc : Type 0 where
  running lock_called lock_test unlock_called unlock_test panicked : (held : Bool) → Pc
  spinning acquired recorded unlocking clearing releasing : Pc

abbrev pub is_cpu : Option ℕ → ℕ → Bool
is_cpu none i = false
is_cpu (some c) i = c == i

-- The next access of the CPU `i`, and where it stands then. `holding` reads `locked` and then `cpu`.
-- The stack that `get_caller_pcs` walks is `word` with the frame at `ebp`. A CPU that has panicked
-- stays in the monitor.
unfoldable pub spin_step : (word : ℕ → ℕ) → (ebp i : ℕ) → Spinlock → Pc → Spinlock × Pc
spin_step word ebp i lk (running held) = (lk, running held)
spin_step word ebp i lk (lock_called held) =
    (lk, (if lk.locked == 0 then spinning else lock_test held))
spin_step word ebp i lk (lock_test held) =
    (lk, (if is_cpu lk.cpu i then panicked held else spinning))
spin_step word ebp i lk spinning =
    (record lk { locked = 1 }, (if lk.locked == 0 then acquired else spinning))
spin_step word ebp i lk acquired = (record lk { cpu = some i }, recorded)
spin_step word ebp i lk recorded =
    (record lk { pcs = get_caller_pcs word ebp lk.pcs }, running true)
spin_step word ebp i lk (unlock_called held) =
    (lk, (if lk.locked == 0 then panicked held else unlock_test held))
spin_step word ebp i lk (unlock_test held) =
    (lk, (if is_cpu lk.cpu i then unlocking else panicked held))
spin_step word ebp i lk unlocking = (record lk { pcs = update lk.pcs 0 0 }, clearing)
spin_step word ebp i lk clearing = (record lk { cpu = none }, releasing)
spin_step word ebp i lk releasing = (record lk { locked = 0 }, running false)
spin_step word ebp i lk (panicked held) = (lk, panicked held)
