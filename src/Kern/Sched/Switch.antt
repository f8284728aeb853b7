-- ===== src/Kern/Sched/Switch.antt =====
-- `env_run`, `sched_yield` and `sched_halt`: where the processor goes, and in what state.
use sisotp.Base.{
  ℕ, zero, suc, ◌+◌, ◌%◌, ◌^◌, ◌≤◌, ◌<◌, ◌≡◌, ◌≢◌, ◌⊎◌, inl, inr, refl, sym, subst, true, false,
  Option, none, some, arith, ◌==◌, if◌then◌else◌, update, Bool-cases,
}
use sisotp.Kern.State.{Env, EnvStatus, env_dying, env_runnable, env_running, Kernel, nenv}
use sisotp.Kern.Monad.{Run, stop, user, halted, monitor}
use sisotp.Kern.Env.{has_status}
use sisotp.Kern.Sched.{
  env_run, release_current, load_cr3, unlock_kernel, env_pop_tf, sched_yield, sched_halt,
  find_runnable, first_pos, rerun_or_halt, is_live, any_live,
}
use sisotp.Kern.Sched.Choice.{
  is_runnable, find_runnable-Choice, IsNearest, nearest_found, nobody_found,
}

-- The current environment before a switch: it may be run again later.
abbrev put_back : Env → Env
put_back e = if has_status env_running e then record e { env_status = env_runnable } else e

abbrev pub released : Kernel → ℕ → Env
released k i = elim k.curenv [
  | none ↦ k.envs i
  | some c ↦ if i == c then put_back (k.envs i) else k.envs i
]

-- What a switch to environment `e` leaves: the lock is free, the processor uses the directory of
-- `e`, `e` is current, is running and has run once more, and no other environment has changed but
-- the one that was current, which is runnable again if it was running.
pub record IsSwitch (k : Kernel) (e pgdir : ℕ) (k' : Kernel) : Type 0 where
  pub unlocked : k'.locked ≡ false
  pub current : k'.curenv ≡ some e
  pub directory : k'.cr3 ≡ pgdir
  pub running : (k'.envs e).env_status ≡ env_running
  pub runs : (k'.envs e).env_runs ≡ ((k.envs e).env_runs + 1) % 2 ^ 32
  pub registers : (k'.envs e).env_tf ≡ (k.envs e).env_tf
  pub others : (i : ℕ) → i ≢ e → k'.envs i ≡ released k i
  pub mem : k'.mem ≡ k.mem

-- `env_run` of an environment that is runnable, or is the current one and running.
abbrev pub CanRun : Kernel → ℕ → Type 0
CanRun k e =
    (has_status env_runnable (k.envs e) ≡ true)
    ⊎ ((k.curenv ≡ some e) × (has_status env_running (k.envs e) ≡ true))

abbrev pub base : Kernel → ℕ → Env
base k = elim k.curenv [
  | none ↦ k.envs
  | some c ↦
      if has_status env_running (k.envs c)
      then update k.envs c (record (k.envs c) { env_status = env_runnable })
      else k.envs
]

abbrev pub started : (ℕ → Env) → ℕ → ℕ → Env
started envs e =
    update envs e
      (record (envs e) { env_status = env_running; env_runs = ((envs e).env_runs + 1) % 2 ^ 32 })

abbrev pub switched : (e pgdir : ℕ) → Kernel → Kernel
switched e pgdir k = record k {
  locked = false;
  curenv = some e;
  cr3 = pgdir;
  envs = update (started (base k) e) e (record (started (base k) e e) { env_cpunum = k.cpunum });
}

pub switched-IsSwitch : (k : Kernel) (e pgdir : ℕ) → IsSwitch k e pgdir (switched e pgdir k)
switched-IsSwitch k e pgdir = record {
  unlocked = refl;
  current = refl;
  directory = refl;
  running = ground arith;
  runs = ground arith;
  registers = ground arith;
  others = λ i n. ground arith;
  mem = refl;
}

pub env_run-switched :
    {A : Type 0} (k : Kernel) (e pgdir : ℕ)
    → k.locked ≡ true
    → CanRun k e
    → (k.envs e).env_pgdir ≡ some pgdir
    → env_run {A = A} e k ≡ stop (user e) (switched e pgdir k)
unfolding env_run release_current load_cr3 unlock_kernel env_pop_tf
env_run-switched k e pgdir l c d = ground arith

chosen :
    (k : Kernel) (at : ℕ)
    → IsNearest k.envs (first_pos k.curenv) (first_pos k.curenv + nenv) at
    → find_runnable k.envs nenv (first_pos k.curenv) ≡ some (at % nenv)
chosen k at n =
    nearest_found at
      (find_runnable-Choice k.envs nenv (first_pos k.curenv) (first_pos k.curenv + nenv) refl) n

-- With the big lock held, `sched_yield` switches to the environment at the first runnable
-- position behind the current one, in circular order, and from the start of the table if there is
-- no current one, where that environment has a page directory.
pub sched_yield-nearest :
    (k : Kernel) (at pgdir : ℕ)
    → k.locked ≡ true
    → IsNearest k.envs (first_pos k.curenv) (first_pos k.curenv + nenv) at
    → (k.envs (at % nenv)).env_pgdir ≡ some pgdir
    → (k' : Kernel) × (sched_yield {A = Unit {0}} k ≡ stop (user (at % nenv)) k')
      × IsSwitch k (at % nenv) pgdir k'
unfolding sched_yield
sched_yield-nearest k at pgdir l n d = (
  switched (at % nenv) pgdir k,
  rw (chosen k at n) (env_run-switched k (at % nenv) pgdir l (inl n.ready) d),
  switched-IsSwitch k (at % nenv) pgdir,
)

unchosen :
    (k : Kernel)
    → ((p : ℕ)
        → first_pos k.curenv ≤ p
        → p < first_pos k.curenv + nenv
        → is_runnable k.envs p ≡ false)
    → find_runnable k.envs nenv (first_pos k.curenv) ≡ none
unchosen k n =
    nobody_found
      (find_runnable-Choice k.envs nenv (first_pos k.curenv) (first_pos k.curenv + nenv) refl) n

abbrev halted_state : Kernel → Kernel
halted_state k = record k { curenv = none; cr3 = k.kern_pgdir; cpu_halted = true; locked = false }

sched_halt-monitor :
    (k : Kernel) → any_live k.envs nenv 0 ≡ false → sched_halt {A = Unit {0}} k ≡ stop monitor k
unfolding sched_halt
sched_halt-monitor k live = rw live

sched_halt-halted :
    (k : Kernel)
    → k.locked ≡ true
    → any_live k.envs nenv 0 ≡ true
    → sched_halt {A = Unit {0}} k ≡ stop halted (halted_state k)
unfolding sched_halt load_cr3 unlock_kernel
sched_halt-halted k l live = rw (live, l)

-- The environment is in use: it may run, runs, or is dying.
pub data IsLive (e : Env) : Type 0 where
  can_run : e.env_status ≡ env_runnable → IsLive e
  runs : e.env_status ≡ env_running → IsLive e
  dies : e.env_status ≡ env_dying → IsLive e

is_live-IsLive : (e : Env) → IsLive e → is_live e ≡ true
is_live-IsLive e (can_run q) = rw q refl
is_live-IsLive e (runs q) = rw q refl
is_live-IsLive e (dies q) = rw q refl

not_live : (s : EnvStatus) (e : Env) → e.env_status ≡ s → ¬ IsLive e → is_live e ≡ false
not_live EnvStatus.env_free e q n = rw q refl
not_live EnvStatus.env_dying e q n = absurd (n (dies q))
not_live EnvStatus.env_runnable e q n = absurd (n (can_run q))
not_live EnvStatus.env_running e q n = absurd (n (runs q))
not_live EnvStatus.env_not_runnable e q n = rw q refl

any_live-false :
    (envs : ℕ → Env) (rounds i : ℕ)
    → ((j : ℕ) → i ≤ j → j < i + rounds → ¬ IsLive (envs j))
    → any_live envs rounds i ≡ false
unfolding any_live
any_live-false envs zero i h = refl
any_live-false envs (suc rounds) i h =
    rw (not_live (envs i).env_status (envs i) refl (h i (omega arith) (omega arith)))
      (any_live-false envs rounds (i + 1) λ j u v. h j (omega arith) (omega arith))

any_live-true :
    (envs : ℕ → Env) (rounds i j : ℕ)
    → i ≤ j
    → j < i + rounds
    → IsLive (envs j)
    → any_live envs rounds i ≡ true
unfolding any_live
any_live-true envs zero i j u v h = absurd (omega arith)
any_live-true envs (suc rounds) i j u v h = elim (Bool-cases (is_live (envs i))) [
  | inl y ↦ rw y refl
  | inr n ↦ rw n (
      any_live-true envs rounds (i + 1) j (ground (arith, is_live-IsLive (envs j) h)) (omega arith)
        h)
]

idle_halt :
    (o : Option ℕ) (k : Kernel) {r : Run (Unit {0})}
    → ((c : ℕ) → o ≡ some c → has_status env_running (k.envs c) ≡ false)
    → sched_halt {A = Unit {0}} k ≡ r
    → rerun_or_halt {A = Unit {0}} o k ≡ r
unfolding rerun_or_halt
idle_halt none k q h = h
idle_halt (some c) k q h = rw (q c refl) h

rerun :
    (k : Kernel) (c : ℕ) {r : Run (Unit {0})}
    → has_status env_running (k.envs c) ≡ true
    → env_run {A = Unit {0}} c k ≡ r
    → rerun_or_halt {A = Unit {0}} (some c) k ≡ r
unfolding rerun_or_halt
rerun k c q h = rw q h

-- With the big lock held and nothing runnable, `sched_yield` runs the current environment again
-- if that is running. Otherwise, if no environment of the table is running elsewhere or dying, it
-- drops into the monitor, and if some environment is, it halts: there is no current environment, the kernel's directory is
-- loaded, the lock is free, and the table of environments is as it was.
pub sched_yield-idle :
    (k : Kernel)
    → k.locked ≡ true
    → ((p : ℕ)
        → first_pos k.curenv ≤ p
        → p < first_pos k.curenv + nenv
        → is_runnable k.envs p ≡ false)
    → ((c pgdir : ℕ)
        → k.curenv ≡ some c
        → has_status env_running (k.envs c) ≡ true
        → (k.envs c).env_pgdir ≡ some pgdir
        → (k' : Kernel) × (sched_yield {A = Unit {0}} k ≡ stop (user c) k') × IsSwitch k c pgdir k')
      × (((c : ℕ) → k.curenv ≡ some c → has_status env_running (k.envs c) ≡ false)
          → ((i : ℕ) → i < nenv → ¬ IsLive (k.envs i))
          → sched_yield {A = Unit {0}} k ≡ stop monitor k)
      × (((c : ℕ) → k.curenv ≡ some c → has_status env_running (k.envs c) ≡ false)
          → (i : ℕ) → i < nenv
          → IsLive (k.envs i)
          → (k' : Kernel) × (sched_yield {A = Unit {0}} k ≡ stop halted k')
            × (k'.curenv ≡ none)
            × (k'.cr3 ≡ k.kern_pgdir)
            × (k'.locked ≡ false)
            × (k'.cpu_halted ≡ true)
            × (k'.envs ≡ k.envs))
unfolding sched_yield
sched_yield-idle k l n = (
  λ c pgdir e r d. (
    switched c pgdir k,
    rw (unchosen k n) (
        subst (λ o. rerun_or_halt {A = Unit {0}} o k ≡ stop (user c) (switched c pgdir k)) (sym e)
          (rerun k c r (env_run-switched k c pgdir l (inr (e, r)) d))),
    switched-IsSwitch k c pgdir,
  ),
  λ q dead.
      let none_live = any_live-false k.envs nenv 0 λ j u v. dead j v in
      rw (unchosen k n) (idle_halt k.curenv k q (sched_halt-monitor k none_live)),
  λ q i u live. (
    halted_state k,
    rw (unchosen k n) (
        idle_halt k.curenv k q
          (sched_halt-halted k l (any_live-true k.envs nenv 0 i (omega arith) u live))),
    refl,
    refl,
    refl,
    refl,
    refl,
  ),
)
