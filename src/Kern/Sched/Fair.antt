-- ===== src/Kern/Sched/Fair.antt =====
-- `sched_yield` over many turns: how often a runnable environment is passed over.
use sisotp.Base.{
  ℕ, zero, suc, ◌+◌, ◌-◌, ◌%◌, ◌≤◌, ◌<◌, ◌≡◌, ◌≢◌, refl, sym, ap, ◌∙◌, true, Option, none, some,
  arith,
}
use sisotp.Kern.State.{Env, env_runnable, Kernel, nenv}
use sisotp.Kern.Monad.{Run, ok, stop, user}
use sisotp.Kern.Env.{has_status}
use sisotp.Kern.Sched.{sched_yield, first_pos}
use sisotp.Kern.Sched.Choice.{is_runnable, Choice, nobody, nearest, find_runnable-Choice, IsNearest}
use sisotp.Kern.Sched.Switch.{sched_yield-nearest}

-- A processor that enters `sched_yield` while environment `e` waits: it holds the lock, the
-- current environment is one of the table, `e` is runnable, and what is runnable has a directory.
pub record Waits (e : ℕ) (k : Kernel) : Type 0 where
  pub lock : k.locked ≡ true
  pub bound : (c : ℕ) → k.curenv ≡ some c → c < nenv
  pub ready : has_status env_runnable (k.envs e) ≡ true
  pub spaces :
      (i : ℕ)
      → has_status env_runnable (k.envs i) ≡ true
      → (pgdir : ℕ) × ((k.envs i).env_pgdir ≡ some pgdir)

-- The processor comes to `k` by so many turns in which `e` waits and another environment is run.
-- Between two turns, where that environment and the other processors run, the kernel may change
-- in any way, but this processor's current environment stays.
pub data PassedOver (e : ℕ) : ℕ → Kernel → Type 0 where
  started : {k : Kernel} → PassedOver e 0 k
  passed :
      {n c : ℕ} {k k' back : Kernel}
      → PassedOver e n k
      → Waits e k
      → sched_yield {A = Unit {0}} k ≡ stop (user c) k'
      → c ≢ e
      → back.curenv ≡ some c
      → PassedOver e (suc n) back

first_pos-le : (o : Option ℕ) → ((c : ℕ) → o ≡ some c → c < nenv) → first_pos o ≤ nenv
first_pos-le none h = omega arith
first_pos-le (some c) h = omega (arith, h c refl)

-- The first runnable position of a range in which a position is known to be runnable.
first_ready :
    {envs : ℕ → Env} {pos end : ℕ} {o : Option ℕ} (at : ℕ)
    → Choice envs pos end o
    → pos ≤ at
    → at < end
    → is_runnable envs at ≡ true
    → (first : ℕ) × IsNearest envs pos end first × (first ≤ at)
first_ready at (nobody all) l u r = ground (arith, all at)
first_ready at (nearest first x y z s all) l u r =
    (first, record { from = x; to = y; ready = s; first = all }, ground (arith, all at))

-- The turn of a waiting environment that is `d` steps on: whoever is run is at most `d` steps on.
turn :
    (e d : ℕ) (k : Kernel)
    → Waits e k
    → d < nenv
    → (first_pos k.curenv + d) % nenv ≡ e
    → (at : ℕ) × (first_pos k.curenv ≤ at)
      × (at ≤ first_pos k.curenv + d)
      × (k' : Kernel) × (sched_yield {A = Unit {0}} k ≡ stop (user (at % nenv)) k')
turn e d k w l q =
    let (at, n, m) =
      first_ready (first_pos k.curenv + d)
        (find_runnable-Choice k.envs nenv (first_pos k.curenv) (first_pos k.curenv + nenv) refl)
        (omega arith) (omega arith) (rw q w.ready) in
    let (pgdir, s) = w.spaces (at % nenv) n.ready in
    let (k', y, _) = sched_yield-nearest k at pgdir w.lock n s in (at, n.from, m, k', y)

abbrev went_to : Run (Unit {0}) → ℕ
went_to (stop (user e) k) = e
went_to (stop other k) = 0
went_to (ok a k) = 0

same_user :
    {a b : ℕ} {k l : Kernel} {r : Run (Unit {0})}
    → r ≡ stop (user a) k
    → r ≡ stop (user b) l
    → a ≡ b
same_user p q = ap went_to (sym p ∙ q)

step_nearer :
    (e n d pos at c : ℕ)
    → n + d < nenv
    → (pos + d) % nenv ≡ e
    → pos ≤ at
    → at ≤ pos + d
    → c ≡ at % nenv
    → c ≢ e
    → (d' : ℕ) × (suc n + d' < nenv) × ((c + 1 + d') % nenv ≡ e)
step_nearer e n d pos at c u q x m s other = (pos + d - at - 1, ground arith, ground arith)

-- How far on a waiting environment is, and that every turn brings it nearer.
nearer :
    (e n : ℕ) (k : Kernel)
    → e < nenv
    → PassedOver e n k
    → first_pos k.curenv ≤ nenv
    → (d : ℕ) × (n + d < nenv) × ((first_pos k.curenv + d) % nenv ≡ e)
nearer e zero k l (started) f = ((e + nenv - first_pos k.curenv) % nenv, omega arith, omega arith)
nearer e (suc n) k l (passed {c = c} {k = before} p w y other b) f =
    let (d, u, q) = nearer e n before l p (first_pos-le before.curenv w.bound) in
    let (at, x, m, k', z) = turn e d before w (omega arith) q in
    rw b (step_nearer e n d (first_pos before.curenv) at c u q x m (same_user y z) other)

-- As long as this processor has a current environment whenever it comes back to `sched_yield`, as
-- it has after a turn that did not end in an exit or a halt: every turn in which an environment
-- waits ends in user mode, and the environment is passed over at most NENV - 1 times, and run in
-- the turn after these. After an exit there is no current environment, the search starts at slot 0,
-- and nothing is stated.
pub sched_yield-fair :
    (e n : ℕ) (k : Kernel)
    → e < nenv
    → PassedOver e n k
    → Waits e k
    → (n < nenv)
      × ((c : ℕ) × (k' : Kernel) × (sched_yield {A = Unit {0}} k ≡ stop (user c) k')
          × (suc n ≡ nenv → c ≡ e))
sched_yield-fair e n k l p w =
    let (d, u, q) = nearer e n k l p (first_pos-le k.curenv w.bound) in
    let (at, x, m, k', z) = turn e d k w (omega arith) q in
    (omega arith, (at % nenv, k', z, (λ last. omega arith)))
