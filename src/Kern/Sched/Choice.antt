-- ===== src/Kern/Sched/Choice.antt =====
-- The search of `sched_yield`: the nearest runnable environment in circular order.
use sisotp.Base.{
  ℕ, zero, suc, ◌+◌, ◌%◌, ◌≤◌, ◌<◌, ◌≡◌, inl, inr, refl, Bool, true, false, Option, none, some,
  arith, Bool-cases,
}
use sisotp.Kern.State.{Env, env_runnable, nenv}
use sisotp.Kern.Env.{has_status}
use sisotp.Kern.Sched.{find_runnable}

abbrev pub is_runnable : (ℕ → Env) → ℕ → Bool
is_runnable envs pos = has_status env_runnable (envs (pos % nenv))

-- Nothing runnable among the positions from `pos` up to `end`; or `d` steps on is the first.
pub data Choice (envs : ℕ → Env) (pos end : ℕ) : Option ℕ → Type 0 where
  nobody : ((p : ℕ) → pos ≤ p → p < end → is_runnable envs p ≡ false) → Choice envs pos end none
  nearest :
      (at : ℕ) {e : ℕ}
      → pos ≤ at
      → at < end
      → e ≡ at % nenv
      → is_runnable envs at ≡ true
      → ((p : ℕ) → pos ≤ p → p < at → is_runnable envs p ≡ false)
      → Choice envs pos end (some e)

step_on :
    {envs : ℕ → Env} {end : ℕ} {o : Option ℕ} (pos : ℕ)
    → is_runnable envs pos ≡ false
    → Choice envs (pos + 1) end o
    → Choice envs pos end o
step_on pos idle (nobody all) = nobody λ p l u. ground (arith, all p)
step_on pos idle (nearest at l u e r all) =
    nearest at (omega arith) u e r λ p x y. ground (arith, all p)

-- The search of `sched_yield`, started at a position with the rounds that are left before the end of
-- its range: it returns the environment at the first runnable position of the range, taken round
-- the table, and none only if no position of the range is runnable.
pub find_runnable-Choice :
    (envs : ℕ → Env) (rounds pos end : ℕ)
    → pos + rounds ≡ end
    → Choice envs pos end (find_runnable envs rounds pos)
unfolding find_runnable
find_runnable-Choice envs zero pos end e = nobody λ p l u. absurd (omega arith)
find_runnable-Choice envs (suc rounds) pos end e = elim (Bool-cases (is_runnable envs pos)) [
  | inl y ↦ rw y (nearest pos (omega arith) (omega arith) refl y (λ p l u. absurd (omega arith)))
  | inr n ↦ rw n (step_on pos n (find_runnable-Choice envs rounds (pos + 1) end (omega arith)))
]

-- The first runnable position.
pub record IsNearest (envs : ℕ → Env) (pos end at : ℕ) : Type 0 where
  pub from : pos ≤ at
  pub to : at < end
  pub ready : is_runnable envs at ≡ true
  pub first : (p : ℕ) → pos ≤ p → p < at → is_runnable envs p ≡ false

pub nearest_found :
    {envs : ℕ → Env} {pos end : ℕ} {o : Option ℕ} (at : ℕ)
    → Choice envs pos end o
    → IsNearest envs pos end at
    → o ≡ some (at % nenv)
nearest_found at (nobody all) n = ground (arith, all at n.from n.to, n.ready)
nearest_found at (nearest at' l u e r all) n =
    let same : at' ≡ at = ground (arith, all at, n.first at', n.from, n.to, n.ready) in rw (e, same)

pub nobody_found :
    {envs : ℕ → Env} {pos end : ℕ} {o : Option ℕ}
    → Choice envs pos end o
    → ((p : ℕ) → pos ≤ p → p < end → is_runnable envs p ≡ false)
    → o ≡ none
nobody_found (nobody all) n = refl
nobody_found (nearest at l u e r all) n = ground (arith, n at)
