-- ===== src/Kern/Examples/Turns.antt =====
-- The turns of three environments on the example machine.
use sisotp.Base.{ℕ, ◌+◌, ◌<◌, ◌≡◌, refl, false, arith, some, ◌==◌, if◌then◌else◌}
use sisotp.Kern.State.{Env, Kernel, env_runnable, env_running, nenv}
use sisotp.Kern.Monad.{stop, user}
use sisotp.Kern.Sched.{sched_yield, first_pos}
use sisotp.Kern.Sched.Choice.{IsNearest}
use sisotp.Kern.Sched.Switch.{sched_yield-nearest}
use sisotp.Kern.Sched.Fair.{Waits, PassedOver, started, passed, sched_yield-fair}
use sisotp.Kern.Examples.{machine, two_envs, an_env}

abbrev three_envs : ℕ → Env
three_envs e =
    if e == 1
    then an_env 8193 env_runnable 12 0 false
    else (if e == 2 then an_env 8194 env_runnable 12 0 false else two_envs e)

abbrev directory : ℕ → ℕ
directory i = if i == 0 then 2 else (if i == 1 then 12 else (if i == 2 then 12 else 0))

-- The first environment runs, the two others wait.
abbrev waiting : Kernel
waiting = record machine { envs = three_envs }

-- The second one runs, and the processor has entered the kernel again.
abbrev later : Kernel
later = record machine {
  envs = λ e.
      if e == 0
      then an_env 4096 env_runnable 2 0 false
      else (if e == 1 then an_env 8193 env_running 12 0 false else three_envs e);
  curenv = some 1;
}

second_next : IsNearest three_envs (first_pos (some 0)) (first_pos (some 0) + nenv) 1
second_next = record {
  from = omega arith;
  to = omega arith;
  ready = refl;
  first = λ p l u. absurd (omega arith);
}

third-Waits : Waits 2 waiting
third-Waits = record {
  lock = refl;
  bound = λ c q. ground arith;
  ready = refl;
  spaces = λ i r. (directory i, ground arith);
}

third-Waits_on : Waits 2 later
third-Waits_on = record {
  lock = refl;
  bound = λ c q. ground arith;
  ready = refl;
  spaces = λ i r. (directory i, ground arith);
}

second_first : PassedOver 2 1 later
second_first =
    passed {c = 1} {k = waiting} started third-Waits
      (sched_yield-nearest waiting 1 12 refl second_next refl).1 (omega arith) refl

sched_yield-fair_example :
    (1 < nenv)
    × ((c : ℕ) × (k' : Kernel) × (sched_yield {A = Unit {0}} later ≡ stop (user c) k')
        × (◌≡◌ {A = ℕ} 2 nenv → c ≡ 2))
sched_yield-fair_example = sched_yield-fair 2 1 later (omega arith) second_first third-Waits_on
