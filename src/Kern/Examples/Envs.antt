-- ===== src/Kern/Examples/Envs.antt =====
-- Environments of the example machine.
use sisotp.Base.{
  ℕ, ◌+◌, ◌^◌, ◌<◌, ◌≡◌, ◌≢◌, inl, inr, refl, true, false, none, some, arith, ◌==◌, if◌then◌else◌,
}
use sisotp.Kern.State.{Kernel, value, env_runnable, nenv}
use sisotp.Kern.Monad.{ok, stop, user, halted}
use sisotp.Kern.Env.{envid2env, envx, next_env_id}
use sisotp.Kern.Env.Ident.{next_env_id_fresh, envid2env_lem}
use sisotp.Kern.Sched.{sched_yield, first_pos}
use sisotp.Kern.Sched.Choice.{IsNearest, is_runnable}
use sisotp.Kern.Sched.Switch.{IsSwitch, sched_yield-nearest, runs, sched_yield-idle}
use sisotp.Kern.Examples.{machine, two_envs, an_env}

next_env_id_fresh_example :
    (0 < next_env_id 4096 0)
    × (next_env_id 4096 0 < 2 ^ 31)
    × (envx (next_env_id 4096 0) ≡ 0)
    × (next_env_id 4096 0 ≢ 4096)
unfolding envx
next_env_id_fresh_example = next_env_id_fresh 4096 0 (omega arith) (omega arith) (inr refl)

envid2env_lem_example : envid2env 4097 false machine ≡ ok (value 0, some 1) machine
unfolding envx
envid2env_lem_example =
    (envid2env_lem machine 0 4097 false refl).1 (omega arith) (refl, refl, inl refl)

-- The slot 1 after it has been freed and given away again.
abbrev reused : Kernel
reused = record machine {
  envs = λ e. if e == 1 then an_env 8193 env_runnable 12 0 false else two_envs e;
}

slot_1-IsNearest :
    IsNearest reused.envs (first_pos reused.curenv) (first_pos reused.curenv + nenv) 1
slot_1-IsNearest = record {
  from = omega arith;
  to = omega arith;
  ready = refl;
  first = λ p l u. absurd (omega arith);
}

sched_yield-nearest_example :
    (k' : Kernel) × (sched_yield {A = Unit {0}} reused ≡ stop (user 1) k') × IsSwitch reused 1 12 k'
sched_yield-nearest_example = sched_yield-nearest reused 1 12 refl slot_1-IsNearest refl

none_runnable : (p : ℕ) → is_runnable two_envs p ≡ false
none_runnable p = ground arith

-- Another processor, while the first environment runs.
abbrev unused : Kernel
unused = record machine { curenv = none }

sched_yield-idle_example :
    (k' : Kernel) × (sched_yield {A = Unit {0}} unused ≡ stop halted k')
    × (k'.curenv ≡ none)
    × (k'.cr3 ≡ machine.kern_pgdir)
    × (k'.locked ≡ false)
    × (k'.cpu_halted ≡ true)
    × (k'.envs ≡ two_envs)
sched_yield-idle_example =
    (sched_yield-idle unused refl (λ p l u. none_runnable p)).2 (λ c q. absurd (ground (arith, q)))
      0 (omega arith) (runs refl)
