-- ===== src/Kern/Examples/Traps.antt =====
-- Traps on the example machine.
use sisotp.Base.{◌+◌, ◌≡◌, refl, false, arith, ◌==◌, if◌then◌else◌}
use sisotp.Kern.State.{Kernel, Trapframe, env_runnable, nenv, value}
use sisotp.Kern.Monad.{stop, user}
use sisotp.Kern.Env.{fresh_tf}
use sisotp.Kern.Ipc.{syscall}
use sisotp.Kern.Syscall.{sys_getenvid}
use sisotp.Kern.Sched.Choice.{IsNearest}
use sisotp.Kern.Sched.Switch.{IsSwitch}
use sisotp.Kern.Trap.{trap}
use sisotp.Kern.Trap.Return.{entered, FromUser, answered, Returns, trap-answered, trap-preempted}
use sisotp.Kern.Examples.{machine, two_envs, an_env}

abbrev in_user_mode : Kernel
in_user_mode = record machine { locked = false }

-- `sys_getenvid`.
abbrev asks : Trapframe
asks = record fresh_tf { tf_trapno = 48; tf_regs = record fresh_tf.tf_regs { reg_eax = 2 } }

first-FromUser : FromUser in_user_mode 0 asks
first-FromUser = record { ring = refl; awake = refl; free = refl; current = refl; running = refl }

abbrev asked : Kernel
asked = entered in_user_mode 0 asks

told : Returns 0 0 asks in_user_mode (value 4096) asked 2
unfolding syscall sys_getenvid
told = record { call = refl; held = refl; still = refl; runs = refl; directory = refl }

trap-answered_example :
    (back : Kernel) × (trap {A = Unit {0}} 0 asks in_user_mode ≡ stop (user 0) back)
    × IsSwitch (answered (value 4096) 0 asked) 0 2 back
    × ((back.envs 0).env_tf ≡ record asks { tf_regs = record asks.tf_regs { reg_eax = 4096 } })
trap-answered_example =
    trap-answered 0 0 2 asks in_user_mode asked (value 4096) first-FromUser refl told

-- The clock, with the second environment runnable.
abbrev ticks : Trapframe
ticks = record fresh_tf { tf_trapno = 32; tf_regs = record fresh_tf.tf_regs { reg_eax = 7 } }

abbrev shared : Kernel
shared = record in_user_mode {
  envs = λ e. if e == 1 then an_env 8193 env_runnable 12 0 false else two_envs e;
}

shared-FromUser : FromUser shared 0 ticks
shared-FromUser = record { ring = refl; awake = refl; free = refl; current = refl; running = refl }

second_next : IsNearest shared.envs 1 (1 + nenv) 1
second_next = record {
  from = omega arith;
  to = omega arith;
  ready = refl;
  first = λ p l u. absurd (omega arith);
}

trap-preempted_example :
    (next : Kernel) × (trap {A = Unit {0}} 0 ticks shared ≡ stop (user 1) next)
    × IsSwitch (entered shared 0 ticks) 1 12 next
    × ((next.envs 0).env_tf ≡ ticks)
    × ((next.envs 0).env_status ≡ env_runnable)
trap-preempted_example = trap-preempted 0 0 1 12 ticks shared shared-FromUser refl second_next refl
