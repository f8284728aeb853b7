-- ===== src/Kern/Trap/Return.antt =====
-- `trap` as a whole: a system call that returns, and the clock.
use sisotp.Base.{
  ℕ, ◌+◌, ◌%◌, ◌≡◌, inr, refl, sym, ap, subst, ◌∙◌, true, false, some, arith, update, bit_and,
}
use sisotp.Kern.State.{env_dying, env_running, env_runnable, Trapframe, Kernel, Ret, word, nenv}
use sisotp.Kern.Monad.{Run, ok, stop, user}
use sisotp.Kern.Env.{has_status}
use sisotp.Kern.Ipc.{syscall}
use sisotp.Kern.Sched.{sched_yield, first_pos}
use sisotp.Kern.Sched.Choice.{is_runnable, IsNearest}
use sisotp.Kern.Sched.Switch.{
  released, IsSwitch, env_run-switched, switched, switched-IsSwitch, sched_yield-nearest,
}
use sisotp.Kern.Trap.{
  lock_kernel, wake, dispatch_syscall, trap_dispatch, leave_trap, handle, trap_user, trap,
}

-- The kernel behind the entry: the lock is held, and the registers are saved.
abbrev pub entered : Kernel → ℕ → Trapframe → Kernel
entered k c tf = record k {
  locked = true;
  cpu_halted = false;
  envs = update k.envs c (record (k.envs c) { env_tf = tf });
}

-- The current environment `c` traps out of user mode, as the code segment of the frame tells.
pub record FromUser (k : Kernel) (c : ℕ) (tf : Trapframe) : Type 0 where
  pub ring : bit_and tf.tf_cs 3 ≡ 3
  pub awake : k.cpu_halted ≡ false
  pub free : k.locked ≡ false
  pub current : k.curenv ≡ some c
  pub running : (k.envs c).env_status ≡ env_running

trap-handle :
    (cgetc : ℕ) (tf : Trapframe) (k : Kernel) (c : ℕ)
    → FromUser k c tf
    → trap {A = Unit {0}} cgetc tf k ≡ handle cgetc (some c) tf (entered k c tf)
unfolding trap trap_user wake lock_kernel
trap-handle cgetc tf k c f =
    let alive : has_status env_dying (k.envs c) ≡ false = rw f.running refl in
    rw (f.ring, f.awake, f.free, f.current, alive) refl

-- The result of a system call in the registers of `c`.
abbrev pub answered : Ret → ℕ → Kernel → Kernel
answered r c k = record k {
  envs = update k.envs c (record (k.envs c) {
    env_tf = record (k.envs c).env_tf {
      tf_regs = record (k.envs c).env_tf.tf_regs { reg_eax = word r };
    };
  });
}

-- A system call that returns `r` in the state `k'`, in which the caller `c` is still current and
-- running.
pub record Returns (cgetc c : ℕ) (tf : Trapframe) (k : Kernel) (r : Ret) (k' : Kernel) (pgdir : ℕ)
    : Type 0 where
  pub call :
      syscall cgetc tf.tf_regs.reg_eax tf.tf_regs.reg_edx tf.tf_regs.reg_ecx tf.tf_regs.reg_ebx
        tf.tf_regs.reg_edi tf.tf_regs.reg_esi
        (entered k c tf)
      ≡ ok r k'
  pub held : k'.locked ≡ true
  pub still : k'.curenv ≡ some c
  pub runs : (k'.envs c).env_status ≡ env_running
  pub directory : (k'.envs c).env_pgdir ≡ some pgdir

trap_dispatch-syscall :
    (cgetc c : ℕ) (tf : Trapframe) (k : Kernel)
    → tf.tf_trapno ≡ 48
    → trap_dispatch cgetc (some c) tf k ≡ dispatch_syscall cgetc (some c) tf k
unfolding trap_dispatch
trap_dispatch-syscall cgetc c tf k n = simp n

trap_dispatch-clock :
    (cgetc c : ℕ) (tf : Trapframe) (k : Kernel)
    → tf.tf_trapno ≡ 32
    → trap_dispatch cgetc (some c) tf k ≡ sched_yield k
unfolding trap_dispatch
trap_dispatch-clock cgetc c tf k n = simp n

dispatch_syscall-answered :
    (cgetc c : ℕ) (tf : Trapframe) (k k' : Kernel) (r : Ret) (pgdir : ℕ)
    → Returns cgetc c tf k r k' pgdir
    → dispatch_syscall cgetc (some c) tf (entered k c tf) ≡ ok tt (answered r c k')
unfolding dispatch_syscall
dispatch_syscall-answered cgetc c tf k k' r pgdir s = rw s.call refl

leave_trap-switched :
    (k : Kernel) (c pgdir : ℕ)
    → k.locked ≡ true
    → k.curenv ≡ some c
    → (k.envs c).env_status ≡ env_running
    → (k.envs c).env_pgdir ≡ some pgdir
    → leave_trap {A = Unit {0}} (some c) k ≡ stop (user c) (switched c pgdir k)
unfolding leave_trap
leave_trap-switched k c pgdir l q r d =
    let running : has_status env_running (k.envs c) ≡ true = rw r refl in
    rw running (env_run-switched k c pgdir l (inr (q, running)) d)

handle_returned :
    (cgetc c : ℕ) (tf : Trapframe) (k k' : Kernel) {r : Run (Unit {0})}
    → trap_dispatch cgetc (some c) tf k ≡ ok tt k'
    → k'.curenv ≡ some c
    → leave_trap {A = Unit {0}} (some c) k' ≡ r
    → handle {A = Unit {0}} cgetc (some c) tf k ≡ r
handle_returned cgetc c tf k k' {r} e q h =
    rw e (subst (λ o. leave_trap {A = Unit {0}} o k' ≡ r) (sym q) h)

handle_stopped :
    (cgetc c : ℕ) (tf : Trapframe) (k k' : Kernel) {e : ℕ}
    → trap_dispatch cgetc (some c) tf k ≡ stop (user e) k'
    → handle {A = Unit {0}} cgetc (some c) tf k ≡ stop (user e) k'
handle_stopped cgetc c tf k k' e = rw e refl

-- A system call out of user mode, entered with the lock free, that returns while its caller is
-- still current and running: the processor goes back to the caller, with the lock free. Of the
-- registers that the call left to it, eax has the result.
pub trap-answered :
    (cgetc c pgdir : ℕ) (tf : Trapframe) (k k' : Kernel) (r : Ret)
    → FromUser k c tf
    → tf.tf_trapno ≡ 48
    → Returns cgetc c tf k r k' pgdir
    → (back : Kernel) × (trap {A = Unit {0}} cgetc tf k ≡ stop (user c) back)
      × IsSwitch (answered r c k') c pgdir back
      × ((back.envs c).env_tf ≡ record (k'.envs c).env_tf {
        tf_regs = record (k'.envs c).env_tf.tf_regs { reg_eax = word r };
      })
trap-answered cgetc c pgdir tf k k' r f n s =
    let k₁ = answered r c k' in
    let runs : (k₁.envs c).env_status ≡ env_running = ground (arith, s.runs) in
    let dir : (k₁.envs c).env_pgdir ≡ some pgdir = ground (arith, s.directory) in
    let left = leave_trap-switched k₁ c pgdir s.held s.still runs dir in
    let went =
      trap_dispatch-syscall cgetc c tf (entered k c tf) n
      ∙ dispatch_syscall-answered cgetc c tf k k' r pgdir s in
    let switch = switched-IsSwitch k₁ c pgdir in
    (
      switched c pgdir k₁,
      trap-handle cgetc tf k c f ∙ handle_returned cgetc c tf (entered k c tf) k₁ went s.still left,
      switch,
      switch.registers ∙ ground arith,
    )

entered-is_runnable :
    (k : Kernel) (c : ℕ) (tf : Trapframe) (p : ℕ)
    → is_runnable (entered k c tf).envs p ≡ is_runnable k.envs p
entered-is_runnable k c tf p = ground arith

entered-IsNearest :
    (k : Kernel) (c at : ℕ) (tf : Trapframe)
    → IsNearest k.envs (c + 1) (c + 1 + nenv) at
    → IsNearest (entered k c tf).envs (c + 1) (c + 1 + nenv) at
entered-IsNearest k c at tf m = record {
  from = m.from;
  to = m.to;
  ready = entered-is_runnable k c tf at ∙ m.ready;
  first = λ p u v. entered-is_runnable k c tf p ∙ m.first p u v;
}

-- The clock interrupts the current environment in user mode, with the lock free, and another one is
-- runnable: the processor goes to the nearest such in circular order, with the lock free. The
-- interrupted environment is runnable and keeps its registers.
pub trap-preempted :
    (cgetc c at pgdir : ℕ) (tf : Trapframe) (k : Kernel)
    → FromUser k c tf
    → tf.tf_trapno ≡ 32
    → IsNearest k.envs (c + 1) (c + 1 + nenv) at
    → (k.envs (at % nenv)).env_pgdir ≡ some pgdir
    → (next : Kernel) × (trap {A = Unit {0}} cgetc tf k ≡ stop (user (at % nenv)) next)
      × IsSwitch (entered k c tf) (at % nenv) pgdir next
      × ((next.envs c).env_tf ≡ tf)
      × ((next.envs c).env_status ≡ env_runnable)
trap-preempted cgetc c at pgdir tf k f n m d =
    let k₁ = entered k c tf in
    let near : IsNearest k₁.envs (first_pos k₁.curenv) (first_pos k₁.curenv + nenv) at =
      subst (λ o. IsNearest k₁.envs (first_pos o) (first_pos o + nenv) at) (sym f.current)
        (entered-IsNearest k c at tf m) in
    let dir : (k₁.envs (at % nenv)).env_pgdir ≡ some pgdir = ground (arith, d) in
    let (next, e, switch) = sched_yield-nearest k₁ at pgdir refl near dir in
    let went = trap_dispatch-clock cgetc c tf k₁ n ∙ e in
    let kept : next.envs c ≡ released k₁ c =
      switch.others c (λ q. ground (arith, f.running, m.ready, q)) in
    (
      next,
      trap-handle cgetc tf k c f ∙ handle_stopped cgetc c tf k₁ next went,
      switch,
      ap (λ v. v.env_tf) kept ∙ ground (arith, f.current, f.running),
      ap (λ v. v.env_status) kept ∙ ground (arith, f.current, f.running),
    )
