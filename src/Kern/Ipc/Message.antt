-- ===== src/Kern/Ipc/Message.antt =====
-- jos/kern/syscall.c: messages without a page, from `sys_ipc_recv` to `sys_ipc_try_send`.
use sisotp.Base.{ℕ, ◌%◌, ◌≤◌, ◌<◌, ◌≡◌, ◌≢◌, ◌⊎◌, refl, true, false, none, some, arith, update}
use sisotp.Kern.Mmu.{pgsize, utop}
use sisotp.Kern.State.{
  Env, env_runnable, env_not_runnable, Kernel, value, error, e_bad_env, e_inval, e_ipc_not_recv,
}
use sisotp.Kern.Monad.{ok}
use sisotp.Kern.Env.{envid2env}
use sisotp.Kern.Sched.{sched_yield}
use sisotp.Kern.Ipc.{sys_ipc_try_send, sys_ipc_recv, send_to, deliver}

-- What the target of a message finds when it runs again; no other environment has changed.
pub record IsDelivered (k : Kernel) (c t value_ perm : ℕ) (k' : Kernel) : Type 0 where
  pub recving : (k'.envs t).env_ipc_recving ≡ false
  pub from : (k'.envs t).env_ipc_from ≡ (k.envs c).env_id
  pub sent : (k'.envs t).env_ipc_value ≡ value_
  pub perms : (k'.envs t).env_ipc_perm ≡ perm
  pub returns_zero : (k'.envs t).env_tf.tf_regs.reg_eax ≡ 0
  pub runnable : (k'.envs t).env_status ≡ env_runnable
  pub others : (i : ℕ) → i ≢ t → k'.envs i ≡ k.envs i

-- The receiver's environment while it is blocked.
abbrev pub blocked : (dstva : ℕ) → Env → Env
blocked dstva e = record e {
  env_ipc_dstva = dstva;
  env_ipc_recving = true;
  env_status = env_not_runnable;
}

-- For a current environment, `sys_ipc_recv` refuses an unaligned address below UTOP and then
-- changes nothing; otherwise it marks the environment as receiving and not runnable, and gives up
-- the processor in that state.
sys_ipc_recv-blocked :
    (k : Kernel) (c dstva : ℕ)
    → k.curenv ≡ some c
    → (dstva < utop → dstva % pgsize ≢ 0 → sys_ipc_recv dstva k ≡ ok (error e_inval) k)
      × ((utop ≤ dstva) ⊎ (dstva % pgsize ≡ 0)
          → sys_ipc_recv dstva k
            ≡ sched_yield (record k { envs = update k.envs c (blocked dstva (k.envs c)) }))
unfolding sys_ipc_recv
sys_ipc_recv-blocked k c dstva e = (λ l m. ground arith, λ h. ground arith)

abbrev pub without_page : (t : ℕ) → Kernel → Kernel
without_page t k = record k { envs = update k.envs t (record (k.envs t) { env_ipc_perm = 0 }) }

abbrev pub delivered : (c t value_ : ℕ) → Kernel → Kernel
delivered c t value_ k = record k {
  envs = update k.envs t (record (k.envs t) {
    env_ipc_recving = false;
    env_ipc_from = (k.envs c).env_id;
    env_ipc_value = value_;
    env_tf = record (k.envs t).env_tf {
      tf_regs = record (k.envs t).env_tf.tf_regs { reg_eax = 0 };
    };
    env_status = env_runnable;
  });
}

delivered-IsDelivered :
    (k : Kernel) (c t value_ : ℕ)
    → IsDelivered k c t value_ 0 (delivered c t value_ (without_page t k))
delivered-IsDelivered k c t value_ = record {
  recving = ground arith;
  from = ground arith;
  sent = ground arith;
  perms = ground arith;
  returns_zero = ground arith;
  runnable = ground arith;
  others = λ i n. ground arith;
}

-- For a current environment: without a page to transfer, a send to an environment that is
-- receiving delivers the value and nothing else, and memory and the page counts stay as they are;
-- to one that is not receiving it fails with -E_IPC_NOT_RECV and changes nothing; to an
-- identifier that leads nowhere, with -E_BAD_ENV.
pub sys_ipc_try_send-IsDelivered :
    (k : Kernel) (c t envid value_ srcva perm : ℕ)
    → k.curenv ≡ some c
    → (envid2env envid false k ≡ ok (error e_bad_env, none) k
        → sys_ipc_try_send envid value_ srcva perm k ≡ ok (error e_bad_env) k)
      × (envid2env envid false k ≡ ok (value 0, some t) k
          → (k.envs t).env_ipc_recving ≡ false
          → sys_ipc_try_send envid value_ srcva perm k ≡ ok (error e_ipc_not_recv) k)
      × (envid2env envid false k ≡ ok (value 0, some t) k
          → (k.envs t).env_ipc_recving ≡ true
          → (utop ≤ srcva) ⊎ (utop ≤ (k.envs t).env_ipc_dstva)
          → (k' : Kernel) × (sys_ipc_try_send envid value_ srcva perm k ≡ ok (value 0) k')
            × IsDelivered k c t value_ 0 k'
            × (k'.mem ≡ k.mem)
            × (k'.pages ≡ k.pages))
unfolding sys_ipc_try_send send_to deliver
sys_ipc_try_send-IsDelivered k c t envid value_ srcva perm e = (
  λ f. rw f,
  λ f r. rw (f, r),
  λ f r h. (
    delivered c t value_ (without_page t k),
    rw (f, r) (ground arith),
    delivered-IsDelivered k c t value_,
    refl,
    refl,
  ),
)
