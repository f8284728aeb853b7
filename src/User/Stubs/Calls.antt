-- ===== src/User/Stubs/Calls.antt =====
-- The stubs of the library against the functions of the kernel.
use sisotp.Base.{ℕ, ◌≡◌, refl, some}
use sisotp.Kern.State.{Trapframe, Ret, value, error, e_inval, word}
use sisotp.Kern.Monad.{Cmd, pure, ◌>>=◌, ◌>>◌, change_env}
use sisotp.Kern.Sched.{sched_yield}
use sisotp.Kern.Syscall.{
  sys_cputs, sys_getenvid, sys_env_destroy, sys_exofork, sys_env_set_status, sys_page_alloc,
  sys_page_map, sys_page_unmap,
}
use sisotp.Kern.Ipc.{sys_ipc_try_send, sys_ipc_recv, syscall}
use sisotp.Kern.Trap.{dispatch_syscall, trap_dispatch}
use sisotp.User.Stubs.{
  Call, trap_frame, cputs_call, cgetc_call, env_destroy_call, getenvid_call, yield_call,
  page_alloc_call, page_map_call, page_unmap_call, env_set_status_call, env_set_pgfault_upcall_call,
  ipc_try_send_call, ipc_recv_call, exofork_call,
}

-- The trap of the call runs `f` and leaves its result in EAX of the environment `c`.
abbrev pub Runs : (cgetc c : ℕ) → Trapframe → Call → Cmd Ret → Type 0
Runs cgetc c tf stub f = trap_dispatch cgetc (some c) (trap_frame stub tf) ≡ (do
  r ← f
  change_env c (λ v. record v {
    env_tf = record v.env_tf { tf_regs = record v.env_tf.tf_regs { reg_eax = word r } };
  }))

-- Each stub of the library, by way of the trap that it makes, runs the function of the kernel of its
-- name, with its arguments in their order. The one exception is that for the upcall of page
-- faults, which the kernel does not know: it returns -E_INVAL.
pub trap_dispatch-stubs :
    (cgetc c : ℕ) (tf : Trapframe) (x y z u v : ℕ)
    → Runs cgetc c tf (cputs_call x y) (do sys_cputs x y; pure (value 0))
      × Runs cgetc c tf cgetc_call (pure (value cgetc))
      × Runs cgetc c tf getenvid_call sys_getenvid
      × Runs cgetc c tf (env_destroy_call x) (sys_env_destroy x)
      × Runs cgetc c tf yield_call sched_yield
      × Runs cgetc c tf (exofork_call x y z u v) sys_exofork
      × Runs cgetc c tf (env_set_status_call x y) (sys_env_set_status x y)
      × Runs cgetc c tf (page_alloc_call x y z) (sys_page_alloc x y z)
      × Runs cgetc c tf (page_map_call x y z u v) (sys_page_map x y z u v)
      × Runs cgetc c tf (page_unmap_call x y) (sys_page_unmap x y)
      × Runs cgetc c tf (ipc_try_send_call x y z u) (sys_ipc_try_send x y z u)
      × Runs cgetc c tf (ipc_recv_call x) (sys_ipc_recv x)
      × Runs cgetc c tf (env_set_pgfault_upcall_call x y) (pure (error e_inval))
unfolding trap_dispatch dispatch_syscall syscall trap_frame cputs_call cgetc_call env_destroy_call
    getenvid_call yield_call page_alloc_call page_map_call page_unmap_call env_set_status_call
    env_set_pgfault_upcall_call ipc_try_send_call ipc_recv_call exofork_call
trap_dispatch-stubs cgetc c tf x y z u v =
    (refl, refl, refl, refl, refl, refl, refl, refl, refl, refl, refl, refl, refl)
