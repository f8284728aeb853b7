-- ===== src/User/Stubs.antt =====
-- jos/lib/syscall.c and jos/inc/lib.h: the stubs of the system calls, as the registers with which they
-- trap; jos/lib/exit.c, jos/lib/console.c and jos/lib/libmain.c, which call them.
pub mod Calls
use sisotp.Base.{
  ℕ, suc, ◌^◌, List, [], ◌∷◌, Bool, true, false, ◌&&◌, Option, none, some, ltb, ◌==◌, if◌then◌else◌,
}
use sisotp.Kern.State.{Trapframe}
use sisotp.Kern.Monad.{Cmd, pure, monitor, halt_with}
use sisotp.Kern.Env.{envx}

-- The arguments of the function `syscall` of the library.
pub record Call : Type 0 where
  pub num : ℕ
  pub check : Bool
  pub a1 : ℕ
  pub a2 : ℕ
  pub a3 : ℕ
  pub a4 : ℕ
  pub a5 : ℕ

abbrev pub call : (num : ℕ) → Bool → (a1 a2 a3 a4 a5 : ℕ) → Call
call num check a1 a2 a3 a4 a5 = record {
  num = num;
  check = check;
  a1 = a1;
  a2 = a2;
  a3 = a3;
  a4 = a4;
  a5 = a5;
}

-- The trap frame of `int T_SYSCALL` with AX, DX, CX, BX, DI and SI set; the other registers are those
-- of `tf`.
unfoldable pub trap_frame : Call → Trapframe → Trapframe
trap_frame c tf = record tf {
  tf_trapno = 48;
  tf_regs = record tf.tf_regs {
    reg_eax = c.num;
    reg_edx = c.a1;
    reg_ecx = c.a2;
    reg_ebx = c.a3;
    reg_edi = c.a4;
    reg_esi = c.a5;
  };
}

-- `if(check && ret > 0) panic(...)`, for the word in EAX as an int32_t. The panic ends in the monitor.
unfoldable pub checked : Call → (ret : ℕ) → Cmd ℕ
checked c ret = if c.check && ltb 0 ret && ltb ret (2 ^ 31) then halt_with monitor else pure ret

unfoldable pub cputs_call : (s len : ℕ) → Call
cputs_call s len = call 0 false s len 0 0 0

unfoldable pub cgetc_call : Call
cgetc_call = call 1 false 0 0 0 0 0

unfoldable pub env_destroy_call : (envid : ℕ) → Call
env_destroy_call envid = call 3 true envid 0 0 0 0

unfoldable pub getenvid_call : Call
getenvid_call = call 2 false 0 0 0 0 0

unfoldable pub yield_call : Call
yield_call = call 10 false 0 0 0 0 0

unfoldable pub page_alloc_call : (envid va perm : ℕ) → Call
page_alloc_call envid va perm = call 4 true envid va perm 0 0

unfoldable pub page_map_call : (srcenv srcva dstenv dstva perm : ℕ) → Call
page_map_call srcenv srcva dstenv dstva perm = call 5 true srcenv srcva dstenv dstva perm

unfoldable pub page_unmap_call : (envid va : ℕ) → Call
page_unmap_call envid va = call 6 true envid va 0 0 0

unfoldable pub env_set_status_call : (envid status : ℕ) → Call
env_set_status_call envid status = call 8 true envid status 0 0 0

unfoldable pub env_set_pgfault_upcall_call : (envid upcall : ℕ) → Call
env_set_pgfault_upcall_call envid upcall = call 9 true envid upcall 0 0 0

unfoldable pub ipc_try_send_call : (envid value_ srcva perm : ℕ) → Call
ipc_try_send_call envid value_ srcva perm = call 11 false envid value_ srcva perm 0

unfoldable pub ipc_recv_call : (dstva : ℕ) → Call
ipc_recv_call dstva = call 12 true dstva 0 0 0 0

-- `sys_exofork` of jos/inc/lib.h sets AX alone; the other registers are what they happen to be.
unfoldable pub exofork_call : (edx ecx ebx edi esi : ℕ) → Call
exofork_call edx ecx ebx edi esi = call 7 false edx ecx ebx edi esi

-- `exit`: the call that it makes.
unfoldable pub exit_call : Call
unfolding env_destroy_call
exit_call = env_destroy_call 0

-- `getchar`, on the results of `sys_cgetc` one after the other: the character, and the calls of
-- `sys_yield` before it.
unfoldable pub getchar : (results : List ℕ) → (yields : ℕ) → Option (ℕ × ℕ)
getchar [] yields = none
getchar (r ∷ results) yields =
    let rest = getchar results (suc yields) in if r == 0 then rest else some (r, yields)

-- What `libmain` sets `thisenv` to: the index of the environment with the identifier that
-- `sys_getenvid` returns, or what it was if that is an error.
unfoldable pub libmain_thisenv : (id : ℕ) → (thisenv : Option ℕ) → Option ℕ
unfolding envx
libmain_thisenv id thisenv = if ltb id (2 ^ 31) then some (envx id) else thisenv
