-- ===== src/Kern/State.antt =====
-- What the kernel keeps between two instructions of one processor that holds the big kernel lock:
-- inc/env.h, inc/trap.h, inc/error.h, struct PageInfo of inc/memlayout.h, and the global variables
-- of kern/pmap.c and kern/env.c. Physical memory is a map from a page number and the index of a
-- 32-bit word in that page to the word. A pointer to a PageInfo or an Env is its index in `pages`
-- or `envs`, NULL is `none`, and a kernel pointer to a whole page is the number of the page.
use sisotp.Base.{ℕ, ◌-◌, ◌^◌, Bool, Option, List}

pub record PageInfo : Type 0 where
  pub pp_link : Option ℕ
  pub pp_ref : ℕ

pub record PushRegs : Type 0 where
  pub reg_edi : ℕ
  pub reg_esi : ℕ
  pub reg_ebp : ℕ
  pub reg_oesp : ℕ
  pub reg_ebx : ℕ
  pub reg_edx : ℕ
  pub reg_ecx : ℕ
  pub reg_eax : ℕ

pub record Trapframe : Type 0 where
  pub tf_regs : PushRegs
  pub tf_es : ℕ
  pub tf_ds : ℕ
  pub tf_trapno : ℕ
  pub tf_err : ℕ
  pub tf_eip : ℕ
  pub tf_cs : ℕ
  pub tf_eflags : ℕ
  pub tf_esp : ℕ
  pub tf_ss : ℕ

pub data EnvStatus : Type 0 where
  env_free env_dying env_runnable env_running env_not_runnable : EnvStatus

-- An envid_t is its bit pattern, a number below 2 ^ 32.
pub record Env : Type 0 where
  pub env_tf : Trapframe
  pub env_link : Option ℕ
  pub env_id : ℕ
  pub env_parent_id : ℕ
  pub env_type : ℕ
  pub env_status : EnvStatus
  pub env_runs : ℕ
  pub env_cpunum : ℕ
  pub env_pgdir : Option ℕ
  pub env_pgfault_upcall : ℕ
  pub env_ipc_recving : Bool
  pub env_ipc_dstva : ℕ
  pub env_ipc_value : ℕ
  pub env_ipc_from : ℕ
  pub env_ipc_perm : ℕ

abbrev pub log2nenv : ℕ
log2nenv = 10

abbrev pub nenv : ℕ
nenv = 2 ^ log2nenv

pub data Error : Type 0 where
  e_unspecified e_bad_env e_inval e_no_mem e_no_free_env e_fault e_ipc_not_recv e_eof : Error

abbrev pub code : Error → ℕ
code Error.e_unspecified = 1
code Error.e_bad_env = 2
code Error.e_inval = 3
code Error.e_no_mem = 4
code Error.e_no_free_env = 5
code Error.e_fault = 6
code Error.e_ipc_not_recv = 7
code Error.e_eof = 8

-- An `int` result of the kernel: a number, or minus an error code.
pub data Ret : Type 0 where
  value : ℕ → Ret
  error : Error → Ret

-- The word that stands for it in a register.
abbrev pub word : Ret → ℕ
word (value n) = n
word (error e) = 2 ^ 32 - code e

pub record Kernel : Type 0 where
  pub npages : ℕ
  pub nextfree : ℕ
  pub pages : ℕ → PageInfo
  pub page_free_list : Option ℕ
  pub mem : ℕ → ℕ → ℕ
  pub kern_pgdir : ℕ
  pub mmio_base : ℕ
  pub user_mem_check_addr : ℕ
  pub envs : ℕ → Env
  pub env_free_list : Option ℕ
  pub curenv : Option ℕ
  -- the number of this processor
  pub cpunum : ℕ
  -- the page directory that the processor uses, and the addresses given to `invlpg`, newest first
  pub cr3 : ℕ
  pub invalidated : List ℕ
  -- the big kernel lock, the state of this processor, and the arguments `s` and `len` with which
  -- `sys_cputs` printed, newest first
  pub locked : Bool
  pub cpu_halted : Bool
  pub printed : List (ℕ × ℕ)
