-- ===== src/Kern/Boot.antt =====
-- What the start of the kernel does with the page tables: `region_alloc` of jos/kern/env.c, which
-- gives an environment its memory, and `mem_init_mp` of jos/kern/pmap.c, which maps the kernel
-- stacks. The addresses of the stacks come from the linker and are a parameter.
use sisotp.Base.{
  ℕ, zero, suc, ◌+◌, ◌-◌, ◌*◌, ◌/◌, ◌%◌, ◌^◌, ◌==◌, false, none, some, if◌then◌else◌, bit_or,
}
use sisotp.Kern.Mmu.{
  pgsize, pte_p, pte_u, pte_w, uvpt, upages, uenvs, kernbase, pgnum, pdx, kstacktop, kstksize,
  kstkgap, rounddown, roundup,
}
use sisotp.Kern.State.{PageInfo, Env, env_free, value, error, nenv}
use sisotp.Kern.Env.{zero_regs}
use sisotp.Kern.Monad.{
  Cmd, pure, panic, halt_with, ◌>>=◌, ◌>>◌, get, assert, deref, modify, store, zero_page,
}
use sisotp.Kern.Pmap.{paddr, page_alloc, page_init, boot_alloc}
use sisotp.Kern.Vm.{page_insert, boot_map_region}

-- One round of the loop of `region_alloc`, with the page that `page_alloc` returned.
unfoldable pub region_page : (env va p : ℕ) → Cmd (Unit {0})
region_page env va p = do
  dir ← get (λ k. (k.envs env).env_pgdir)
  pgdir ← deref dir
  r ← page_insert pgdir (some p) va (bit_or pte_u pte_w)
  elim r [ error _ ↦ halt_with panic | value _ ↦ pure tt ]

-- The loop, on the number of pages left.
unfoldable pub region_pages : (env rounds va : ℕ) → Cmd (Unit {0})
region_pages env zero va = pure tt
region_pages env (suc rounds) va = do
  page ← page_alloc 0
  elim page [
    | none ↦ halt_with panic
    | some p ↦ (do region_page env va p; region_pages env rounds (va + pgsize))
  ]

-- The loop does not run if `va + len` wraps around, and the assertion behind it fails then.
unfoldable pub region_alloc : (env va len : ℕ) → Cmd (Unit {0})
region_alloc env va len =
    let va_finish = roundup ((va + len) % 2 ^ 32) pgsize in
    let start = rounddown va pgsize in
    let rounds = (va_finish - start) / pgsize in
    if len == 0
    then pure tt
    else do region_pages env rounds start; assert (start + rounds * pgsize == va_finish)

abbrev pub ncpu : ℕ
ncpu = 8

unfoldable pub map_kstacks :
    (percpu_kstacks : ℕ → ℕ) → (rounds i kernelstack_va : ℕ) → Cmd (Unit {0})
map_kstacks percpu_kstacks zero i kernelstack_va = pure tt
map_kstacks percpu_kstacks (suc rounds) i kernelstack_va = do
  kstacktop_pa ← paddr (percpu_kstacks i)
  kern_pgdir ← get (λ k. k.kern_pgdir)
  boot_map_region kern_pgdir kernelstack_va kstksize kstacktop_pa (bit_or pte_w pte_p)
  map_kstacks percpu_kstacks rounds (i + 1)
      ((kernelstack_va + 2 ^ 32 - (kstksize + kstkgap)) % 2 ^ 32)

unfoldable pub mem_init_mp : (percpu_kstacks : ℕ → ℕ) → Cmd (Unit {0})
mem_init_mp percpu_kstacks = map_kstacks percpu_kstacks ncpu 0 (kstacktop - kstksize)

abbrev pub zero_page_info : PageInfo
zero_page_info = record { pp_link = none; pp_ref = 0 }

-- An entry of `envs` of which all bytes are 0.
abbrev pub zero_env : Env
zero_env = record {
  env_tf = record {
    tf_regs = zero_regs;
    tf_es = 0;
    tf_ds = 0;
    tf_trapno = 0;
    tf_err = 0;
    tf_eip = 0;
    tf_cs = 0;
    tf_eflags = 0;
    tf_esp = 0;
    tf_ss = 0;
  };
  env_link = none;
  env_id = 0;
  env_parent_id = 0;
  env_type = 0;
  env_status = env_free;
  env_runs = 0;
  env_cpunum = 0;
  env_pgdir = none;
  env_pgfault_upcall = 0;
  env_ipc_recving = false;
  env_ipc_dstva = 0;
  env_ipc_value = 0;
  env_ipc_from = 0;
  env_ipc_perm = 0;
}

-- sizeof(struct PageInfo) and sizeof(struct Env).
abbrev pub page_info_size : ℕ
page_info_size = 8

abbrev pub env_size : ℕ
env_size = 124

-- The page directory of the kernel, empty but for the entry that names itself.
unfoldable pub make_kern_pgdir : (end : ℕ) → Cmd ℕ
unfolding pgnum pdx
make_kern_pgdir end = do
  kva ← boot_alloc end pgsize
  pa ← paddr kva
  modify (λ k. record k { kern_pgdir = pgnum pa })
  zero_page (pgnum pa)
  store (pgnum pa, pdx uvpt) (bit_or (bit_or pa pte_u) pte_p)
  pure (pgnum pa)

-- `mem_init`, with `npages` detected. The addresses of the end of the kernel and of its stacks come
-- from the linker. The self tests, which leave the state as it is, and cr0 are left out.
unfoldable pub mem_init : (end bootstack : ℕ) → (percpu_kstacks : ℕ → ℕ) → Cmd (Unit {0})
unfolding make_kern_pgdir mem_init_mp
mem_init end bootstack percpu_kstacks = do
  kern_pgdir ← make_kern_pgdir end
  npages ← get (λ k. k.npages)
  pages ← boot_alloc end (npages * page_info_size)
  modify (λ k. record k { pages = λ _. zero_page_info })
  envs ← boot_alloc end (nenv * env_size)
  modify (λ k. record k { envs = λ _. zero_env })
  page_init end
  pages_pa ← paddr pages
  boot_map_region kern_pgdir upages (npages * page_info_size) pages_pa (bit_or pte_u pte_p)
  envs_pa ← paddr envs
  boot_map_region kern_pgdir uenvs (nenv * env_size) envs_pa (bit_or pte_u pte_p)
  stack_pa ← paddr bootstack
  boot_map_region kern_pgdir (kstacktop - kstksize) kstksize stack_pa (bit_or pte_p pte_w)
  boot_map_region kern_pgdir kernbase (2 ^ 32 - kernbase) 0 (bit_or pte_p pte_w)
  mem_init_mp percpu_kstacks
  modify (λ k. record k { cr3 = kern_pgdir })
