-- ===== src/Kern/Env/Load.antt =====
-- jos/kern/env.c and jos/inc/elf.h: a program is loaded into a new environment. `binary` gives the
-- bytes of the program, by their offset; they lie in memory of the kernel that the code does not write.
use sisotp.Base.{ℕ, zero, suc, ◌+◌, ◌-◌, ◌*◌, ◌/◌, ◌%◌, ◌^◌, not, ◌&&◌, some, ◌==◌, if◌then◌else◌}
use sisotp.Kern.Mmu.{pgsize, pte_p, pte_w, ustacktop, pgnum, pdx, ptx, pte_addr, flag}
use sisotp.Kern.State.{value, error}
use sisotp.Kern.Monad.{
  Cmd, pure, panic, halt_with, ◌>>=◌, ◌>>◌, get, assert, deref, change_env, load, store,
}
use sisotp.Kern.Boot.{region_alloc}
use sisotp.Kern.Env.{env_alloc}
use sisotp.Kern.Sched.{load_cr3}

-- Where the processor writes at `va`: the page and the index of the word, by the page directory in
-- cr3. A write to a page that is not mapped, or only to be read, is a page fault in the kernel, at
-- which `page_fault_handler` panics.
unfoldable pub write_place : (va : ℕ) → Cmd (ℕ × ℕ)
write_place va = do
  pgdir ← get (λ k. k.cr3)
  pde ← load (pgdir, pdx va)
  assert (flag pde pte_p && flag pde pte_w)
  pte ← load (pgnum (pte_addr pde), ptx va)
  assert (flag pte pte_p && flag pte pte_w)
  pure (pgnum (pte_addr pte), va % pgsize / 4)

abbrev pub set_byte : (word i byte : ℕ) → ℕ
set_byte word i byte = word - word / 256 ^ i % 256 * 256 ^ i + byte * 256 ^ i

unfoldable pub store_byte : (va byte : ℕ) → Cmd (Unit {0})
unfolding write_place
store_byte va byte = do
  place ← write_place va
  word ← load place
  store place (set_byte word (va % 4) byte)

-- `memcpy` to user memory, and `memset` of it: `n` bytes from `va` on.
unfoldable pub store_bytes : (n va : ℕ) → (ℕ → ℕ) → (offset : ℕ) → Cmd (Unit {0})
unfolding store_byte
store_bytes zero va bytes offset = pure tt
store_bytes (suc n) va bytes offset = do
  store_byte (va % 2 ^ 32) (bytes offset)
  store_bytes n (va + 1) bytes (offset + 1)

abbrev pub u16 : (ℕ → ℕ) → ℕ → ℕ
u16 binary p = binary p + binary (p + 1) * 2 ^ 8

abbrev pub u32 : (ℕ → ℕ) → ℕ → ℕ
u32 binary p = u16 binary p + u16 binary (p + 2) * 2 ^ 16

pub record Elf : Type 0 where
  pub e_magic : ℕ
  pub e_entry : ℕ
  pub e_phoff : ℕ
  pub e_phnum : ℕ

pub record Proghdr : Type 0 where
  pub p_type : ℕ
  pub p_offset : ℕ
  pub p_va : ℕ
  pub p_filesz : ℕ
  pub p_memsz : ℕ

abbrev pub elf_at : (ℕ → ℕ) → Elf
elf_at binary = record {
  e_magic = u32 binary 0;
  e_entry = u32 binary 24;
  e_phoff = u32 binary 28;
  e_phnum = u16 binary 44;
}

abbrev pub proghdr_at : (ℕ → ℕ) → ℕ → Proghdr
proghdr_at binary p = record {
  p_type = u32 binary p;
  p_offset = u32 binary (p + 4);
  p_va = u32 binary (p + 8);
  p_filesz = u32 binary (p + 16);
  p_memsz = u32 binary (p + 20);
}

abbrev pub elf_magic : ℕ
elf_magic = 0x464c457f

abbrev pub elf_prog_load : ℕ
elf_prog_load = 1

unfoldable pub load_segment : (e : ℕ) → (ℕ → ℕ) → Proghdr → Cmd (Unit {0})
unfolding store_bytes
load_segment e binary ph = if not (ph.p_type == elf_prog_load) then pure tt else do
  region_alloc e ph.p_va ph.p_memsz
  store_bytes ph.p_filesz ph.p_va binary ph.p_offset
  store_bytes ((ph.p_memsz + 2 ^ 32 - ph.p_filesz) % 2 ^ 32) (ph.p_va + ph.p_filesz) (λ i. 0) 0

-- The loop over the program headers, `n` of which are left.
unfoldable pub load_segments : (n e : ℕ) → (ℕ → ℕ) → (ph : ℕ) → Cmd (Unit {0})
unfolding load_segment
load_segments zero e binary ph = pure tt
load_segments (suc n) e binary ph = do
  load_segment e binary (proghdr_at binary ph)
  load_segments n e binary (ph + 32)

unfoldable pub load_icode : (e : ℕ) → (ℕ → ℕ) → Cmd (Unit {0})
unfolding load_segments
load_icode e binary = do
  let elf = elf_at binary
  cr3 ← get (λ k. k.cr3)
  kern_pgdir ← get (λ k. k.kern_pgdir)
  assert (cr3 == kern_pgdir)
  env_pgdir ← get (λ k. (k.envs e).env_pgdir)
  load_cr3 env_pgdir
  assert (elf.e_magic == elf_magic)
  load_segments elf.e_phnum e binary elf.e_phoff
  change_env e (λ v. record v { env_tf = record v.env_tf { tf_eip = elf.e_entry } })
  region_alloc e (ustacktop - pgsize) pgsize
  load_cr3 (some kern_pgdir)

unfoldable pub env_create : (ℕ → ℕ) → (type : ℕ) → Cmd (Unit {0})
unfolding env_alloc load_icode
env_create binary type = do
  (r, store) ← env_alloc 0
  elim r [
    | error c ↦ halt_with panic
    | value n ↦ (do
      e ← deref store
      load_icode e binary
      change_env e (λ v. record v { env_type = type }))
  ]
