-- ===== src/Kern/Kdebug/Info.antt =====
-- jos/kern/kdebug.c and jos/kern/kdebug.h: `debuginfo_eip`. The index of an entry is the index plus
-- one, as for the search.
use sisotp.Base.{
  ℕ, zero, suc, ◌+◌, ◌-◌, ◌*◌, ◌%◌, ◌^◌, Bool, true, false, not, ◌&&◌, ◌||◌, Option, none, some,
  ltb, leb, ◌==◌, if◌then◌else◌,
}
use sisotp.Libc.Strings.{Bytes, strfind}
use sisotp.Kern.Mmu.{ulim}
use sisotp.Kern.State.{Ret, value, error}
use sisotp.Kern.Monad.{Cmd, pure, get, deref, ◌>>=◌}
use sisotp.Kern.Vm.{user_mem_check}
use sisotp.Kern.Kdebug.{
  Stab, has_type, value_at, stab_binsearch, n_fun, n_sline, n_so, n_sol, n_psym,
}

-- The tables of the kernel or of a user program: the address of the entries, how many there are, the
-- entries, and the strings as addresses.
pub record UserStabData : Type 0 where
  pub stabs_at : ℕ
  pub stab_count : ℕ
  pub stabs : ℕ → Stab
  pub stabstr : ℕ
  pub stabstr_end : ℕ

-- A name is the address of its characters, or none for "<unknown>".
pub record Eipdebuginfo : Type 0 where
  pub eip_file : Option ℕ
  pub eip_line : ℕ
  pub eip_fn_name : Option ℕ
  pub eip_fn_namelen : ℕ
  pub eip_fn_addr : ℕ
  pub eip_fn_narg : ℕ

abbrev pub unknown : ℕ → Eipdebuginfo
unknown addr = record {
  eip_file = none;
  eip_line = 0;
  eip_fn_name = none;
  eip_fn_namelen = 9;
  eip_fn_addr = addr;
  eip_fn_narg = 0;
}

-- The search with as much fuel as it can use.
unfoldable pub search : (ℕ → Stab) → (left right type addr : ℕ) → ℕ × ℕ
search stabs left right type addr =
    elim (stab_binsearch stabs (2 * (right + 1 - left) + 2) left right type addr) [
      | none ↦ (left, right)
      | some region ↦ region
    ]

module _ (t : UserStabData) where
  unfoldable pub string_of : ℕ → Option ℕ
  string_of k =
      if ltb (t.stabs (k - 1)).n_strx (t.stabstr_end - t.stabstr)
      then some (t.stabstr + (t.stabs (k - 1)).n_strx)
      else none

  -- The entry, from `k` downwards, that names a source file.
  unfoldable pub file_entry : (lfile k : ℕ) → ℕ
  file_entry lfile zero = zero
  file_entry lfile (suc k) =
      let rest = file_entry lfile k in
      if leb lfile (suc k)
        && not (has_type t.stabs n_sol (suc k))
        && (not (has_type t.stabs n_so (suc k)) || value_at t.stabs (suc k) == 0)
      then rest
      else suc k

  -- The parameters among `n` entries from `k` on.
  unfoldable pub parameters : (n k : ℕ) → ℕ
  parameters zero k = 0
  parameters (suc n) k =
      let rest = parameters n (k + 1) in if has_type t.stabs n_psym k then rest + 1 else 0

  unfoldable pub name_length : Bytes → Option ℕ → ℕ
  name_length byte none = 9
  name_length byte (some p) = elim (strfind (t.stabstr_end - p) byte p 58) [
    | none ↦ 0
    | some q ↦ q - p
  ]

  -- The function of the entry `lfun`, if the search found one: its name and address, the address that
  -- the lines count from, and the range of the lines.
  unfoldable pub in_function : (lfile rfile lfun rfun addr : ℕ) → Option ℕ × ℕ × ℕ × ℕ × ℕ
  in_function lfile rfile lfun rfun addr =
      if leb lfun rfun
      then (
        string_of lfun,
        value_at t.stabs lfun,
        (addr + 2 ^ 32 - value_at t.stabs lfun) % 2 ^ 32,
        lfun,
        rfun,
      )
      else (none, addr, addr, lfile, rfile)

  -- Behind the check of the strings: whether the result is 0, and what stands in `*info`. It is none
  -- if the search for the file leaves -1, where the code goes on to read in front of the table.
  unfoldable pub look_up : Bytes → (addr : ℕ) → Option (Bool × Eipdebuginfo)
  look_up byte addr =
      let (lfile, rfile) = search t.stabs 1 t.stab_count n_so addr in
      let (lfun, rfun) = search t.stabs lfile rfile n_fun addr in
      let (fn_name, fn_addr, line_addr, lfirst, rfirst) = in_function lfile rfile lfun rfun addr in
      let (lline, rline) = search t.stabs lfirst rfirst n_sline line_addr in
      let lsource = file_entry lfile lline in
      let info : Eipdebuginfo = record {
        eip_file = if leb lfile lsource then string_of lsource else none;
        eip_line = if leb lline rline then (t.stabs (lline - 1)).n_desc else 0;
        eip_fn_name = fn_name;
        eip_fn_namelen = name_length byte fn_name;
        eip_fn_addr = fn_addr;
        eip_fn_narg = if ltb lfun rfun then parameters (rfun - lfun - 1) (lfun + 1) else 0;
      } in
      if lfile == 0
      then none
      else (if lfile == 1 then some (false, unknown addr) else some (true, info))

  unfoldable pub in_tables : Bytes → (addr : ℕ) → Option (Bool × Eipdebuginfo)
  in_tables byte addr =
      if leb t.stabstr_end t.stabstr || not (byte (t.stabstr_end - 1) == 0)
      then some (false, unknown addr)
      else look_up byte addr

abbrev pub ustabdata : ℕ
ustabdata = 0x200000

abbrev pub is_error : Ret → Bool
is_error (value n) = not (n == 0)
is_error (error e) = true

-- `kernel` are the tables of the kernel, `usd` what stands at USTABDATA, and `byte` the memory.
unfoldable pub debuginfo_eip :
    (kernel usd : UserStabData) → Bytes → (addr : ℕ) → Cmd (Option (Bool × Eipdebuginfo))
debuginfo_eip kernel usd byte addr = if leb ulim addr then pure (in_tables kernel byte addr) else do
  curenv ← get (λ k. k.curenv)
  env ← deref curenv
  header ← user_mem_check env ustabdata 16 0
  if is_error header then pure (some (false, unknown addr)) else do
    entries ← user_mem_check env usd.stabs_at usd.stab_count 0
    if is_error entries then pure (some (false, unknown addr)) else do
      strings ← user_mem_check env usd.stabstr ((usd.stabstr_end + 2 ^ 32 - usd.stabstr) % 2 ^ 32) 0
      if is_error strings then pure (some (false, unknown addr)) else pure (in_tables usd byte addr)
