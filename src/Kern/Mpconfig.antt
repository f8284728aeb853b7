-- ===== src/Kern/Mpconfig.antt =====
-- jos/kern/mpconfig.c and jos/kern/cpu.h: the search for the multiprocessor tables, and the processors
-- that they list. `byte` is physical memory; what is printed is left out.
pub mod Bounds
use sisotp.Base.{
  codes, ℕ, zero, suc, ◌+◌, ◌-◌, ◌*◌, ◌/◌, ◌%◌, ◌^◌, List, [], ◌∷◌, Bool, true, false, not, ◌&&◌,
  ◌||◌, Option, none, some, ltb, leb, ◌==◌, if◌then◌else◌, update, bit_and, bit_or,
}
use sisotp.Libc.Strings.{Bytes}
use sisotp.Kern.Monad.{Cmd, pure, assert, get, ◌>>=◌, ◌>>◌}

abbrev pub ncpu_max : ℕ
ncpu_max = 8

-- Numbers of two and of four bytes, the lowest first.
abbrev pub half_at : Bytes → ℕ → ℕ
half_at byte p = byte p + byte (p + 1) * 2 ^ 8

abbrev pub word_at : Bytes → ℕ → ℕ
word_at byte p = half_at byte p + half_at byte (p + 2) * 2 ^ 16

-- `memcmp` of the bytes at `p` with a text.
abbrev pub has_signature : Bytes → ℕ → List ℕ → Bool
has_signature byte p [] = true
has_signature byte p (c ∷ text) = byte p == c && has_signature byte (p + 1) text

-- The loop of `sum`, on the bytes left; the result is a `uint8_t`.
unfoldable pub sum_from : (len : ℕ) → Bytes → (addr sum : ℕ) → ℕ
sum_from zero byte addr sum = sum % 256
sum_from (suc len) byte addr sum = sum_from len byte (addr + 1) (sum + byte addr)

unfoldable pub sum : Bytes → (addr len : ℕ) → ℕ
sum byte addr len = sum_from len byte addr 0

-- KADDR, which panics behind the pages of the machine.
abbrev pub check_kaddr : ℕ → Cmd (Unit {0})
check_kaddr pa = do npages ← get (λ k. k.npages); assert (ltb (pa / 4096) npages)

-- The loop of `mpsearch1`, on the structures left.
unfoldable pub mpsearch_from : (n : ℕ) → Bytes → (mp : ℕ) → Option ℕ
mpsearch_from zero byte mp = none
mpsearch_from (suc n) byte mp =
    let rest = mpsearch_from n byte (mp + 16) in
    if has_signature byte mp (codes "_MP_") && sum byte mp 16 == 0 then some mp else rest

unfoldable pub mpsearch1 : Bytes → (a len : ℕ) → Cmd (Option ℕ)
mpsearch1 byte a len = do
  check_kaddr a
  check_kaddr (a + len)
  pure (mpsearch_from ((len + 15) / 16) byte a)

unfoldable pub mpsearch : Bytes → Cmd (Option ℕ)
mpsearch byte = do
  check_kaddr (64 * 16)
  let p = half_at byte (64 * 16 + 14)
  let base = half_at byte (64 * 16 + 19) * 1024
  found ← mpsearch1 byte (if p == 0 then (base + 2 ^ 32 - 1024) % 2 ^ 32 else p * 16) 1024
  elim found [ some mp ↦ pure (some mp) | none ↦ mpsearch1 byte 0xf0000 0x10000 ]

-- The tests of the table at `conf`.
unfoldable pub is_mpconf : Bytes → (conf : ℕ) → Bool
is_mpconf byte conf =
    has_signature byte conf (codes "PCMP")
    && (sum byte conf (half_at byte (conf + 4)) == 0)
    && ((byte (conf + 6) == 1) || (byte (conf + 6) == 4))
    && ((sum byte (conf + half_at byte (conf + 4)) (half_at byte (conf + 40)) + byte (conf + 42))
          % 256
        == 0)

-- The structure and the table that it points to.
unfoldable pub mpconfig : Bytes → Cmd (Option (ℕ × ℕ))
mpconfig byte = do
  found ← mpsearch byte
  elim found [
    | none ↦ pure none
    | some mp ↦ if word_at byte (mp + 4) == 0 || not (byte (mp + 11) == 0) then pure none else do
      check_kaddr (word_at byte (mp + 4))
      pure (
          if is_mpconf byte (word_at byte (mp + 4)) then some (mp, word_at byte (mp + 4)) else none)
  ]

-- The variables of the file; `bootcpu` is an index of `cpus`, and `started` the one whose status is
-- set.
pub record Cpus : Type 0 where
  pub cpu_id : ℕ → ℕ
  pub ncpu : ℕ
  pub bootcpu : ℕ
  pub ismp : Bool
  pub lapicaddr : ℕ
  pub started : Option ℕ

-- The processor at `p`.
unfoldable pub add_cpu : Bytes → (p : ℕ) → Cpus → Cpus
add_cpu byte p s =
    let boot = if bit_and (byte (p + 3)) 2 == 0 then s.bootcpu else s.ncpu in
    if ltb s.ncpu ncpu_max
    then record s { bootcpu = boot; cpu_id = update s.cpu_id s.ncpu s.ncpu; ncpu = s.ncpu + 1 }
    else record s { bootcpu = boot }

-- The loop over the entries, `n` of which are left.
unfoldable pub add_entries : (n : ℕ) → Bytes → (p : ℕ) → Cpus → Cpus
add_entries zero byte p s = s
add_entries (suc n) byte p s =
    let cpu = add_entries n byte (p + 20) (add_cpu byte p s) in
    let other = add_entries n byte (p + 8) s in
    if byte p == 0 then cpu else (if leb (byte p) 4 then other else record s { ismp = false })

-- Behind the loop: without an accepted table, one processor is left.
unfoldable pub finish : Cpus → Cpus
finish s =
    if s.ismp
    then record s { started = some s.bootcpu }
    else record s { started = some s.bootcpu; ncpu = 1; lapicaddr = 0 }

-- `mp_init` with the tables that were found. The second result tells whether the interrupts are
-- switched to the local APIC, by `outb`.
unfoldable pub with_tables : Bytes → Cpus → Option (ℕ × ℕ) → Cpus × Bool
with_tables byte s none = (record s { bootcpu = 0 }, false)
with_tables byte s (some (mp, conf)) =
    let t = finish (
      add_entries (half_at byte (conf + 34)) byte (conf + 44)
        (record s { bootcpu = 0; ismp = true; lapicaddr = word_at byte (conf + 36) })) in
    (t, t.ismp && not (byte (mp + 12) == 0))

unfoldable pub mp_init : Bytes → Cpus → Cmd (Cpus × Bool)
mp_init byte s = do found ← mpconfig byte; pure (with_tables byte s found)
