-- ===== src/Kern/Mmu/Entry.antt =====
-- The fields of an entry that is put together by `|`, and of an address, as arithmetic.
use sisotp.Base.{
  ℕ, ◌+◌, ◌*◌, ◌/◌, ◌%◌, ◌^◌, ◌<◌, ◌≡◌, true, ◌==◌, arith, bit_or, bit_and-one, bit_and-low_mask,
  bit_and-div, bit_and-zero, bit_or-div, bit_and-mod, bit_or-zero, bit_or-lowest,
}
use sisotp.Kern.Mmu.{pgsize, pte_p, pgnum, pdx, ptx, pte_addr, flag}

pub pdx_lem : (la : ℕ) → pdx la ≡ la / 2 ^ 22 % 1024
unfolding pdx
pdx_lem la = bit_and-low_mask 10 (la / 2 ^ 22)

pub ptx_lem : (la : ℕ) → ptx la ≡ la / 2 ^ 12 % 1024
unfolding ptx
ptx_lem la = bit_and-low_mask 10 (la / 2 ^ 12)

-- The entry that maps page `pp` with permissions `perm`: its page number, and its present bit.
pub pgnum-entry :
    (pp perm : ℕ) → perm < pgsize → pgnum (bit_or (bit_or (pp * 2 ^ 12) perm) pte_p) ≡ pp
unfolding pgnum
pgnum-entry pp perm h =
    let low : perm / 2 ^ 12 ≡ 0 = omega arith in
    let high : pp * 2 ^ 12 / 2 ^ 12 ≡ pp = omega arith in
    rw (
      bit_or-div 12 (bit_or (pp * 2 ^ 12) perm) pte_p,
      bit_or-div 12 (pp * 2 ^ 12) perm,
      low,
      high,
      bit_or-zero pp,
      bit_or-zero pp,
    )

pub odd-flag_p : (word : ℕ) → flag word pte_p ≡ (word % 2 == 1)
unfolding flag
odd-flag_p word = rw (bit_and-one word) (ground arith)

pub odd-entry : (word : ℕ) → bit_or word pte_p % 2 ≡ 1
odd-entry word = omega (arith, bit_or-lowest word 1)

pub flag_p-entry : (word : ℕ) → flag (bit_or word pte_p) pte_p ≡ true
flag_p-entry word = rw (odd-flag_p (bit_or word pte_p), odd-entry word)

pub pte_addr_lem : (pte : ℕ) → pte < 2 ^ 32 → pte_addr pte ≡ pgnum pte * 2 ^ 12
unfolding pte_addr pgnum
pte_addr_lem pte h = omega (
  arith,
  bit_and-div 12 pte 0xFFFFF000,
  bit_and-low_mask 20 (pte / 2 ^ 12),
  bit_and-mod 12 pte 0xFFFFF000,
  bit_and-zero (pte % 2 ^ 12),
)

pub pgnum-pte_addr : (pte : ℕ) → pte < 2 ^ 32 → pgnum (pte_addr pte) ≡ pgnum pte
unfolding pgnum
pgnum-pte_addr pte h = rw (pte_addr_lem pte h) (omega arith)

-- The two indices and the page number of an address determine each other.
pub pgnum-fields : (va : ℕ) → va < 2 ^ 32 → pgnum va ≡ pdx va * 1024 + ptx va
unfolding pgnum
pgnum-fields va h = omega (arith, pdx_lem va, ptx_lem va)
