-- ===== src/Kern/Vm/UserMem.antt =====
-- `user_mem_check` against the permissions of every address of the range.
use sisotp.Base.{
  ℕ, zero, suc, ◌+◌, ◌-◌, ◌%◌, ◌^◌, ◌≤◌, ◌<◌, ◌≡◌, inl, inr, refl, Bool, true, false, Option, none,
  some, arith, leb, ltb, ◌==◌, Bool-cases, bit_and,
}
use sisotp.Kern.Mmu.{ulim}
use sisotp.Kern.State.{Kernel, Ret, value, error, e_fault}
use sisotp.Kern.Monad.{Run, ok}
use sisotp.Kern.Vm.{user_mem_check, check_range, check_address, fail_at}
use sisotp.Kern.Vm.Tree.{translate, in_table}
use sisotp.Kern.Vm.Walk.{IsWalkable, page_lookup-translate}

-- The address is mapped, by a word that has all the bits of `perm`.
abbrev grants : ℕ → Option ℕ → Bool
grants perm none = false
grants perm (some pte) = bit_and pte perm == perm

pub allows : Kernel → (pgdir perm va : ℕ) → Bool
allows k pgdir perm va = grants perm (translate k.mem pgdir va)

check_address-allows :
    (k : Kernel) (pgdir va perm : ℕ)
    → IsWalkable k pgdir va
    → check_address pgdir va perm k ≡ ok (allows k pgdir perm va) k
unfolding check_address allows translate in_table
check_address-allows k pgdir va perm w = rw (page_lookup-translate k pgdir va w) (ground arith)

-- What the check says of the addresses from `va` up to `end`: all are allowed, and nothing changes;
-- or `bad` is the first that is not, and it is recorded.
pub data Verdict (k : Kernel) (pgdir perm va end : ℕ) : Run Ret → Type 0 where
  passes :
      ((a : ℕ) → va ≤ a → a < end → allows k pgdir perm a ≡ true)
      → Verdict k pgdir perm va end (ok (value 0) k)
  fails :
      (bad : ℕ)
      → va ≤ bad
      → bad < end
      → allows k pgdir perm bad ≡ false
      → ((a : ℕ) → va ≤ a → a < bad → allows k pgdir perm a ≡ true)
      → Verdict k pgdir perm va end (ok (error e_fault) (record k { user_mem_check_addr = bad }))

from_next :
    {k : Kernel} {pgdir perm end : ℕ} {r : Run Ret} (va : ℕ)
    → va < end
    → allows k pgdir perm va ≡ true
    → Verdict k pgdir perm (va + 1) end r
    → Verdict k pgdir perm va end r
from_next va lt here (passes all) = passes λ a h b. ground (arith, all a)
from_next va lt here (fails bad l u no_ all) =
    fails bad (omega arith) u no_ λ a h b. ground (arith, all a)

check_range-Verdict :
    (k : Kernel) (pgdir perm end rounds va : ℕ)
    → va + rounds ≡ end
    → ((a : ℕ) → va ≤ a → a < end → IsWalkable k pgdir a)
    → Verdict k pgdir perm va end (check_range pgdir rounds va perm k)
unfolding check_range fail_at
check_range-Verdict k pgdir perm end zero va e w = passes λ a h b. absurd (omega arith)
check_range-Verdict k pgdir perm end (suc rounds) va e w =
    rw (check_address-allows k pgdir va perm (w va (omega arith) (omega arith)))
      (elim (Bool-cases (allows k pgdir perm va)) [
        | inl y ↦ rw y (
            from_next va (omega arith) y (
              check_range-Verdict k pgdir perm end rounds (va + 1) (omega arith)
                (λ a h b. w a (omega arith) b)))
        | inr n ↦ rw n (fails va (omega arith) (omega arith) n (λ a h b. absurd (omega arith)))
      ])

in_range :
    (k : Kernel) (env va len perm pgdir : ℕ)
    → (k.envs env).env_pgdir ≡ some pgdir
    → va + len < ulim
    → user_mem_check env va len perm k ≡ check_range pgdir len va perm k
unfolding user_mem_check
in_range k env va len perm pgdir e h =
    let whole : (va + len) % 2 ^ 32 ≡ va + len = omega arith in
    let start : leb ulim va ≡ false = ground arith in
    let reach : leb ulim (va + len) ≡ false = ground arith in
    let order : ltb (va + len) va ≡ false = ground arith in
    let count : va + len - va ≡ len = omega arith in rw (whole, start, reach, order, e, count)

pub user_mem_check-Verdict :
    (k : Kernel) (env va len perm pgdir : ℕ)
    → (k.envs env).env_pgdir ≡ some pgdir
    → va < 2 ^ 32
    → len < 2 ^ 32
    → ((a : ℕ) → va ≤ a → a < va + len → a < ulim → IsWalkable k pgdir a)
    → (ulim ≤ va
        → user_mem_check env va len perm k
          ≡ ok (error e_fault) (record k { user_mem_check_addr = va }))
      × (va < ulim
          → ulim ≤ va + len
          → user_mem_check env va len perm k
            ≡ ok (error e_fault) (record k { user_mem_check_addr = ulim }))
      × (va + len < ulim → Verdict k pgdir perm va (va + len) (user_mem_check env va len perm k))
unfolding user_mem_check fail_at
user_mem_check-Verdict k env va len perm pgdir e v l w = (
  λ h. ground arith,
  λ h h'. ground arith,
  λ h.
      rw (in_range k env va len perm pgdir e h)
        (check_range-Verdict k pgdir perm (va + len) len va refl (λ a x y. w a x y (omega arith))),
)
