-- ===== src/Kern/Syscall/Cputs.antt =====
-- `sys_cputs` and the check of the memory that it prints.
use sisotp.Base.{
  ℕ, ◌+◌, ◌^◌, ◌≤◌, ◌<◌, ◌≡◌, refl, sym, ◌∙◌, Bool, true, false, Option, none, some, ◌∷◌, arith, ap,
  leb, bit_or, Bool-cases, Option-cases, ==-refl, inl, inr,
}
use sisotp.Kern.Mmu.{ulim, pte_u}
use sisotp.Kern.State.{Kernel, Ret, value, error, e_fault, env_running, nenv}
use sisotp.Kern.Monad.{modify, Cmd, Run, ok, stop, and_then, ◌>>◌}
use sisotp.Kern.Vm.{user_mem_check}
use sisotp.Kern.Vm.Walk.{IsWalkable}
use sisotp.Kern.Vm.UserMem.{allows, Verdict, passes, fails, user_mem_check-Verdict}
use sisotp.Kern.Env.{has_status}
use sisotp.Kern.Sched.{
  release_current, load_cr3, unlock_kernel, env_run, env_pop_tf, sched_halt, rerun_or_halt,
  sched_yield, find_runnable, first_pos,
}
use sisotp.Kern.Exit.{env_destroy, free_env, user_mem_assert}
use sisotp.Libc.Strings.{Bytes}
use sisotp.Kern.Syscall.{sys_cputs}
use sisotp.Kern.Syscall.Printed.{cputs_text, Same, cputs_text-Same}

-- The run does not come back.
abbrev ends : {A : Type 0} → Run A → Bool
ends (ok a k) = false
ends (stop s k) = true

and_then-ends :
    {A B : Type 0} (r : Run A) (f : A → Cmd B)
    → ((a : A) (k : Kernel) → ends (f a k) ≡ true)
    → ends (and_then r f) ≡ true
and_then-ends (ok a k) f h = h a k
and_then-ends (stop s k) f h = refl

env_run-ends : (e : ℕ) (k : Kernel) → ends (env_run {A = Unit {0}} e k) ≡ true
unfolding env_run release_current load_cr3 unlock_kernel env_pop_tf
env_run-ends e k = ground arith

sched_halt-ends : (k : Kernel) → ends (sched_halt {A = Unit {0}} k) ≡ true
unfolding sched_halt load_cr3 unlock_kernel
sched_halt-ends k = ground arith

rerun_or_halt-ends : (o : Option ℕ) (k : Kernel) → ends (rerun_or_halt {A = Unit {0}} o k) ≡ true
unfolding rerun_or_halt
rerun_or_halt-ends none k = sched_halt-ends k
rerun_or_halt-ends (some c) k = ground (arith, env_run-ends c k, sched_halt-ends k)

sched_yield-ends : (k : Kernel) → ends (sched_yield {A = Unit {0}} k) ≡ true
unfolding sched_yield
sched_yield-ends k = elim (Option-cases (find_runnable k.envs nenv (first_pos k.curenv))) [
  | inl n ↦ rw n (rerun_or_halt-ends k.curenv k)
  | inr (e, y) ↦ rw y (env_run-ends e k)
]

env_destroy-ends : (c : ℕ) (k : Kernel) → k.curenv ≡ some c → ends (env_destroy c k) ≡ true
unfolding env_destroy
env_destroy-ends c k q =
    let last =
      and_then-ends (free_env c (record k { curenv = some c }))
        (λ _. modify (λ m. record m { curenv = none }) >> sched_yield {A = Unit {0}})
        (λ _ m. sched_yield-ends (record m { curenv = none })) in
    elim (Bool-cases (has_status env_running (k.envs c))) [
      | inl y ↦ rw (q, ==-refl c, y) last
      | inr n ↦ rw (q, ==-refl c, n) last
    ]

asserted_first :
    (c s len : ℕ) (k : Kernel)
    → k.curenv ≡ some c
    → sys_cputs s len k
      ≡ and_then
          (user_mem_assert c s len 0 k)
          (λ _. modify (λ m. record m { printed = (s, len) ∷ m.printed }))
unfolding sys_cputs
asserted_first c s len k q = simp q

assert_refused :
    (c s len : ℕ) (k k₁ : Kernel)
    → user_mem_check c s len (bit_or 0 pte_u) k ≡ ok (error e_fault) k₁
    → user_mem_assert c s len 0 k ≡ env_destroy c k₁
unfolding user_mem_assert
assert_refused c s len k k₁ e = rw e refl

assert_accepted :
    (c s len : ℕ) (k : Kernel)
    → user_mem_check c s len (bit_or 0 pte_u) k ≡ ok (value 0) k
    → user_mem_assert c s len 0 k ≡ ok tt k
unfolding user_mem_assert
assert_accepted c s len k e = rw e refl

ends_on : {A B : Type 0} (r : Run A) (f : A → Cmd B) → ends r ≡ true → ends (and_then r f) ≡ true
ends_on (ok a k) f h = cc
ends_on (stop s k) f h = refl

refused :
    (c s len : ℕ) (k k₁ : Kernel)
    → k.curenv ≡ some c
    → user_mem_check c s len (bit_or 0 pte_u) k ≡ ok (error e_fault) k₁
    → k₁.curenv ≡ some c
    → ends (sys_cputs s len k) ≡ true
refused c s len k k₁ q e q₁ =
    rw (asserted_first c s len k q, assert_refused c s len k k₁ e)
      (ends_on (env_destroy c k₁) _ (env_destroy-ends c k₁ q₁))

accepted :
    (c s len : ℕ) (k : Kernel)
    → k.curenv ≡ some c
    → user_mem_check c s len (bit_or 0 pte_u) k ≡ ok (value 0) k
    → sys_cputs s len k ≡ ok tt (record k { printed = (s, len) ∷ k.printed })
accepted c s len k q e = rw (asserted_first c s len k q, assert_accepted c s len k e) refl

returned : {A : Type 0} {a : A} {r : Run A} {k : Kernel} → r ≡ ok a k → ends r ≡ true → ⊥
returned e h = cc

abbrev left : Run (Unit {0}) → Kernel → Kernel
left (ok a k) other = k
left (stop s k) other = other

by-Verdict :
    (c s len pgdir : ℕ) (k k' : Kernel) {r : Run Ret}
    → k.curenv ≡ some c
    → sys_cputs s len k ≡ ok tt k'
    → Verdict k pgdir (bit_or 0 pte_u) s (s + len) r
    → user_mem_check c s len (bit_or 0 pte_u) k ≡ r
    → ((a : ℕ) → s ≤ a → a < s + len → allows k pgdir pte_u a ≡ true)
      × (k' ≡ record k { printed = (s, len) ∷ k.printed })
by-Verdict c s len pgdir k k' q e (passes all) v =
    (all, ap (λ r. left r k) (sym e ∙ accepted c s len k q v))
by-Verdict c s len pgdir k k' q e (fails bad l u no_ before) v =
    absurd (returned e (refused c s len k _ q v q))

-- A call of `sys_cputs` that comes back, of a 32-bit range in which every address below ULIM is
-- walkable: the range lies below ULIM and each of its addresses is mapped for the user, and nothing
-- changes but that `cprintf("%.*s", len, s)` is called. If `len` is below 2 ^ 31, an int that is not
-- negative, then this prints at most `len` characters, and the same ones for any two memories that
-- agree on what the user may read.
pub sys_cputs-allowed :
    (c s len pgdir : ℕ) (k k' : Kernel)
    → k.curenv ≡ some c
    → (k.envs c).env_pgdir ≡ some pgdir
    → s < 2 ^ 32
    → len < 2 ^ 32
    → ((a : ℕ) → s ≤ a → a < s + len → a < ulim → IsWalkable k pgdir a)
    → sys_cputs s len k ≡ ok tt k'
    → (s + len < ulim)
      × ((a : ℕ) → s ≤ a → a < s + len → allows k pgdir pte_u a ≡ true)
      × (k' ≡ record k { printed = (s, len) ∷ k.printed })
      × (len < 2 ^ 31
          → (fuel : ℕ) (byte byte' : Bytes) → len < fuel
          → ((a : ℕ) → allows k pgdir pte_u a ≡ true → byte a ≡ byte' a)
          → Same len (cputs_text fuel byte s len) (cputs_text fuel byte' s len))
sys_cputs-allowed c s len pgdir k k' q d u v w e =
    let check = user_mem_check-Verdict k c s len (bit_or 0 pte_u) pgdir d u v w in
    elim (Bool-cases (leb ulim s)) [
      | inl y ↦ absurd (returned e (refused c s len k _ q (check.0 (ground arith)) q))
      | inr n ↦ elim (Bool-cases (leb ulim (s + len))) [
        | inl y ↦
            absurd (returned e (refused c s len k _ q (check.1 (ground arith) (ground arith)) q))
        | inr m ↦
            let below : s + len < ulim = ground arith in
            let (all, same) = by-Verdict c s len pgdir k k' q e (check.2 below) refl in
            (
              below,
              all,
              same,
              λ small fuel byte byte' l agree.
                  cputs_text-Same fuel byte byte' s len small l (λ a x y. agree a (all a x y)),
            )
      ]
    ]
