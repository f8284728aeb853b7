-- ===== src/Kern/Env/Init.antt =====
-- jos/kern/env.c: `env_init` makes the list of free environments.
use sisotp.Base.{
  ℕ, suc, zero, ◌+◌, ◌-◌, ◌≤◌, ◌<◌, ◌≡◌, ◌⊎◌, inl, inr, refl, some, arith, ltb, Bool-cases, ◌==◌,
  ◌∙◌, if◌then◌else◌, update, update_ne,
}
use sisotp.Kern.State.{Env, env_free, Kernel, nenv}
use sisotp.Kern.Monad.{ok, ◌>>◌, change_env, modify}
use sisotp.Kern.Env.{env_init_loop, env_init}

abbrev initial : (j : ℕ) → Env → Env
initial j e = record e { env_status = env_free; env_id = 0; env_link = some (j + 1) }

abbrev with_envs : Kernel → (ℕ → Env) → Kernel
with_envs k f = record k { envs = f }

le-cases : (i j : ℕ) → i ≤ j → (i ≡ j) ⊎ (i + 1 ≤ j)
le-cases i j h = elim (Bool-cases (i == j)) [
  | inl e ↦ inl (ground arith)
  | inr e ↦ inr (ground arith)
]

record Looped (rounds i : ℕ) (before after : ℕ → Env) : Type 0 where
  inside : (j : ℕ) → i ≤ j → j < i + rounds → after j ≡ initial j (before j)
  outside : (j : ℕ) → (j < i) ⊎ (i + rounds ≤ j) → after j ≡ before j

Looped-suc :
    (rounds i : ℕ) (g f : ℕ → Env)
    → Looped rounds (i + 1) (update g i (initial i (g i))) f
    → Looped (suc rounds) i g f
Looped-suc rounds i g f l = record {
  inside = λ j a b. elim (le-cases i j a) [
    | inl e ↦ l.outside j (inl (omega arith)) ∙ ground arith
    | inr n ↦ l.inside j n (omega arith) ∙ ground arith
  ];
  outside = λ j h. elim h [
    | inl a ↦ l.outside j (inl (omega arith)) ∙ ground arith
    | inr a ↦ l.outside j (inr (omega arith)) ∙ ground arith
  ];
}

env_init_loop_lem :
    (rounds i : ℕ) (k : Kernel)
    → (f : ℕ → Env) × (env_init_loop rounds i k ≡ ok tt (with_envs k f)) × Looped rounds i k.envs f
unfolding env_init_loop
env_init_loop_lem zero i k =
    (k.envs, refl, record { inside = λ j a b. absurd (omega arith); outside = λ j h. refl })
env_init_loop_lem (suc rounds) i k =
    let (f, e, l) =
      env_init_loop_lem rounds (i + 1) (with_envs k (update k.envs i (initial i (k.envs i)))) in
    (f, e, Looped-suc rounds i k.envs f l)

-- An environment on the list right after the start: free, with the identifier 0 and linked to the
-- next one, but for the last, whose link the loop leaves as it was.
pub record IsInitial (k k' : Kernel) (j : ℕ) : Type 0 where
  free : (k'.envs j).env_status ≡ env_free
  unnamed : (k'.envs j).env_id ≡ 0
  linked : (k'.envs j).env_link ≡ (if ltb j (nenv - 1) then some (j + 1) else (k.envs j).env_link)

abbrev closed : (f : ℕ → Env) → ℕ → Env
closed f = update f (nenv - 1) (record (f (nenv - 1)) { env_status = env_free; env_id = 0 })

closed-IsInitial :
    (k k' : Kernel) (f : ℕ → Env)
    → Looped (nenv - 1) 0 k.envs f
    → k'.envs ≡ closed f
    → (j : ℕ) → j < nenv
    → IsInitial k k' j
closed-IsInitial k k' f l e j h = elim (le-cases j (nenv - 1) (omega arith)) [
  | inl p ↦
      (let o = l.outside j (inr (omega arith)) in
        record {
          free = rw e (ground arith);
          unnamed = rw e (ground arith);
          linked = rw e (ground (arith, o));
        })
  | inr p ↦
      (let o = l.inside j (omega arith) (omega arith) in
        record {
          free = rw e (ground (arith, o));
          unnamed = rw e (ground (arith, o));
          linked = rw e (ground (arith, o));
        })
]

closed-outside : (g f : ℕ → Env) → Looped (nenv - 1) 0 g f → (j : ℕ) → nenv ≤ j → closed f j ≡ g j
closed-outside g f l j h = update_ne f (nenv - 1) _ (omega arith) ∙ l.outside j (inr (omega arith))

after_loop :
    (rounds last : ℕ) (k : Kernel) (f : ℕ → Env)
    → env_init_loop rounds 0 k ≡ ok tt (with_envs k f)
    → (do
      env_init_loop rounds 0
      change_env last (λ e. record e { env_status = env_free; env_id = 0 })
      modify (λ k₁. record k₁ { env_free_list = some 0 }))
        k
      ≡ ok tt
          (record (with_envs k
            (update f last (record (f last) { env_status = env_free; env_id = 0 }))) {
              env_free_list = some 0;
            })
after_loop rounds last k f e = rw e

-- `env_init` terminates; all NENV environments are then free, without an identifier, and linked
-- in the order of the array from the head 0; the link of the last one is not written, and neither
-- is anything past the array.
env_init_lem :
    (k : Kernel)
    → (k' : Kernel) × (env_init k ≡ ok tt k')
      × (k'.env_free_list ≡ some 0)
      × ((j : ℕ) → j < nenv → IsInitial k k' j)
      × ((j : ℕ) → nenv ≤ j → k'.envs j ≡ k.envs j)
unfolding env_init
env_init_lem k =
    let (f, e, l) = env_init_loop_lem (nenv - 1) 0 k in
    (
      record (with_envs k (closed f)) { env_free_list = some 0 },
      after_loop (nenv - 1) (nenv - 1) k f e,
      refl,
      closed-IsInitial k (record (with_envs k (closed f)) { env_free_list = some 0 }) f l refl,
      closed-outside k.envs f l,
    )
