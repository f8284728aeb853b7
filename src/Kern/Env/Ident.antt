-- ===== src/Kern/Env/Ident.antt =====
-- Environment identifiers: how one follows another in a slot, and what `envid2env` makes of them.
use sisotp.Base.{
  ℕ, ◌+◌, ◌-◌, ◌*◌, ◌/◌, ◌%◌, ◌^◌, ◌<◌, ◌≡◌, ◌≢◌, ◌⊎◌, inr, Bool, false, none, some, arith, leb,
  if◌then◌else◌, bit_and, bit_or, bit_and-div, bit_and-mod, bit_and-low_mask, bit_and-zero,
  bit_or-div, bit_or-mod, bit_or-zero, bit_or-zero_left,
}
use sisotp.Kern.State.{env_free, Kernel, value, error, e_bad_env, nenv}
use sisotp.Kern.Monad.{ok}
use sisotp.Kern.Env.{has_status, envx, envid2env, check_parent, next_env_id}

pub envx_lem : (envid : ℕ) → envx envid ≡ envid % 1024
unfolding envx
envx_lem envid = bit_and-low_mask 10 envid

fields : (q e : ℕ) → e < 1024 → bit_or (q * 1024) e ≡ q * 1024 + e
fields q e h =
    let high : q * 1024 / 2 ^ 10 ≡ q = omega arith in
    let low : q * 1024 % 2 ^ 10 ≡ 0 = omega arith in
    let none_ : e / 2 ^ 10 ≡ 0 = omega arith in
    let all : e % 2 ^ 10 ≡ e = omega arith in
    let d : bit_or (q * 1024) e / 2 ^ 10 ≡ q =
      rw (bit_or-div 10 (q * 1024) e, high, none_) (bit_or-zero q) in
    let m : bit_or (q * 1024) e % 2 ^ 10 ≡ e =
      rw (bit_or-mod 10 (q * 1024) e, low, all) (bit_or-zero_left e) in
    omega arith

generation_lem : (x : ℕ) → x < 2 ^ 32 → bit_and x (2 ^ 32 - nenv) ≡ x / 1024 * 1024
generation_lem x h = omega (
  arith,
  bit_and-div 10 x (2 ^ 32 - 1024),
  bit_and-low_mask 22 (x / 2 ^ 10),
  bit_and-mod 10 x (2 ^ 32 - 1024),
  bit_and-zero (x % 2 ^ 10),
)

-- In closed form: the generation goes up by 4096 until it would reach 2 ^ 31, and starts again.
next_env_id_lem :
    (id e : ℕ)
    → id < 2 ^ 31
    → e < 1024
    → next_env_id id e
      ≡ (if leb (2 ^ 31) (id + 4096) then 4096 + e else (id + 4096) / 1024 * 1024 + e)
unfolding next_env_id
next_env_id_lem id e h b =
    let g = generation_lem (id + 4096) (omega arith) in
    let w : (id + 4096) % 2 ^ 32 ≡ id + 4096 = omega arith in
    rw (w, g) (ground (arith, fields ((id + 4096) / 1024) e, fields 4 e))

-- The identifier that `env_alloc` gives to slot `e`, which had no identifier or one of its own
-- below 2 ^ 31, is a positive int32_t whose index part is `e`, and it is not the one that the
-- slot had before.
pub next_env_id_fresh :
    (id e : ℕ)
    → id < 2 ^ 31
    → e < 1024
    → (id ≡ 0) ⊎ (envx id ≡ e)
    → (0 < next_env_id id e)
      × (next_env_id id e < 2 ^ 31)
      × (envx (next_env_id id e) ≡ e)
      × (next_env_id id e ≢ id)
next_env_id_fresh id e h b s =
    ground (arith, next_env_id_lem id e, envx_lem id, envx_lem (next_env_id id e))

-- Where an identifier leads: to a slot in use that has this identifier, of the current environment
-- `c` or of a child of it if permission is asked for.
abbrev pub Reachable : Kernel → (c envid : ℕ) → (checkperm : Bool) → Type 0
Reachable k c envid checkperm =
    (has_status env_free (k.envs (envx envid)) ≡ false)
    × ((k.envs (envx envid)).env_id ≡ envid)
    × ((checkperm ≡ false)
        ⊎ (envx envid ≡ c)
        ⊎ ((k.envs (envx envid)).env_parent_id ≡ (k.envs c).env_id))

-- With a current environment, `envid2env` never changes the state. It takes 0 for the current
-- environment, finds the slot of an identifier that is reachable, and answers any other with
-- -E_BAD_ENV and NULL.
pub envid2env_lem :
    (k : Kernel) (c envid : ℕ) (checkperm : Bool)
    → k.curenv ≡ some c
    → (envid ≡ 0 → envid2env envid checkperm k ≡ ok (value 0, some c) k)
      × (envid ≢ 0
          → Reachable k c envid checkperm
          → envid2env envid checkperm k ≡ ok (value 0, some (envx envid)) k)
      × (envid ≢ 0
          → ¬ Reachable k c envid checkperm
          → envid2env envid checkperm k ≡ ok (error e_bad_env, none) k)
unfolding envid2env check_parent
envid2env_lem k c envid checkperm e = (λ z. ground arith, λ n r. ground arith, λ n r. ground arith)

-- Once a slot has been given the identifier that follows a positive identifier of that slot, the
-- old one is refused.
envid2env_stale :
    (k : Kernel) (e old : ℕ) (checkperm : Bool)
    → e < 1024
    → 0 < old
    → old < 2 ^ 31
    → envx old ≡ e
    → (k.envs e).env_id ≡ next_env_id old e
    → envid2env old checkperm k ≡ ok (error e_bad_env, none) k
unfolding envid2env
envid2env_stale k e old checkperm b z h x r = ground (arith, next_env_id_fresh old e h b (inr x))
