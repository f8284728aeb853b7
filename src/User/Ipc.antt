-- ===== src/User/Ipc.antt =====
-- jos/lib/ipc.c: the wrappers of the two system calls for messages. Other environments run while a call
-- waits, so what the calls return, one after the other, and the environment as it is then are given.
use sisotp.Base.{ℕ, zero, suc, ◌+◌, List, [], ◌∷◌, Bool, false, not, ◌==◌, if◌then◌else◌}
use sisotp.Kern.Mmu.{utop}
use sisotp.Kern.State.{Env, Ret, value, error, e_ipc_not_recv, code, word, nenv}

-- The address for a page that is asked for or sent: UTOP for none.
abbrev pub page_va : ℕ → ℕ
page_va pg = if pg == 0 then utop else pg

-- The result, as the word in a register, and what goes to `*from_env_store` and `*perm_store`, if
-- these are not NULL.
pub record Received : Type 0 where
  pub result : ℕ
  pub from_env : ℕ
  pub perm : ℕ

-- `sys_ipc_recv` is the result of the call with an address.
unfoldable pub ipc_recv : (sys_ipc_recv : ℕ → Ret) → (thisenv : Env) → (pg : ℕ) → Received
ipc_recv sys_ipc_recv thisenv pg =
    let errcode = word (sys_ipc_recv (page_va pg)) in
    if not (errcode == 0) then record { result = errcode; from_env = 0; perm = 0 } else record {
      result = thisenv.env_ipc_value;
      from_env = thisenv.env_ipc_from;
      perm = thisenv.env_ipc_perm;
    }

pub data Sending : Type 0 where
  -- after so many calls of `sys_yield`
  sent failed trying : (yields : ℕ) → Sending

abbrev pub not_receiving : Ret → Bool
not_receiving (value n) = false
not_receiving (error e) = code e == code e_ipc_not_recv

-- The loop of `ipc_send`, on the results of `sys_ipc_try_send(to_env, val, page_va(pg), perm)`.
unfoldable pub ipc_send : (results : List Ret) → (yields : ℕ) → Sending
ipc_send [] yields = trying yields
ipc_send (r ∷ results) yields =
    let again = ipc_send results (yields + 1) in
    if not_receiving r then again else (if word r == 0 then sent yields else failed yields)

-- The loop of `ipc_find_env`, on the environments left.
unfoldable pub find_env : (n : ℕ) → (ℕ → Env) → (type i : ℕ) → ℕ
find_env zero envs type i = 0
find_env (suc n) envs type i =
    let rest = find_env n envs type (i + 1) in
    if (envs i).env_type == type then (envs i).env_id else rest

unfoldable pub ipc_find_env : (ℕ → Env) → (type : ℕ) → ℕ
ipc_find_env envs type = find_env nenv envs type 0
