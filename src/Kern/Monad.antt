-- ===== src/Kern/Monad.antt =====
-- Kernel code as a function of the state. It returns, or it stops for good: at a panic, at an
-- access through NULL, by a return to user mode (`env_pop_tf`), by a halt, or in the monitor.
use sisotp.Base.{ℕ, Bool, Option, none, some, update}
use sisotp.Kern.State.{PageInfo, Env, Kernel}

pub data Stop : Type 0 where
  panic null_access halted monitor : Stop
  user : ℕ → Stop

pub data Run (A : Type 0) : Type 0 where
  ok : A → Kernel → Run A
  stop : Stop → Kernel → Run A

abbrev pub Cmd : Type 0 → Type 0
Cmd A = Kernel → Run A

abbrev pub pure : {A : Type 0} → A → Cmd A
pure = ok

abbrev pub halt_with : {A : Type 0} → Stop → Cmd A
halt_with = stop

module _ {A B : Type 0} where
  abbrev pub and_then : Run A → (A → Cmd B) → Run B
  and_then (ok a k) f = f a k
  and_then (stop s k) f = stop s k

  infixl 5 ◌>>=◌ ◌>>◌
  abbrev pub ◌>>=◌ : Cmd A → (A → Cmd B) → Cmd B
  m >>= f = λ k. and_then (m k) f

  abbrev pub ◌>>◌ : Cmd A → Cmd B → Cmd B
  m >> n = m >>= λ _. n

abbrev pub get : {A : Type 0} → (Kernel → A) → Cmd A
get f k = ok (f k) k

abbrev pub modify : (Kernel → Kernel) → Cmd (Unit {0})
modify f k = ok tt (f k)

-- `assert` and the tests that lead to `panic`.
abbrev pub assert : Bool → Cmd (Unit {0})
assert Bool.true = ok tt
assert Bool.false = stop panic

-- A pointer that the code follows without a test.
abbrev pub deref : {A : Type 0} → Option A → Cmd A
deref none = stop null_access
deref (some a) = ok a

abbrev pub change_page : ℕ → (PageInfo → PageInfo) → Cmd (Unit {0})
change_page p f k = ok tt (record k { pages = update k.pages p (f (k.pages p)) })

abbrev pub change_env : ℕ → (Env → Env) → Cmd (Unit {0})
change_env e f k = ok tt (record k { envs = update k.envs e (f (k.envs e)) })

-- Words of physical memory, by page and index.
abbrev pub load : ℕ × ℕ → Cmd ℕ
load (page, i) k = ok (k.mem page i) k

abbrev pub store : ℕ × ℕ → ℕ → Cmd (Unit {0})
store (page, i) v k = ok tt (record k { mem = update k.mem page (update (k.mem page) i v) })

-- `memset` of a whole page to 0, and `memcpy` of a whole page.
abbrev pub zero_page : ℕ → Cmd (Unit {0})
zero_page page k = ok tt (record k { mem = update k.mem page (λ _. 0) })

abbrev pub copy_page : ℕ → ℕ → Cmd (Unit {0})
copy_page to from k = ok tt (record k { mem = update k.mem to (k.mem from) })
