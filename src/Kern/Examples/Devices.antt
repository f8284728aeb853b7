-- ===== src/Kern/Examples/Devices.antt =====
-- A blank screen, a machine without multiprocessor tables, and a table of three symbols: functions at
-- 100 and 200, and a file between them.
use sisotp.Base.{
  codes, ℕ, ◌+◌, ◌-◌, ◌*◌, ◌≤◌, ◌<◌, ◌≡◌, ◌≢◌, refl, true, false, none, some, arith, ◌==◌,
  if◌then◌else◌, update, ltb, ◌&&◌, get_or, [], ◌∷◌,
}
use sisotp.Kern.Monad.{ok}
use sisotp.Kern.Examples.{machine}
use sisotp.Kern.Console.Screen.{Screen, cputs}
use sisotp.Kern.Console.Screen.Bounds.{IsOnScreen, cputs-IsOnScreen}
use sisotp.Kern.Trap.Gates.{LeadsTo, trap_init, user_may, trap_init-gates}
use sisotp.Kern.Mpconfig.{
  Cpus, sum, sum_from, mpsearch_from, mpsearch1, mpsearch, mpconfig, is_mpconf, with_tables,
  add_entries, add_cpu, finish, mp_init,
}
use sisotp.Kern.Mpconfig.Bounds.{AreNumbered, mp_init-AreNumbered}
use sisotp.Kern.Kdebug.{Stab, n_fun, n_so, has_type, value_at, stab_binsearch}
use sisotp.Kern.Kdebug.Search.{stab_binsearch-found}
use sisotp.Kern.Kdebug.Bracket.{IsEntry, IsSorted}
use sisotp.Kern.Kdebug.Sorted.{stab_binsearch-IsLast}

abbrev blank_screen : Screen
blank_screen = record { crt_buf = λ i. 0x0720; crt_pos = 1990; serial = []; parallel = [] }

cputs-IsOnScreen_example :
    IsOnScreen blank_screen (cputs (codes "a text over the end") blank_screen)
cputs-IsOnScreen_example =
    cputs-IsOnScreen (codes "a text over the end") blank_screen blank_screen
      (record { cursor = omega arith; outside = λ i l. refl })

abbrev stab : (type value : ℕ) → Stab
stab type value = record { n_strx = 0; n_type = type; n_other = 0; n_desc = 0; n_value = value }

abbrev symbols : ℕ → Stab
symbols i = if i == 0 then stab n_fun 100 else (if i == 1 then stab n_so 0 else stab n_fun 200)

stab_binsearch-found_example :
    (left' right' : ℕ) × (stab_binsearch symbols 8 1 3 n_fun 50 ≡ some (left', right'))
    × ((k : ℕ) → 1 ≤ k → k ≤ 3 → has_type symbols n_fun k ≡ true → left' ≤ right')
    × (((k : ℕ) → 1 ≤ k → k ≤ 3 → has_type symbols n_fun k ≡ false) → right' < left')
stab_binsearch-found_example =
    stab_binsearch-found 8 symbols 1 3 n_fun 50 (omega arith) (omega arith)

symbols-IsSorted : IsSorted symbols n_fun 1 3
unfolding has_type value_at
symbols-IsSorted j k p q l = ground (arith, p.from, q.to, p.to)

symbols_gap : (k : ℕ) → IsEntry symbols n_fun 1 3 k → value_at symbols k ≢ 151
unfolding has_type value_at
symbols_gap k p = ground (arith, p.from, p.to)

first-IsEntry : IsEntry symbols n_fun 1 3 1
unfolding has_type
first-IsEntry = record { from = omega arith; to = omega arith; typed = refl }

first_value : value_at symbols 1 ≤ 150
unfolding value_at
first_value = omega arith

stab_binsearch-IsLast_example :
    (left' right' : ℕ) × (stab_binsearch symbols 8 1 3 n_fun 150 ≡ some (left', right'))
    × IsEntry symbols n_fun 1 3 left'
    × (value_at symbols left' ≤ 150)
    × (left' ≤ right')
    × ((k : ℕ) → IsEntry symbols n_fun 1 3 k → value_at symbols k ≤ 150 → k ≤ left')
    × ((k : ℕ) → IsEntry symbols n_fun 1 3 k → 150 < value_at symbols k → right' < k)
stab_binsearch-IsLast_example =
    stab_binsearch-IsLast 8 symbols 1 3 n_fun 150 1 (omega arith) (omega arith) symbols-IsSorted
      (omega arith) symbols_gap first-IsEntry first_value

-- The floating pointer structure at 0x90000, which the BIOS data area names, and a table at 0x1000 with
-- one processor, that of the boot.
abbrev tables : ℕ → ℕ
tables a =
    if a == 0x40f
    then 0x90
    else (if ltb 0x8ffff a && ltb a 0x90010
        then get_or (95 ∷ 77 ∷ 80 ∷ 95 ∷ 0 ∷ 16 ∷ 0 ∷ 0 ∷ 1 ∷ 4 ∷ 144 ∷ []) (a - 0x90000) 0
        else (if ltb 0xfff a && ltb a 0x1010
            then get_or (80 ∷ 67 ∷ 77 ∷ 80 ∷ 64 ∷ 0 ∷ 4 ∷ 136 ∷ []) (a - 0x1000) 0
            else (if a == 0x1000 + 34 then 1 else (if a == 0x1000 + 47 then 3 else 0))))

abbrev no_cpus : Cpus
no_cpus = record {
  cpu_id = λ i. 0;
  ncpu = 0;
  bootcpu = 0;
  ismp = false;
  lapicaddr = 0;
  started = none;
}

abbrev one_cpu : Cpus
one_cpu = record {
  cpu_id = update (λ i. 0) 0 0;
  ncpu = 1;
  bootcpu = 0;
  ismp = true;
  lapicaddr = 0;
  started = some 0;
}

mp_init_returns : mp_init tables no_cpus machine ≡ ok (one_cpu, false) machine
unfolding mp_init mpconfig mpsearch mpsearch1 mpsearch_from sum sum_from is_mpconf with_tables
    add_entries add_cpu finish
mp_init_returns = refl

mp_init-AreNumbered_example : AreNumbered one_cpu × (one_cpu.ismp ≡ false → one_cpu.ncpu ≤ 1)
mp_init-AreNumbered_example =
    mp_init-AreNumbered tables no_cpus one_cpu false machine machine refl (λ i. refl)
      mp_init_returns

-- The entry points 16 bytes apart.
trap_init-gates_example :
    ((trap_init (λ v. 0xf0103000 + v * 16) 48).gd_p ≡ 1)
    × ((trap_init (λ v. 0xf0103000 + v * 16) 48).gd_p ≡ 1
        → LeadsTo 0xf0103300 (trap_init (λ v. 0xf0103000 + v * 16) 48))
    × (user_may (trap_init (λ v. 0xf0103000 + v * 16) 48) ≡ true)
trap_init-gates_example = trap_init-gates (λ v. 0xf0103000 + v * 16) 48
