-- ===== src/Libc/Examples/Format.antt =====
-- The format "%d" at 16 of a memory that is 0 otherwise, with the argument 7.
use sisotp.Base.{
  ℕ, ◌+◌, ◌≤◌, ◌<◌, ◌≡◌, ◌≢◌, ◌⊎◌, inl, inr, refl, [], ◌∷◌, ◌%◌, ◌-◌, some, arith, Bool-cases, ◌==◌,
  ◌||◌, if◌then◌else◌, min, get_or,
}
use sisotp.Libc.Strings.{Bytes}
use sisotp.Libc.Numbers.{printnum}
use sisotp.Libc.Format.Args.{done, no_fuel, getint}
use sisotp.Libc.Format.Scan.{scan}
use sisotp.Libc.Format.Convert.{convert, put_decimal}
use sisotp.Libc.Format.{escape, vprintfmt, vsnprintf}
use sisotp.Libc.Format.Ends.{EndWithin, vprintfmt-ends}
use sisotp.Libc.Format.Buffer.{vsnprintf-IsBounded}

abbrev pub decimal : Bytes
decimal a = if a == 16 then 37 else (if a == 17 then 100 else 0)

decimal-EndWithin : EndWithin decimal 6
unfolding EndWithin
decimal-EndWithin p = elim (Bool-cases (p == 16 || p == 17)) [
  | inl t ↦ (18, ground arith, ground arith, refl)
  | inr t ↦ (p, omega arith, omega arith, ground arith)
]

vprintfmt-ends_example : vprintfmt 12 decimal 16 (7 ∷ []) ≢ no_fuel
vprintfmt-ends_example =
    vprintfmt-ends 12 decimal 18 16 6 (7 ∷ []) refl (omega arith) decimal-EndWithin (omega arith)
      (omega arith)

pub decimal_seven : vprintfmt 12 decimal 16 (7 ∷ []) ≡ done (55 ∷ [])
unfolding vprintfmt escape scan convert put_decimal getint printnum
decimal_seven = refl

-- Into a buffer of one byte, which holds the byte 0 alone.
vsnprintf-IsBounded_example :
    (m' : Bytes) × (vsnprintf 12 decimal 64 1 16 (7 ∷ []) ≡ done (some (m', 1)))
    × ((a : ℕ) → (a < 64) ⊎ (64 + 1 ≤ a) → m' a ≡ decimal a)
    × ((i : ℕ) → i < 1 → i < 1 - 1 → m' (64 + i) ≡ get_or (55 ∷ []) i 0 % 256)
    × (m' (64 + min 1 (1 - 1)) ≡ 0)
vsnprintf-IsBounded_example =
    vsnprintf-IsBounded 12 decimal 64 1 16 (7 ∷ []) (55 ∷ []) (omega arith) (omega arith)
      decimal_seven
