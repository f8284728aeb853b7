-- ===== src/Libc/Examples/Lines.antt =====
-- A line from the console: "ab", a backspace, a delete that empties the line, "c" and its end.
use sisotp.Base.{ℕ, ◌≡◌, ◌≤◌, arith, refl, List, [], ◌∷◌, Option, some, true, All}
use sisotp.Libc.Readline.{readline}
use sisotp.Libc.Readline.Edited.{Outcome, edited, readline-Outcome}

abbrev keys : List (Option ℕ)
keys = some 97 ∷ some 98 ∷ some 8 ∷ some 127 ∷ some 99 ∷ some 13 ∷ some 100 ∷ []

readline-Outcome_example :
    Outcome (λ i. 7) [] keys (readline true (λ i. 7) keys) × All (λ x. 32 ≤ x) (edited [] keys)
readline-Outcome_example = readline-Outcome true (λ i. 7) keys (omega arith)

-- The line is "c".
one_left : edited [] keys ≡ 99 ∷ []
unfolding edited
one_left = refl
