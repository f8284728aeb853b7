-- ===== src/Libc/Format/Args.antt =====
-- jos/lib/printfmt.c: the arguments of a format. The argument list is the words that follow the
-- format on the i386 stack. Reading past its end is undefined in C: the model stops there with
-- `no_argument`.
use sisotp.Base.{
  ℕ, ◌+◌, ◌-◌, ◌*◌, ◌%◌, ◌^◌, List, [], ◌∷◌, Bool, true, false, ltb, leb, if◌then◌else◌, ℤ, pos,
  negsuc,
}

pub data Run (A : Type 0) : Type 0 where
  done : A → Run A
  no_argument no_fuel : Run A

module _ {A B : Type 0} where
  infixl 5 ◌>>=◌
  abbrev pub ◌>>=◌ : Run A → (A → Run B) → Run B
  done a >>= f = f a
  no_argument >>= f = no_argument
  no_fuel >>= f = no_fuel

-- `va_arg` of a type of one word and of two, the low word first.
abbrev pub word_arg : List ℕ → Run (ℕ × List ℕ)
word_arg [] = no_argument
word_arg (w ∷ ap) = done (w % 2 ^ 32, ap)

abbrev pub long_arg : List ℕ → Run (ℕ × List ℕ)
long_arg [] = no_argument
long_arg (low ∷ []) = no_argument
long_arg (low ∷ high ∷ ap) = done (high % 2 ^ 32 * 2 ^ 32 + low % 2 ^ 32, ap)

unfoldable pub getuint : List ℕ → (lflag : ℕ) → Run (ℕ × List ℕ)
getuint ap lflag = if leb 2 lflag then long_arg ap else word_arg ap

-- The integer that a pattern of so many bits stands for.
abbrev pub signed : (bits pattern : ℕ) → ℤ
signed bits v = if ltb v (2 ^ (bits - 1)) then pos v else negsuc (2 ^ bits - v - 1)

abbrev pub signed_arg : (bits : ℕ) → ℕ × List ℕ → ℤ × List ℕ
signed_arg bits (v, ap) = (signed bits v, ap)

unfoldable pub getint : List ℕ → (lflag : ℕ) → Run (ℤ × List ℕ)
getint ap lflag =
    if leb 2 lflag
    then (long_arg ap >>= λ v. done (signed_arg 64 v))
    else (word_arg ap >>= λ v. done (signed_arg 32 v))

abbrev pub is_negative : ℤ → Bool
is_negative (pos n) = false
is_negative (negsuc n) = true

abbrev pub magnitude : ℤ → ℕ
magnitude (pos n) = n
magnitude (negsuc n) = n + 1

-- An `int` as a count: nothing is counted down from a negative one.
abbrev pub count : ℤ → ℕ
count (pos n) = n
count (negsuc n) = 0
