-- ===== src/Libc/Examples.antt =====
-- Strings and numbers in a small memory: "hit" at 32, "2a" at 48.
pub mod Format
pub mod Lines
use sisotp.Base.{ℕ, ◌+◌, ◌<◌, ◌≡◌, ◌≢◌, ◌↔◌, inr, refl, some, arith, ◌==◌, if◌then◌else◌, pos}
use sisotp.Libc.Strings.{Bytes, strlen, strnlen, strnlen_from, strlcpy, strncmp, memmove, memset}
use sisotp.Libc.Strings.Move.{memmove-moved}
use sisotp.Libc.Numbers.{printnum, strtol}
use sisotp.Libc.Numbers.RoundTrip.{Holds, strtol-printnum}

abbrev memory : Bytes
memory a =
    if a == 16
    then 104
    else (if a == 17
        then 105
        else (if a == 32
            then 104
            else (if a == 33
                then 105
                else (if a == 34
                    then 116
                    else (if a == 48 then 50 else (if a == 49 then 97 else 0))))))

-- "hit" moved one byte up, over itself.
memmove-moved_example : memmove memory 33 32 3 34 ≡ 105
memmove-moved_example = memmove-moved memory 33 32 3 34

-- 42 in base 16.
strtol-printnum_example : strtol 3 memory 48 16 ≡ some (50, pos 42)
unfolding printnum Holds
strtol-printnum_example =
    strtol-printnum memory 16 32 42 48 (omega arith) (omega arith) (omega arith)
      (refl, (refl, (refl, tt)))
