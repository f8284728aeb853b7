-- ===== src/Libc/Format/Convert.antt =====
-- jos/lib/printfmt.c: what the conversions put.
use sisotp.Base.{
  codes, ℕ, zero, suc, ◌+◌, ◌-◌, ◌^◌, List, [], ◌∷◌, ◌++◌, Bool, false, not, ◌&&◌, ◌||◌, Option,
  none, some, ltb, leb, ◌==◌, if◌then◌else◌, length, ℤ, pos, negsuc,
}
use sisotp.Libc.Strings.{Bytes, strnlen}
use sisotp.Libc.Numbers.{printnum}
use sisotp.Libc.Format.Args.{
  Run, done, no_argument, no_fuel, ◌>>=◌, word_arg, getuint, signed, getint, is_negative, magnitude,
  count,
}
use sisotp.Libc.Format.Scan.{Spec, no_spec, Scanned}

abbrev pub pad : (n c : ℕ) → List ℕ
pad zero c = []
pad (suc n) c = c ∷ pad n c

-- `"(null)"` as memory from an offset.
abbrev pub null_text : ℕ → ℕ
null_text i =
    if i == 0
    then 40
    else (if i == 1
        then 110
        else (if i == 2
            then 117
            else (if i == 3 || i == 4 then 108 else (if i == 5 then 41 else 0))))

-- The `int` that a `char` is extended to.
abbrev pub char_int : ℕ → ℕ
char_int b = if leb 128 b then b + (2 ^ 32 - 256) else b

abbrev pub put_char : Bool → ℕ → ℕ
put_char alt b = if alt && (ltb b 32 || ltb 126 b) then 63 else char_int b

abbrev pub lower_limit : Option ℕ → Option ℕ
lower_limit none = none
lower_limit (some n) = some (n - 1)

abbrev pub at_limit : Option ℕ → Bool
at_limit none = false
at_limit (some n) = n == 0

-- The characters of a string, at most `limit` of them if there is a limit; with the flag '#' one
-- outside of the printable range is put as '?'.
unfoldable pub string_chars : (fuel : ℕ) → Bytes → (p : ℕ) → Option ℕ → Bool → Run (List ℕ)
string_chars zero m p limit alt = no_fuel
string_chars (suc fuel) m p limit alt =
    let rest = string_chars fuel m (p + 1) (lower_limit limit) alt >>= λ cs.
    done (put_char alt (m p) ∷ cs) in
    if (m p == 0) || at_limit limit then done [] else rest

abbrev pub limit_of : ℤ → Option ℕ
limit_of (pos n) = some n
limit_of (negsuc n) = none

-- `strnlen(p, precision)`, with the precision as a size_t.
abbrev pub size_of : ℤ → ℕ
size_of (pos n) = n
size_of (negsuc n) = 2 ^ 32 - n - 1

-- The conversion `%s` of the string at `p` of the memory `m`. The padding goes before the string, or
-- behind it; the width counts down with both. `strnlen` reads at most `fuel` bytes here.
unfoldable pub put_string : (fuel : ℕ) → Bytes → (p : ℕ) → Spec → Run (List ℕ)
put_string fuel m p s = string_chars fuel m p (limit_of s.precision) s.altflag >>= λ cs.
    if ltb 0 (count s.width) && not (s.padc == 45)
    then done (
        pad
          (count s.width
            - strnlen (if ltb fuel (size_of s.precision) then fuel else size_of s.precision) m p)
          s.padc
        ++ cs)
    else done (cs ++ pad (count s.width - length cs) 32)

-- The texts of `error_string`; the entry 0 is NULL.
abbrev pub error_text : ℕ → Option (List ℕ)
error_text e =
    if e == 1
    then some (codes "unspecified error")
    else (if e == 2
        then some (codes "bad environment")
        else (if e == 3
            then some (codes "invalid parameter")
            else (if e == 4
                then some (codes "out of memory")
                else (if e == 5
                    then some (codes "out of environments")
                    else (if e == 6
                        then some (codes "segmentation fault")
                        else (if e == 7
                            then some (codes "env is not recving")
                            else (if e == 8
                                then some (codes "unexpected end of file")
                                else none)))))))

abbrev pub number : (num base : ℕ) → Spec → List ℕ
number num base s = printnum (num + 1) num base (count s.width) s.padc

-- What `%e` puts: the text of the error, or what `printfmt(putch, putdat, "error %d", err)` puts.
unfoldable pub put_error : ℤ → List ℕ
put_error err = elim (error_text (magnitude err)) [
  | some text ↦ text
  | none ↦ codes "error " ++ number (magnitude err) 10 no_spec
]

unfoldable pub put_decimal : ℤ → Spec → List ℕ
put_decimal num s =
    if is_negative num then 45 ∷ number (magnitude num) 10 s else number (magnitude num) 10 s

abbrev pub emit : {A : Type 0} → (A → List ℕ) → Run (A × List ℕ) → Run (List ℕ × List ℕ)
emit f (done (a, ap)) = done (f a, ap)
emit f no_argument = no_argument
emit f no_fuel = no_fuel

-- `%s` of the pointer `p`.
unfoldable pub put_pointed : (fuel : ℕ) → Bytes → Spec → (p : ℕ) → Run (List ℕ)
put_pointed fuel m s p = if p == 0 then put_string fuel null_text 0 s else put_string fuel m p s

abbrev pub emit_string : (fuel : ℕ) → Bytes → Spec → Run (ℕ × List ℕ) → Run (List ℕ × List ℕ)
emit_string fuel m s (done (p, ap)) = put_pointed fuel m s p >>= λ cs. done (cs, ap)
emit_string fuel m s no_argument = no_argument
emit_string fuel m s no_fuel = no_fuel

-- The conversions of the switch, with the arguments left; none for a character that is no conversion.
unfoldable pub convert : (fuel : ℕ) → Bytes → Scanned → Option (Run (List ℕ × List ℕ))
convert fuel m c =
    let s = c.spec in
    if c.ch == 99
    then some (emit (λ a. a ∷ []) (word_arg c.ap))
    else (if c.ch == 101
        then some (emit (λ a. put_error (signed 32 a)) (word_arg c.ap))
        else (if c.ch == 115
            then some (emit_string fuel m s (word_arg c.ap))
            else (if c.ch == 100
                then some (emit (λ a. put_decimal a s) (getint c.ap s.lflag))
                else (if c.ch == 117
                    then some (emit (λ a. number a 10 s) (getuint c.ap s.lflag))
                    else (if c.ch == 111
                        then some (emit (λ a. number a 8 s) (getuint c.ap s.lflag))
                        else (if c.ch == 112
                            then some (emit (λ a. 48 ∷ 120 ∷ number a 16 s) (word_arg c.ap))
                            else (if c.ch == 120
                                then some (emit (λ a. number a 16 s) (getuint c.ap s.lflag))
                                else (if c.ch == 37
                                    then some (done (37 ∷ [], c.ap))
                                    else none))))))))
