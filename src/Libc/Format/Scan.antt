-- ===== src/Libc/Format/Scan.antt =====
-- jos/lib/printfmt.c: the flags, the width and the precision of an escape sequence. Loops run on
-- fuel; `no_fuel` says that it was used up.
use sisotp.Base.{
  ℕ, zero, suc, ◌+◌, ◌-◌, ◌*◌, List, Bool, true, false, ◌&&◌, ◌||◌, ltb, leb, ◌==◌, if◌then◌else◌,
  ℤ, pos, negsuc,
}
use sisotp.Libc.Strings.{Bytes}
use sisotp.Libc.Format.Args.{Run, done, no_fuel, ◌>>=◌, word_arg, signed, is_negative}

-- What the flags, the width and the precision of an escape sequence set.
pub record Spec : Type 0 where
  pub padc : ℕ
  pub width : ℤ
  pub precision : ℤ
  pub lflag : ℕ
  pub altflag : Bool

abbrev pub no_spec : Spec
no_spec = record { padc = 32; width = negsuc 0; precision = negsuc 0; lflag = 0; altflag = false }

unfoldable pub process_precision : Spec → Spec
process_precision s =
    if is_negative s.width then record s { width = s.precision; precision = negsuc 0 } else s

-- The loop over the digits of a width, at the byte `ch` in front of `fmt`.
unfoldable pub digits_field : (fuel : ℕ) → Bytes → (fmt ch precision : ℕ) → Run (ℕ × ℕ)
digits_field zero m fmt ch precision = no_fuel
digits_field (suc fuel) m fmt ch precision =
    let precision' = precision * 10 + (ch - 48) in
    let rest = digits_field fuel m (fmt + 1) (m fmt) precision' in
    if ltb (m fmt) 48 || ltb 57 (m fmt) then done (precision', fmt) else rest

-- The character that ends the flags, where the format goes on behind it, the arguments left and
-- what was set.
pub record Scanned : Type 0 where
  pub ch : ℕ
  pub fmt : ℕ
  pub ap : List ℕ
  pub spec : Spec

-- "reswitch": the flags up to a character that is none.
unfoldable pub scan : (fuel : ℕ) → Bytes → (fmt : ℕ) → List ℕ → Spec → Run Scanned
scan zero m fmt ap s = no_fuel
scan (suc fuel) m fmt ap s =
    let ch = m fmt in
    let flag = λ (s' : Spec). scan fuel m (fmt + 1) ap s' in
    let number = digits_field fuel m (fmt + 1) ch 0 >>= λ d.
    scan fuel m d.1 ap (process_precision (record s { precision = pos d.0 })) in
    let star = word_arg ap >>= λ a.
    scan fuel m (fmt + 1) a.1 (process_precision (record s { precision = signed 32 a.0 })) in
    if ch == 45
    then flag (record s { padc = 45 })
    else (if ch == 48
        then flag (record s { padc = 48 })
        else (if leb 49 ch && leb ch 57
            then number
            else (if ch == 42
                then star
                else (if ch == 46
                    then flag (if is_negative s.width then record s { width = pos 0 } else s)
                    else (if ch == 35
                        then flag (record s { altflag = true })
                        else (if ch == 108
                            then flag (record s { lflag = s.lflag + 1 })
                            else done (record { ch = ch; fmt = fmt + 1; ap = ap; spec = s })))))))
