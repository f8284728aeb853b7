-- ===== src/Libc/Numbers.antt =====
-- jos/lib/printfmt.c: `printnum`, as the list of the characters that it passes to `putch`, in their
-- order; jos/lib/string.c: `strtol`. The width is 0 where the source has a negative one, which pads
-- as little.
pub mod RoundTrip
use sisotp.Base.{
  ℕ, zero, suc, ◌+◌, ◌-◌, ◌*◌, ◌/◌, ◌%◌, ◌^◌, List, [], ◌∷◌, ◌++◌, Bool, true, false, ◌&&◌, ◌||◌,
  Option, none, some, ltb, leb, ◌==◌, if◌then◌else◌, ℤ, pos, negsuc,
}
use sisotp.Libc.Strings.{Bytes}
use sisotp.Libc.Format.Args.{signed}

-- "0123456789abcdef"[d]
abbrev pub digit_char : ℕ → ℕ
digit_char d = if ltb d 10 then 48 + d else 87 + d

abbrev pub padding : (width padc : ℕ) → List ℕ
padding zero padc = []
padding (suc width) padc = padc ∷ padding width padc

-- The fuel bounds the number of digits.
unfoldable pub printnum : (fuel num base width padc : ℕ) → List ℕ
printnum zero num base width padc = []
printnum (suc fuel) num base width padc =
    let before = printnum fuel (num / base) base (width - 1) padc in
    (if leb base num then before else padding (width - 1) padc) ++ (digit_char (num % base) ∷ [])

-- The value of a digit or letter.
unfoldable pub digit_value : ℕ → Option ℕ
digit_value c =
    if leb 48 c && leb c 57
    then some (c - 48)
    else (if leb 97 c && leb c 122
        then some (c - 97 + 10)
        else (if leb 65 c && leb c 90 then some (c - 65 + 10) else none))

-- The loop over the digits, which returns where it stops and the value. The fuel is the number of
-- bytes that it may read. The value is the bit pattern of a `long` of 32 bits, which wraps around
-- where the number is too great ("we don't properly detect overflow!").
unfoldable pub strtol_digits : (fuel : ℕ) → Bytes → (s base val : ℕ) → Option (ℕ × ℕ)
strtol_digits zero m s base val = none
strtol_digits (suc fuel) m s base val = elim (digit_value (m s)) [
  | none ↦ some (s, val)
  | some dig ↦
      (let rest = strtol_digits fuel m (s + 1) base ((val * base + dig) % 2 ^ 32) in
        if leb base dig then some (s, val) else rest)
]

unfoldable pub skip_blanks : (fuel : ℕ) → Bytes → (s : ℕ) → Option ℕ
skip_blanks zero m s = none
skip_blanks (suc fuel) m s =
    let rest = skip_blanks fuel m (s + 1) in if m s == 32 || m s == 9 then rest else some s

-- Past the prefix of an octal or hexadecimal number, with the base that it sets.
unfoldable pub skip_prefix : Bytes → (s base : ℕ) → ℕ × ℕ
skip_prefix m s base =
    if (base == 0 || base == 16) && (m s == 48 && (m (s + 1) == 120))
    then (s + 2, 16)
    else (if base == 0 && m s == 48 then (s + 1, 8) else (if base == 0 then (s, 10) else (s, base)))

-- `*endptr` and the value.
unfoldable pub strtol : (fuel : ℕ) → Bytes → (s base : ℕ) → Option (ℕ × ℤ)
strtol fuel m s base = elim (skip_blanks fuel m s) [
  | none ↦ none
  | some t ↦
      (let neg = m t == 45 in
        let (u, b) = skip_prefix m (if m t == 43 || neg then t + 1 else t) base in
        elim (strtol_digits fuel m u b 0) [
          | none ↦ none
          | some (end, val) ↦ some (end, signed 32 (if neg then (2 ^ 32 - val) % 2 ^ 32 else val))
        ])
]
