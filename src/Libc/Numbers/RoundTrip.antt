-- ===== src/Libc/Numbers/RoundTrip.antt =====
-- jos/lib/printfmt.c, jos/lib/string.c: `printnum` and `strtol` together.
use native.Mathlib.Nat.{div-add-mod', add-zero, zero-add, mod-lt, mod-eq_of_lt, div-lt_self}
use mathlib.Core.List.{append_assoc}
use sisotp.Base.{
  ℕ, zero, suc, ◌+◌, ◌*◌, ◌/◌, ◌%◌, ◌^◌, ◌<◌, ◌≤◌, ◌≡◌, refl, sym, ap, ◌∙◌, List, [], ◌∷◌, ◌++◌,
  false, some, arith, Bool-cases, inl, inr, ◌⊎◌, ◌≢◌, All, subst, leb, ◌==◌, if◌then◌else◌, length,
  length-append, pos,
}
use sisotp.Libc.Strings.{Bytes}
use sisotp.Libc.Format.Args.{signed}
use sisotp.Libc.Numbers.{
  digit_char, printnum, digit_value, strtol_digits, skip_blanks, skip_prefix, strtol,
}

-- Memory has these bytes at `s`.
unfoldable pub Holds : Bytes → ℕ → List ℕ → Type 0
Holds m s [] = Unit {0}
Holds m s (c ∷ cs) = (m s ≡ c) × Holds m (s + 1) cs

Holds-append :
    (m : Bytes) (s : ℕ) (xs ys : List ℕ) → Holds m s (xs ++ ys) → Holds m (s + length xs) ys
unfolding Holds
Holds-append m s [] ys h = subst (λ a. Holds m a ys) (omega arith) h
Holds-append m s (x ∷ xs) ys h =
    subst (λ a. Holds m a ys) (omega arith) (Holds-append m (s + 1) xs ys h.1)

digit_value-digit_char : (d : ℕ) → d < 16 → digit_value (digit_char d) ≡ some d
unfolding digit_value
digit_value-digit_char d h = ground arith

digit_step :
    (fuel : ℕ) (m : Bytes) (s base val d : ℕ)
    → m s ≡ digit_char d
    → d < base
    → base ≤ 16
    → val * base + d < 2 ^ 32
    → strtol_digits (suc fuel) m s base val ≡ strtol_digits fuel m (s + 1) base (val * base + d)
unfolding strtol_digits
digit_step fuel m s base val d e h b small =
    let value_ : digit_value (m s) ≡ some d = rw e (digit_value-digit_char d (omega arith)) in
    let same : (val * base + d) % 2 ^ 32 ≡ val * base + d =
      mod-eq_of_lt {n = val * base + d} {m = 2 ^ 32} small in
    rw (strtol_digits, value_, same) (ground arith)

module _ (m : Bytes) (base padc : ℕ) (two : 2 ≤ base) (sixteen : base ≤ 16) where
  -- Wherever memory has these characters, the loop of `strtol` makes the number of them.
  Reads : List ℕ → ℕ → Type 0
  Reads xs num =
      (s more : ℕ) (rest : List ℕ)
      → Holds m s (xs ++ rest)
      → strtol_digits (length xs + more) m s base 0 ≡ strtol_digits more m (s + length xs) base num

  Reads-nil : Reads [] 0
  unfolding Reads
  Reads-nil s more rest h = rw (add-zero s, zero-add more) refl

  Reads-snoc :
      (xs : List ℕ) (num d : ℕ)
      → d < base
      → num * base + d < 2 ^ 32
      → Reads xs num
      → Reads (xs ++ (digit_char d ∷ [])) (num * base + d)
  unfolding Reads Holds
  Reads-snoc xs num d l small r s more rest h =
      let h₁ : Holds m s (xs ++ (digit_char d ∷ rest)) =
        subst (Holds m s) (append_assoc xs (digit_char d ∷ []) rest) h in
      let there : m (s + length xs) ≡ digit_char d =
        (Holds-append m s xs (digit_char d ∷ rest) h₁).0 in
      let long : length (xs ++ (digit_char d ∷ [])) ≡ length xs + 1 =
        length-append xs (digit_char d ∷ []) in
      rw long (
        subst
          (λ v.
            strtol_digits v m s base 0
            ≡ strtol_digits more m (s + (length xs + 1)) base (num * base + d))
          (omega arith)
          (r s (suc more) (digit_char d ∷ rest) h₁
            ∙ digit_step more m (s + length xs) base num d there l sixteen small
            ∙ ap (λ v. strtol_digits more m v base (num * base + d)) (omega arith)))

  printnum-Reads :
      (fuel num : ℕ) → num < fuel → num < 2 ^ 32 → Reads (printnum fuel num base 0 padc) num
  unfolding printnum
  printnum-Reads zero num f small = absurd (omega arith)
  printnum-Reads (suc fuel) num f small =
      let below : num % base < base = mod-lt num (omega arith) in
      elim (Bool-cases (leb base num)) [
        | inl e ↦ rw e (
            subst (Reads (printnum fuel (num / base) base 0 padc ++ (digit_char (num % base) ∷ [])))
              (div-add-mod' num base)
              (Reads-snoc (printnum fuel (num / base) base 0 padc) (num / base) (num % base) below
                (subst (λ v. v < 2 ^ 32) (sym (div-add-mod' num base)) small)
                (printnum-Reads fuel (num / base) (ground (arith, div-lt_self {n = num} {k = base}))
                  (ground (arith, div-lt_self {n = num} {k = base})))))
        | inr e ↦ rw e (
            subst (Reads (digit_char (num % base) ∷ []))
              (rw (mod-eq_of_lt {n = num} {m = base} (ground arith)) (omega arith))
              (Reads-snoc [] 0 (num % base) below (omega arith) Reads-nil))
      ]

IsHex : ℕ → Type 0
IsHex c = ((48 ≤ c) × (c ≤ 57)) ⊎ ((97 ≤ c) × (c ≤ 102))

digit_char-IsHex : (d : ℕ) → d < 16 → IsHex (digit_char d)
unfolding IsHex
digit_char-IsHex d h = ground arith

All-snoc : (xs : List ℕ) (x : ℕ) → All IsHex xs → IsHex x → All IsHex (xs ++ (x ∷ []))
All-snoc [] x h p = (p, tt)
All-snoc (y ∷ xs) x h p = (h.0, All-snoc xs x h.1 p)

printnum-IsHex :
    (base padc : ℕ)
    → 2 ≤ base
    → base ≤ 16
    → (fuel num : ℕ) → All IsHex (printnum fuel num base 0 padc)
unfolding printnum
printnum-IsHex base padc two sixteen zero num = tt
printnum-IsHex base padc two sixteen (suc fuel) num =
    let below = mod-lt num {m = base} (omega arith) in
    let last = digit_char-IsHex (num % base) (omega arith) in
    elim (Bool-cases (leb base num)) [
      | inl e ↦ rw e (
          All-snoc (printnum fuel (num / base) base 0 padc) (digit_char (num % base))
            (printnum-IsHex base padc two sixteen fuel (num / base)) last)
      | inr e ↦ rw e (last, tt)
    ]

printnum-long : (base padc fuel num : ℕ) → 0 < length (printnum (suc fuel) num base 0 padc)
unfolding printnum
printnum-long base padc fuel num =
    rw
      (length-append (if leb base num then printnum fuel (num / base) base 0 padc else [])
        (digit_char (num % base) ∷ []))
      (omega arith)

starts :
    (m : Bytes) (s : ℕ) (xs : List ℕ)
    → 0 < length xs
    → All IsHex xs
    → Holds m s (xs ++ (0 ∷ []))
    → IsHex (m s) × (m (s + 1) ≢ 120)
unfolding Holds IsHex
starts m s [] l a h = absurd (omega arith)
starts m s (x ∷ []) l a h = (ground (arith, h, a), ground (arith, h))
starts m s (x ∷ y ∷ xs) l a h = (ground (arith, h.0, a.0), ground (arith, h.1.0, a.1.0))

skip_blanks-IsHex :
    (fuel : ℕ) (m : Bytes) (s : ℕ) → IsHex (m s) → skip_blanks (suc fuel) m s ≡ some s
unfolding skip_blanks IsHex
skip_blanks-IsHex fuel m s h = ground arith

no_sign : (c : ℕ) → IsHex c → ((c == 43) ≡ false) × ((c == 45) ≡ false)
unfolding IsHex
no_sign c h = (ground arith, ground arith)

skip_prefix-base :
    (m : Bytes) (s base : ℕ) → 2 ≤ base → m (s + 1) ≢ 120 → skip_prefix m s base ≡ (s, base)
unfolding skip_prefix
skip_prefix-base m s base two n = ground arith

strtol_digits-end :
    (m : Bytes) (s base val : ℕ) → m s ≡ 0 → strtol_digits 1 m s base val ≡ some (s, val)
unfolding strtol_digits digit_value
strtol_digits-end m s base val e = ground arith

strtol-unsigned :
    (fuel : ℕ) (m : Bytes) (s base u val : ℕ)
    → skip_blanks fuel m s ≡ some s
    → (m s == 43) ≡ false
    → (m s == 45) ≡ false
    → skip_prefix m s base ≡ (s, base)
    → strtol_digits fuel m s base 0 ≡ some (u, val)
    → strtol fuel m s base ≡ some (u, signed 32 val)
unfolding strtol
strtol-unsigned fuel m s base u val blanks plus minus prefix digits = ground arith

-- `strtol` in the base in which `printnum` printed a number below 2 ^ 31, a base from 2 to 16 and
-- no prefix, reads the number back and stops right behind it, at the byte 0; a byte more than the digits is
-- enough fuel for it.
pub strtol-printnum :
    (m : Bytes) (base padc num s : ℕ)
    → 2 ≤ base
    → base ≤ 16
    → num < 2 ^ 31
    → Holds m s (printnum (num + 1) num base 0 padc ++ (0 ∷ []))
    → strtol (length (printnum (num + 1) num base 0 padc) + 1) m s base
      ≡ some (s + length (printnum (num + 1) num base 0 padc), pos num)
unfolding Reads Holds
strtol-printnum m base padc num s two sixteen small h =
    let text = printnum (num + 1) num base 0 padc in
    let first =
      starts m s text
        (subst (λ v. 0 < length (printnum v num base 0 padc)) (omega arith)
          (printnum-long base padc num num))
        (printnum-IsHex base padc two sixteen (num + 1) num) h in
    let sign = no_sign (m s) first.0 in
    let blanks : skip_blanks (length text + 1) m s ≡ some s =
      subst (λ v. skip_blanks v m s ≡ some s) (omega arith)
        (skip_blanks-IsHex (length text) m s first.0) in
    let digits =
      printnum-Reads m base padc two sixteen (num + 1) num (omega arith) (omega arith) s 1 (0 ∷ [])
        h
      ∙ strtol_digits-end m (s + length text) base num (Holds-append m s text (0 ∷ []) h).0 in
    let value_ : signed 32 num ≡ pos num = ground arith in
    strtol-unsigned (length text + 1) m s base (s + length text) num blanks sign.0 sign.1
      (skip_prefix-base m s base two first.1) digits
    ∙ ap (λ v. some (s + length text, v)) value_
