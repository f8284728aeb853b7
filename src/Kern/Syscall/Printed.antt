-- ===== src/Kern/Syscall/Printed.antt =====
-- What `cprintf("%.*s", len, s)` of `sys_cputs` prints.
use mathlib.Core.List.{append-nil}
use sisotp.Base.{
  ℕ, zero, suc, ◌+◌, ◌-◌, ◌^◌, ◌≤◌, ◌<◌, ◌≡◌, refl, sym, List, [], ◌∷◌, ◌++◌, Bool, false, some,
  arith, ◌==◌, length, Bool-cases, inl, inr, pos, subst,
}
use sisotp.Libc.Strings.{Bytes}
use sisotp.Libc.Format.Args.{Run, done, signed}
use sisotp.Libc.Format.Scan.{Spec, no_spec}
use sisotp.Libc.Format.Convert.{null_text, put_char, string_chars, put_string, put_pointed}

-- The conversion of "%.*s": the precision is `len` as an int, and a negative one is none.
unfoldable pub cputs_text : (fuel : ℕ) → Bytes → (s len : ℕ) → Run (List ℕ)
unfolding put_pointed
cputs_text fuel byte s len =
    put_pointed fuel byte (record no_spec { width = pos 0; precision = signed 32 len }) s

-- Two memories of which the same is put, at most `n` characters.
pub record Same (n : ℕ) (a b : Run (List ℕ)) : Type 0 where
  pub out : List ℕ
  pub first : a ≡ done out
  pub second : b ≡ done out
  pub short : length out ≤ n

string_chars-Same :
    (fuel n : ℕ) (m m' : Bytes) (p : ℕ) (alt : Bool)
    → n < fuel
    → ((a : ℕ) → p ≤ a → a < p + n → m a ≡ m' a)
    → Same n (string_chars fuel m p (some n) alt) (string_chars fuel m' p (some n) alt)
unfolding string_chars
string_chars-Same zero n m m' p alt l h = absurd (omega arith)
string_chars-Same (suc fuel) zero m m' p alt l h = record {
  out = [];
  first = ground arith;
  second = ground arith;
  short = omega arith;
}
string_chars-Same (suc fuel) (suc n) m m' p alt l h =
    let here : m p ≡ m' p = h p (omega arith) (omega arith) in
    let less : suc n - 1 ≡ n = omega arith in
    let more : (suc n == 0) ≡ false = ground arith in
    let r =
      string_chars-Same fuel n m m' (p + 1) alt (omega arith)
        (λ a u v. h a (omega arith) (omega arith)) in
    rw (here, less, more)
      (elim (Bool-cases (m' p == 0)) [
        | inl y ↦ rw y (record { out = []; first = refl; second = refl; short = omega arith })
        | inr x ↦
            rw (x, r.first, r.second)
              (record {
                out = put_char alt (m' p) ∷ r.out;
                first = refl;
                second = refl;
                short = omega (arith, r.short);
              })
      ])

put_string-Same :
    (fuel n : ℕ) (m m' : Bytes) (p : ℕ)
    → n < fuel
    → ((a : ℕ) → p ≤ a → a < p + n → m a ≡ m' a)
    → let spec : Spec = record no_spec { width = pos 0; precision = pos n } in
      Same n (put_string fuel m p spec) (put_string fuel m' p spec)
unfolding put_string
put_string-Same fuel n m m' p l h =
    let r = string_chars-Same fuel n m m' p false l h in
    let none_left : 0 - length r.out ≡ 0 = omega arith in
    rw (r.first, r.second, none_left)
      (record {
        out = r.out ++ [];
        first = refl;
        second = refl;
        short = subst (λ l. length l ≤ n) (sym (append-nil r.out)) r.short;
      })

-- With a length below 2 ^ 31, only the bytes of the range count, and no more than that many
-- characters are put.
pub cputs_text-Same :
    (fuel : ℕ) (m m' : Bytes) (s len : ℕ)
    → len < 2 ^ 31
    → len < fuel
    → ((a : ℕ) → s ≤ a → a < s + len → m a ≡ m' a)
    → Same len (cputs_text fuel m s len) (cputs_text fuel m' s len)
unfolding cputs_text put_pointed
cputs_text-Same fuel m m' s len small l h =
    let precision : signed 32 len ≡ pos len = ground arith in
    rw precision (elim (Bool-cases (s == 0)) [
      | inl y ↦ rw y (put_string-Same fuel len null_text null_text 0 l (λ a u v. refl))
      | inr n ↦ rw n (put_string-Same fuel len m m' s l h)
    ])
