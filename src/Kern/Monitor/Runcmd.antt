-- ===== src/Kern/Monitor/Runcmd.antt =====
-- `runcmd` against the words of the command line.
use mathlib.Core.Path.{fun_ext}
use mathlib.Core.List.{append_assoc, append-nil}
use sisotp.Base.{
  ℕ, zero, suc, ◌+◌, ◌-◌, ◌≤◌, ◌<◌, ◌≡◌, ◌≢◌, refl, sym, subst, ◌∙◌, ap, List, [], ◌∷◌, ◌++◌, true,
  false, Option, none, some, arith, ltb, ◌==◌, if◌then◌else◌, length, length-append, Bool-cases,
  inl, inr,
}
use sisotp.Libc.Strings.{Bytes}
use sisotp.Kern.Monitor.{
  is_whitespace, gobble, scan_past, parse, Parsed, arguments, too_many, maxargs, Command,
  too_many_arguments, find_command, command_of, runcmd,
}
use sisotp.Kern.Monitor.Words.{
  Text, words, cleared, Gobbled, gobble-Gobbled, Scanned, scan_past-Scanned,
}

-- What `parse` makes of a line of which `expected` are the words, counted with those before.
data Splits (m : Bytes) (p n : ℕ) (expected : List ℕ) : Option Parsed → Type 0 where
  fits :
      (m' : Bytes) {argv : List ℕ}
      → argv ≡ expected
      → length argv < maxargs
      → ((x : ℕ) → m' x ≡ cleared m p n x)
      → Splits m p n expected (some (arguments m' argv))
  overflows : (m' : Bytes) → maxargs ≤ length expected → Splits m p n expected (some (too_many m'))

further :
    {m m₁ : Bytes} {p n end n₁ : ℕ} {expected expected₁ : List ℕ} {o : Option Parsed}
    → expected₁ ≡ expected
    → ((x : ℕ) → cleared m₁ end n₁ x ≡ cleared m p n x)
    → Splits m₁ end n₁ expected₁ o
    → Splits m p n expected o
further q f (fits m' e l g) = fits m' (e ∙ q) l λ x. g x ∙ f x
further q f (overflows m' l) = overflows m' (ground arith)

-- A round of the loop, with `o` for the rounds behind it.
one_round :
    (m m₁ : Bytes) (p start end : ℕ) (text rest rest' argv : List ℕ) (o : Option Parsed)
    → length argv < maxargs
    → Gobbled m p text m₁ start rest
    → Scanned m₁ start rest end rest'
    → (start < end
        → length argv + 1 < maxargs
        → Splits m₁ end (length rest') ((argv ++ (start ∷ [])) ++ words true end rest') o)
    → Splits m p (length text) (argv ++ words true p text) (
        if m₁ start == 0
        then some (arguments m₁ argv)
        else (if length argv == maxargs - 1 then some (too_many m₁) else o))
unfolding words
one_round m m₁ p start end text [] rest' argv o b g s ih = rw g.there (
    fits m₁ (rw g.starts (sym (append-nil argv))) b λ x.
      let n : start - p ≡ length text = omega (arith, g.place, g.from) in
      g.memory x ∙ ap (λ n. cleared m p n x) n)
one_round m m₁ p start end text (c ∷ rest) rest' argv o b g s ih =
    let nonzero : m₁ start ≢ 0 = (λ z. g.there.1 (sym g.there.0 ∙ z)) in
    let solid : is_whitespace (m₁ start) ≡ false = elim g.word [
      | inl z ↦ absurd (nonzero z)
      | inr w ↦ w
    ] in
    let solid_c : is_whitespace c ≡ false = rw g.there.0 at solid in
    let q : words true p text ≡ start ∷ words true end rest' =
      (rw solid_c at g.starts) ∙ ap (λ w. start ∷ w) (rw solid_c at s.starts) in
    let n : (m₁ start == 0) ≡ false = ground arith in
    rw (n, q)
      (elim (Bool-cases (length argv == maxargs - 1)) [
        | inl y ↦
            rw y (overflows m₁ (ground (arith, length-append argv (start ∷ words true end rest'))))
        | inr y ↦ rw y (
            further (append_assoc argv (start ∷ []) (words true end rest'))
              (λ x. ground (arith, g.memory x, s.plain x, g.place, g.from, s.place, s.from))
              (ih (s.on nonzero solid) (ground arith)))
      ])

parse_round :
    (rounds fuel : ℕ) (m m₁ : Bytes) (p start end : ℕ) (argv : List ℕ)
    → gobble fuel m p ≡ some (m₁, start)
    → scan_past fuel m₁ start ≡ some end
    → parse (suc rounds) fuel m p argv ≡ (
        if m₁ start == 0
        then some (arguments m₁ argv)
        else (if length argv == maxargs - 1
            then some (too_many m₁)
            else parse rounds fuel m₁ end (argv ++ (start ∷ []))))
unfolding parse
parse_round rounds fuel m m₁ p start end argv e e' = rw (e, parse) (rw e' refl)

parse-Splits :
    (rounds fuel : ℕ) (m : Bytes) (p : ℕ) (text argv : List ℕ)
    → length text < rounds
    → length text < fuel
    → Text m p text
    → length argv < maxargs
    → Splits m p (length text) (argv ++ words true p text) (parse rounds fuel m p argv)
parse-Splits zero fuel m p text argv r l h b = absurd (omega arith)
parse-Splits (suc rounds) fuel m p text argv r l h b =
    let (m₁, start, rest, e, g) = gobble-Gobbled fuel m p text l h in
    let (end, rest', e', s) =
      scan_past-Scanned fuel m₁ start rest (omega (arith, g.place, g.from)) g.there in
    subst (Splits m p (length text) (argv ++ words true p text))
      (sym (parse_round rounds fuel m m₁ p start end argv e e'))
      (one_round m m₁ p start end text rest rest' argv
        (parse rounds fuel m₁ end (argv ++ (start ∷ []))) b g s
        λ u v.
          parse-Splits rounds fuel m₁ end rest' (argv ++ (start ∷ []))
            (omega (arith, g.place, g.from, s.place)) (omega (arith, g.place, g.from, s.place))
            s.there (omega (arith, length-append argv (start ∷ []))))

module _ (m : Bytes) (p : ℕ) (text : List ℕ) where
  -- The command of the words of the line.
  abbrev pub command_line : Command × List ℕ
  command_line =
      let argv = words true p text in
      if ltb (length argv) maxargs
      then (find_command (cleared m p (length text)) argv, argv)
      else (too_many_arguments, [])

  split_command :
      {o : Option Parsed}
      → Splits m p (length text) (words true p text) o
      → elim o [ none ↦ none | some r ↦ some (command_of r) ] ≡ some command_line
  split_command (fits m' {argv} e l g) =
      let short : ltb (length (words true p text)) maxargs ≡ true = ground arith in
      let same : find_command m' argv
          ≡ find_command (cleared m p (length text)) (words true p text) =
        ap (λ n. find_command n argv) (fun_ext g)
        ∙ ap (find_command (cleared m p (length text))) e in
      rw short (ap some (λ i. (same i, e i)))
  split_command (overflows m' l) =
      let long : ltb (length (words true p text)) maxargs ≡ false = ground arith in rw long refl

  -- `runcmd` on a line, with fuel for its bytes: it returns, and the arguments are the words of the
  -- line, if they are less than 16, with the blanks of the line replaced by 0, so that each word
  -- ends. The command is found by the first of them. A line with more words is refused.
  pub runcmd-words :
      (fuel : ℕ) → length text < fuel → Text m p text → runcmd fuel m p ≡ some command_line
  unfolding runcmd
  runcmd-words fuel l h = split_command (parse-Splits fuel fuel m p text [] l l h (omega arith))
