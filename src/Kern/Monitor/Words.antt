-- ===== src/Kern/Monitor/Words.antt =====
-- The words of a command line, and what the two inner loops of `runcmd` do.
use sisotp.Base.{
  ℕ, zero, suc, ◌+◌, ◌-◌, ◌≤◌, ◌<◌, ◌≡◌, ◌≢◌, ◌⊎◌, refl, List, [], ◌∷◌, Bool, true, false, ◌&&◌,
  some, arith, ltb, leb, if◌then◌else◌, update, length, Bool-cases, inl, inr,
}
use sisotp.Libc.Strings.{Bytes}
use sisotp.Kern.Monitor.{is_whitespace, gobble, scan_past}

-- The text stands at `p` and ends in a 0.
abbrev pub Text : Bytes → (p : ℕ) → List ℕ → Type 0
Text m p [] = m p ≡ 0
Text m p (c ∷ text) = (m p ≡ c) × (c ≢ 0) × Text m (p + 1) text

-- Where the words of the text begin; `open` tells that a word may begin here.
unfoldable pub words : (new : Bool) → (p : ℕ) → List ℕ → List ℕ
words new p [] = []
words new p (c ∷ text) =
    let blank = words true (p + 1) text in
    let more = words false (p + 1) text in
    if is_whitespace c then blank else (if new then p ∷ more else more)

-- The memory with a 0 in place of each blank of the line.
abbrev pub cleared : Bytes → (p n : ℕ) → Bytes
cleared m p n x = if leb p x && ltb x (p + n) && is_whitespace (m x) then 0 else m x

-- Behind the blanks.
pub record Gobbled (m : Bytes) (p : ℕ) (text : List ℕ) (m' : Bytes) (start : ℕ) (rest : List ℕ)
    : Type 0 where
  pub there : Text m' start rest
  pub place : start + length rest ≡ p + length text
  pub from : p ≤ start
  pub starts : words true p text ≡ words true start rest
  pub memory : (x : ℕ) → m' x ≡ cleared m p (start - p) x
  pub word : m' start ≡ 0 ⊎ (is_whitespace (m' start) ≡ false)

Text-update :
    (m : Bytes) (p q : ℕ) (text : List ℕ) → q < p → Text m p text → Text (update m q 0) p text
Text-update m p q [] l h = ground arith
Text-update m p q (c ∷ text) l (a, b, h) =
    (ground arith, b, Text-update m (p + 1) q text (omega arith) h)

pub gobble-Gobbled :
    (fuel : ℕ) (m : Bytes) (p : ℕ) (text : List ℕ)
    → length text < fuel
    → Text m p text
    → (m' : Bytes) × (start : ℕ) × (rest : List ℕ) × (gobble fuel m p ≡ some (m', start))
      × Gobbled m p text m' start rest
unfolding gobble words
gobble-Gobbled zero m p text l h = absurd (omega arith)
gobble-Gobbled (suc fuel) m p [] l h = (
  m,
  p,
  [],
  rw h refl,
  record {
    there = h;
    place = refl;
    from = omega arith;
    starts = refl;
    memory = λ x. ground arith;
    word = inl h;
  },
)
gobble-Gobbled (suc fuel) m p (c ∷ text) l (a, b, h) = elim (Bool-cases (is_whitespace c)) [
  | inl y ↦
      let (m', start, rest, e, g) =
        gobble-Gobbled fuel (update m p 0) (p + 1) text (omega arith)
          (Text-update m (p + 1) p text (omega arith) h) in
      (
        m',
        start,
        rest,
        ground arith,
        record {
          there = g.there;
          place = omega (arith, g.place);
          from = omega (arith, g.from);
          starts = rw y g.starts;
          memory = λ x. ground (arith, g.memory x, g.from);
          word = g.word;
        },
      )
  | inr n ↦ (
    m,
    p,
    c ∷ text,
    ground arith,
    record {
      there = (a, b, h);
      place = refl;
      from = omega arith;
      starts = refl;
      memory = λ x. ground arith;
      word = inr (rw a n);
    },
  )
]

-- Behind a word, or at the end.
pub record Scanned (m : Bytes) (p : ℕ) (text : List ℕ) (end : ℕ) (rest : List ℕ) : Type 0 where
  pub there : Text m end rest
  pub place : end + length rest ≡ p + length text
  pub from : p ≤ end
  pub starts : words false p text ≡ words true end rest
  pub plain : (x : ℕ) → p ≤ x → x < end → is_whitespace (m x) ≡ false
  pub on : m p ≢ 0 → is_whitespace (m p) ≡ false → p < end

pub scan_past-Scanned :
    (fuel : ℕ) (m : Bytes) (p : ℕ) (text : List ℕ)
    → length text < fuel
    → Text m p text
    → (end : ℕ) × (rest : List ℕ) × (scan_past fuel m p ≡ some end) × Scanned m p text end rest
unfolding scan_past words
scan_past-Scanned zero m p text l h = absurd (omega arith)
scan_past-Scanned (suc fuel) m p [] l h = (
  p,
  [],
  rw h refl,
  record {
    there = h;
    place = refl;
    from = omega arith;
    starts = refl;
    plain = λ x u v. absurd (omega arith);
    on = λ n b. absurd (n h);
  },
)
scan_past-Scanned (suc fuel) m p (c ∷ text) l (a, b, h) = elim (Bool-cases (is_whitespace c)) [
  | inl y ↦ (
    p,
    c ∷ text,
    ground arith,
    record {
      there = (a, b, h);
      place = refl;
      from = omega arith;
      starts = rw y refl;
      plain = λ x u v. absurd (omega arith);
      on = λ n w. ground arith;
    },
  )
  | inr n ↦
      let (end, rest, e, g) = scan_past-Scanned fuel m (p + 1) text (omega arith) h in
      (
        end,
        rest,
        ground arith,
        record {
          there = g.there;
          place = omega (arith, g.place);
          from = omega (arith, g.from);
          starts = rw n g.starts;
          plain = λ x u v. ground (arith, g.plain x);
          on = λ u v. omega (arith, g.from);
        },
      )
]
