-- ===== src/Libc/Format/Ends.antt =====
-- jos/lib/printfmt.c: the fuel that `vprintfmt` needs.
use sisotp.Base.{
  ℕ, zero, suc, ◌+◌, ◌≤◌, ◌<◌, ◌≡◌, ◌≢◌, ◌⊎◌, inl, inr, refl, ◌%◌, ◌^◌, List, [], ◌∷◌, Bool, true,
  false, not, Option, none, some, arith, Bool-cases, ltb, leb, ◌==◌, ◌||◌, ◌&&◌, if◌then◌else◌,
}
use sisotp.Libc.Strings.{Bytes}
use sisotp.Libc.Format.Args.{
  Run, done, no_argument, no_fuel, word_arg, long_arg, getuint, getint, count, ◌>>=◌,
}
use sisotp.Libc.Format.Scan.{Spec, no_spec, Scanned, scan}
use sisotp.Libc.Format.Convert.{
  convert, emit, emit_string, string_chars, put_string, put_pointed, null_text, at_limit,
  lower_limit, limit_of,
}
use sisotp.Libc.Format.{Round, escape, vprintfmt}
use sisotp.Libc.Format.Scanning.{Scans, scan-Scans}

>>=-ends :
    {A B : Type 0} (r : Run A) (f : A → Run B)
    → r ≢ no_fuel
    → ((a : A) → f a ≢ no_fuel)
    → (r >>= f) ≢ no_fuel
>>=-ends (done a) f h k = k a
>>=-ends no_argument f h k = λ q. cc
>>=-ends no_fuel f h k = absurd (h refl)

string_chars-ends :
    (fuel : ℕ) (m : Bytes) (z p : ℕ) (limit : Option ℕ) (alt : Bool)
    → m z ≡ 0
    → p ≤ z
    → z < p + fuel
    → string_chars fuel m p limit alt ≢ no_fuel
unfolding string_chars
string_chars-ends zero m z p limit alt e a b = absurd (omega arith)
string_chars-ends (suc fuel) m z p limit alt e a b =
    elim (Bool-cases ((m p == 0) || at_limit limit)) [
      | inl t ↦ rw t (λ q. cc)
      | inr t ↦ rw t (
          >>=-ends _ _
            (string_chars-ends fuel m z (p + 1) (lower_limit limit) alt e (ground arith)
              (omega arith))
            (λ cs q. cc))
    ]

if_done : {A : Type 0} (b : Bool) (x y : A) → (if b then done x else done y) ≢ no_fuel
if_done true x y q = cc
if_done false x y q = cc

put_string-ends :
    (fuel : ℕ) (m : Bytes) (s : Spec) (z p : ℕ)
    → m z ≡ 0
    → p ≤ z
    → z < p + fuel
    → put_string fuel m p s ≢ no_fuel
unfolding put_string
put_string-ends fuel m s z p e a b =
    >>=-ends _ _ (string_chars-ends fuel m z p (limit_of s.precision) s.altflag e a b)
      (λ cs. if_done (ltb 0 (count s.width) && not (s.padc == 45)) _ _)

-- Each string of the memory has its byte 0 at most `len` bytes behind its start.
unfoldable pub EndWithin : Bytes → ℕ → Type 0
EndWithin m len = (p : ℕ) → (z : ℕ) × (p ≤ z) × (z ≤ p + len) × (m z ≡ 0)

put_pointed-ends :
    (fuel : ℕ) (m : Bytes) (s : Spec) (p len : ℕ)
    → EndWithin m len
    → 6 ≤ len
    → len < fuel
    → put_pointed fuel m s p ≢ no_fuel
unfolding put_pointed EndWithin
put_pointed-ends fuel m s p len h l b = elim (Bool-cases (p == 0)) [
  | inl t ↦ rw t (put_string-ends fuel null_text s 6 0 refl (omega arith) (omega arith))
  | inr t ↦ (let (z, lo, hi, e) = h p in rw t (put_string-ends fuel m s z p e lo (omega arith)))
]

-- A conversion does not run out of fuel, and its character is not the byte 0.
Converts : (ch : ℕ) → Option (Run (List ℕ × List ℕ)) → Type 0
Converts ch none = Unit {0}
Converts ch (some r) = (r ≢ no_fuel) × (ch ≢ 0)

Converts-if :
    (ch k : ℕ) (r : Run (List ℕ × List ℕ)) (o : Option (Run (List ℕ × List ℕ)))
    → k ≢ 0
    → r ≢ no_fuel
    → Converts ch o
    → Converts ch (if ch == k then some r else o)
unfolding Converts
Converts-if ch k r o n h g = elim (Bool-cases (ch == k)) [
  | inl t ↦ rw t (h, ground arith)
  | inr t ↦ rw t g
]

emit-ends : {A : Type 0} (f : A → List ℕ) (r : Run (A × List ℕ)) → r ≢ no_fuel → emit f r ≢ no_fuel
emit-ends f (done (a, ap)) h = λ q. cc
emit-ends f no_argument h = λ q. cc
emit-ends f no_fuel h = absurd (h refl)

word_arg-ends : (ap : List ℕ) → word_arg ap ≢ no_fuel
word_arg-ends [] = λ q. cc
word_arg-ends (w ∷ ap) = λ q. cc

long_arg-ends : (ap : List ℕ) → long_arg ap ≢ no_fuel
long_arg-ends [] = λ q. cc
long_arg-ends (w ∷ []) = λ q. cc
long_arg-ends (w ∷ v ∷ ap) = λ q. cc

if-ends :
    {A : Type 0} (b : Bool) (r t : Run A)
    → r ≢ no_fuel
    → t ≢ no_fuel
    → (if b then r else t) ≢ no_fuel
if-ends true r t h k = h
if-ends false r t h k = k

getuint-ends : (ap : List ℕ) (lflag : ℕ) → getuint ap lflag ≢ no_fuel
unfolding getuint
getuint-ends ap lflag = if-ends (leb 2 lflag) _ _ (long_arg-ends ap) (word_arg-ends ap)

getint-ends : (ap : List ℕ) (lflag : ℕ) → getint ap lflag ≢ no_fuel
unfolding getint
getint-ends ap lflag =
    if-ends (leb 2 lflag) _ _ (>>=-ends _ _ (long_arg-ends ap) (λ v q. cc))
      (>>=-ends _ _ (word_arg-ends ap) (λ v q. cc))

emit_string-ends :
    (fuel : ℕ) (m : Bytes) (s : Spec) (ap : List ℕ) (len : ℕ)
    → EndWithin m len
    → 6 ≤ len
    → len < fuel
    → emit_string fuel m s (word_arg ap) ≢ no_fuel
emit_string-ends fuel m s [] len h l b = λ q. cc
emit_string-ends fuel m s (w ∷ ap) len h l b =
    >>=-ends _ _ (put_pointed-ends fuel m s (w % 2 ^ 32) len h l b) (λ cs q. cc)

convert-Converts :
    (fuel : ℕ) (m : Bytes) (c : Scanned) (len : ℕ)
    → EndWithin m len
    → 6 ≤ len
    → len < fuel
    → Converts c.ch (convert fuel m c)
unfolding convert Converts
convert-Converts fuel m c len h l b =
    let word = λ (f : ℕ → List ℕ). emit-ends f _ (word_arg-ends c.ap) in
    let unsigned = λ (f : ℕ → List ℕ). emit-ends f _ (getuint-ends c.ap c.spec.lflag) in
    Converts-if c.ch 99 _ _ (omega arith) (word _) (
      Converts-if c.ch 101 _ _ (omega arith) (word _) (
        Converts-if c.ch 115 _ _ (omega arith) (emit_string-ends fuel m c.spec c.ap len h l b) (
          Converts-if c.ch 100 _ _ (omega arith) (emit-ends _ _ (getint-ends c.ap c.spec.lflag)) (
            Converts-if c.ch 117 _ _ (omega arith) (unsigned _) (
              Converts-if c.ch 111 _ _ (omega arith) (unsigned _) (
                Converts-if c.ch 112 _ _ (omega arith) (word _) (
                  Converts-if c.ch 120 _ _ (omega arith) (unsigned _)
                    (Converts-if c.ch 37 _ _ (omega arith) (λ q. cc) tt))))))))

-- A round that goes on in front of `z` or at it.
RoundEnds : (z fmt : ℕ) → Run Round → Type 0
RoundEnds z fmt (done r) = (fmt ≤ r.fmt) × (r.fmt ≤ z)
RoundEnds z fmt no_argument = Unit {0}
RoundEnds z fmt no_fuel = ⊥

converted-RoundEnds :
    (z fmt : ℕ) (c : Scanned) (o : Option (Run (List ℕ × List ℕ)))
    → fmt ≤ z
    → fmt < c.fmt
    → ((c.ch ≡ 0) ⊎ (c.fmt ≤ z))
    → Converts c.ch o
    → RoundEnds z fmt (elim o [
      | none ↦ done (record { put = 37 ∷ []; fmt = fmt; ap = c.ap })
      | some r ↦ (r >>= λ o. done (record { put = o.0; fmt = c.fmt; ap = o.1 }))
    ])
unfolding RoundEnds Converts
converted-RoundEnds z fmt c none a l e h = (omega arith, a)
converted-RoundEnds z fmt c (some (done o)) a l (inl e) h = absurd (h.1 e)
converted-RoundEnds z fmt c (some (done o)) a l (inr e) h = (omega arith, e)
converted-RoundEnds z fmt c (some no_argument) a l e h = tt
converted-RoundEnds z fmt c (some no_fuel) a l e h = absurd (h.0 refl)

escape-RoundEnds :
    (fuel : ℕ) (m : Bytes) (z fmt len : ℕ) (ap : List ℕ)
    → m z ≡ 0
    → fmt ≤ z
    → EndWithin m len
    → 6 ≤ len
    → z + len < fmt + fuel
    → RoundEnds z fmt (escape fuel m fmt ap)
unfolding escape
escape-RoundEnds fuel m z fmt len ap e a h l b =
    elim (scan fuel m fmt ap no_spec)
        as (λ r.
          Scans z fmt r
          → RoundEnds z fmt (
              r >>= λ c. elim (convert fuel m c) [
                | none ↦ done (record { put = 37 ∷ []; fmt = fmt; ap = c.ap })
                | some o ↦ (o >>= λ o. done (record { put = o.0; fmt = c.fmt; ap = o.1 }))
              ])) [
                | done c ↦ (λ g.
                    unfold Scans in
                    converted-RoundEnds z fmt c (convert fuel m c) a g.0 g.1
                      (convert-Converts fuel m c len h l (omega arith)))
                | no_argument ↦ (λ g. unfold RoundEnds in tt)
                | no_fuel ↦ (λ g. unfold Scans in absurd g)
              ]
      (scan-Scans fuel m z fmt ap no_spec e a (omega arith))

after_round :
    (z fmt : ℕ) (r : Run Round) (k : Round → Run (List ℕ))
    → RoundEnds z fmt r
    → ((q : Round) → fmt ≤ q.fmt → q.fmt ≤ z → k q ≢ no_fuel)
    → (r >>= k) ≢ no_fuel
unfolding RoundEnds
after_round z fmt (done q) k h g = g q h.0 h.1
after_round z fmt no_argument k h g = λ q. cc
after_round z fmt no_fuel k h g = absurd h

-- `vprintfmt` ends: on a format in front of the byte 0 at `z`, in a memory where each string has its
-- byte 0 at most `len` bytes behind its start, whatever the arguments are, each loop ends with a fuel
-- of more than the length of the format, `len` and one.
pub vprintfmt-ends :
    (fuel : ℕ) (m : Bytes) (z fmt len : ℕ) (ap : List ℕ)
    → m z ≡ 0
    → fmt ≤ z
    → EndWithin m len
    → 6 ≤ len
    → z + len + 1 < fmt + fuel
    → vprintfmt fuel m fmt ap ≢ no_fuel
unfolding vprintfmt
vprintfmt-ends zero m z fmt len ap e a h l b = absurd (omega arith)
vprintfmt-ends (suc fuel) m z fmt len ap e a h l b = elim (Bool-cases (m fmt == 37)) [
  | inl t ↦
      (let next : fmt + 1 ≤ z = ground arith in
        rw t (
          after_round z (fmt + 1) _ _
            (escape-RoundEnds fuel m z (fmt + 1) len ap e next h l (omega arith))
            λ q lo hi.
              >>=-ends _ _ (vprintfmt-ends fuel m z q.fmt len q.ap e hi h l (omega arith))
                (λ out p. cc)))
  | inr t ↦ rw t (elim (Bool-cases (m fmt == 0)) [
    | inl u ↦ rw u (λ q. cc)
    | inr u ↦ rw u (
        >>=-ends _ _ (vprintfmt-ends fuel m z (fmt + 1) len ap e (ground arith) h l (omega arith))
          (λ out p. cc))
  ])
]
