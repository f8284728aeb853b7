-- ===== src/Libc/Readline/Edited.antt =====
-- `readline` against the line as a text that the keys edit.
use sisotp.Base.{
  ℕ, ◌+◌, ◌-◌, ◌%◌, ◌≤◌, ◌<◌, ◌≡◌, refl, ◌∙◌, List, [], ◌∷◌, Bool, true, false, ◌&&◌, ◌||◌, Option,
  none, some, arith, ltb, leb, ◌==◌, if◌then◌else◌, update, length, All, Bool-cases, inl, inr,
}
use sisotp.Libc.Strings.{Bytes}
use sisotp.Libc.Readline.{Read, line, failed, waiting, buflen, echo_first, readline_from, readline}

-- What is typed so far is kept with the last character in front.
abbrev pub drop_last : List ℕ → List ℕ
drop_last [] = []
drop_last (c ∷ typed) = typed

-- A key edits the text: backspace and delete take the last character away, if there is one; what is
-- not a control character is added, delete too, up to 1023 of them; other keys do nothing.
abbrev pub edit : (typed : List ℕ) → (c : ℕ) → List ℕ
edit typed c =
    if (c == 8 || c == 127) && ltb 0 (length typed)
    then drop_last typed
    else (if leb 32 c && ltb (length typed) 1023 then (c % 256) ∷ typed else typed)

abbrev pub ends_line : ℕ → Bool
ends_line c = c == 10 || c == 13

-- What stands in the line when it ends.
unfoldable pub edited : List ℕ → List (Option ℕ) → List ℕ
edited typed [] = typed
edited typed (none ∷ input) = typed
edited typed (some c ∷ input) =
    let rest = edited (edit typed c) input in if ends_line c then typed else rest

pub data Ending : Type 0 where
  never : Ending
  broken newline : (rest : List (Option ℕ)) → Ending

-- How the input ends the line, and what is left of it.
unfoldable pub ending : List (Option ℕ) → Ending
ending [] = never
ending (none ∷ input) = broken input
ending (some c ∷ input) = let rest = ending input in if ends_line c then newline input else rest

-- The text stands at the start of the buffer.
abbrev pub Stored : Bytes → List ℕ → Type 0
Stored b [] = Unit
Stored b (c ∷ typed) = (b (length typed) ≡ c) × Stored b typed

-- The outcome of a call that began with `b` and `typed`.
abbrev pub Outcome : Bytes → List ℕ → List (Option ℕ) → Read → Type 0
Outcome b typed input (line b' out rest) =
    (ending input ≡ newline rest)
    × Stored b' (edited typed input)
    × (b' (length (edited typed input)) ≡ 0)
    × (length (edited typed input) < buflen)
    × ((i : ℕ) → buflen ≤ i → b' i ≡ b i)
Outcome b typed input (failed out rest) = ending input ≡ broken rest
Outcome b typed input waiting = ending input ≡ never

Stored-update :
    (b : Bytes) (typed : List ℕ) (i v : ℕ)
    → length typed ≤ i
    → Stored b typed
    → Stored (update b i v) typed
Stored-update b [] i v l s = tt
Stored-update b (c ∷ typed) i v l (h, s) = (ground arith, Stored-update b typed i v (omega arith) s)

Stored-drop_last : (b : Bytes) (typed : List ℕ) → Stored b typed → Stored b (drop_last typed)
Stored-drop_last b [] s = tt
Stored-drop_last b (c ∷ typed) (h, s) = s

length-drop_last : (typed : List ℕ) → length (drop_last typed) ≡ length typed - 1
length-drop_last [] = refl
length-drop_last (c ∷ typed) = omega arith

echoed :
    (echoing : Bool) (c : ℕ) (b : Bytes) (typed : List ℕ) (input : List (Option ℕ)) (r : Read)
    → Outcome b typed input r
    → Outcome b typed input (echo_first echoing c r)
echoed true c b typed input (line b' out rest) h = h
echoed true c b typed input (failed out rest) h = h
echoed true c b typed input waiting h = h
echoed false c b typed input r h = h

-- A key that does not end the line.
typed_on :
    (b b' : Bytes) (typed typed' : List ℕ) (c : ℕ) (input : List (Option ℕ)) (r : Read)
    → ends_line c ≡ false
    → edit typed c ≡ typed'
    → ((i : ℕ) → buflen ≤ i → b' i ≡ b i)
    → Outcome b' typed' input r
    → Outcome b typed (some c ∷ input) r
unfolding edited ending
typed_on b b' typed typed' c input (line b″ out rest) n d f (e, s, z, l, g) =
    rw (n, d) (e, s, z, l, λ i u. g i u ∙ f i u)
typed_on b b' typed typed' c input (failed out rest) n d f h = rw n h
typed_on b b' typed typed' c input waiting n d f h = rw n h

line_ended :
    (b : Bytes) (i : ℕ) (typed : List ℕ) (c : ℕ) (input : List (Option ℕ))
    → length typed ≡ i
    → i < buflen
    → Stored b typed
    → ends_line c ≡ true
    → Outcome b typed (some c ∷ input) (line (update b i 0) [] input)
unfolding edited ending
line_ended b i typed c input q l s z = rw z (
  refl,
  Stored-update b typed i 0 (omega arith) s,
  ground arith,
  omega arith,
  λ j u. ground arith,
)

readline_from-Outcome :
    (echoing : Bool) (b : Bytes) (i : ℕ) (typed : List ℕ) (input : List (Option ℕ))
    → length typed ≡ i
    → i < buflen
    → Stored b typed
    → Outcome b typed input (readline_from echoing b i input)
unfolding readline_from
readline_from-Outcome echoing b i typed [] q l s = unfold ending in refl
readline_from-Outcome echoing b i typed (none ∷ input) q l s = unfold ending in refl
readline_from-Outcome echoing b i typed (some c ∷ input) q l s =
    elim (Bool-cases ((c == 8 || c == 127) && ltb 0 i)) [
      | inl x ↦ rw x (
          echoed echoing 8 b typed (some c ∷ input) (readline_from echoing b (i - 1) input) (
            typed_on b b typed (drop_last typed) c input (readline_from echoing b (i - 1) input)
              (ground arith) (ground arith) (λ j u. refl)
              (readline_from-Outcome echoing b (i - 1) (drop_last typed) input
                (omega (arith, length-drop_last typed)) (omega arith)
                (Stored-drop_last b typed s))))
      | inr x ↦ rw x (elim (Bool-cases (leb 32 c && ltb i (buflen - 1))) [
        | inl y ↦
            let b' = update b i (c % 256) in
            let r = readline_from echoing b' (i + 1) input in
            rw y (
              echoed echoing c b typed (some c ∷ input) r (
                typed_on b b' typed ((c % 256) ∷ typed) c input r (ground arith) (ground arith)
                  (λ j u. ground arith)
                  (readline_from-Outcome echoing b' (i + 1) ((c % 256) ∷ typed) input (omega arith)
                    (ground arith)
                    (ground arith, Stored-update b typed i (c % 256) (omega arith) s))))
        | inr y ↦ rw y (elim (Bool-cases (ends_line c)) [
          | inl z ↦ rw z (
              echoed echoing 10 b typed (some c ∷ input) (line (update b i 0) [] input)
                (line_ended b i typed c input q l s z))
          | inr z ↦ rw z (
              typed_on b b typed typed c input (readline_from echoing b i input) z (ground arith)
                (λ j u. refl) (readline_from-Outcome echoing b i typed input q l s))
        ])
      ])
    ]

-- What the console can return, or a negative number.
abbrev pub IsByte : Option ℕ → Type 0
IsByte none = Unit
IsByte (some c) = c < 256

drop_last-IsShown : (typed : List ℕ) → All (λ x. 32 ≤ x) typed → All (λ x. 32 ≤ x) (drop_last typed)
drop_last-IsShown [] h = tt
drop_last-IsShown (c ∷ typed) (x, h) = h

edit-IsShown :
    (typed : List ℕ) (c : ℕ) → c < 256 → All (λ x. 32 ≤ x) typed → All (λ x. 32 ≤ x) (edit typed c)
edit-IsShown typed c l h = elim (Bool-cases ((c == 8 || c == 127) && ltb 0 (length typed))) [
  | inl x ↦ rw x (drop_last-IsShown typed h)
  | inr x ↦ rw x (elim (Bool-cases (leb 32 c && ltb (length typed) 1023)) [
    | inl y ↦ rw y (ground arith, h)
    | inr y ↦ rw y h
  ])
]

edited-IsShown :
    (typed : List ℕ) (input : List (Option ℕ))
    → All IsByte input
    → All (λ x. 32 ≤ x) typed
    → All (λ x. 32 ≤ x) (edited typed input)
unfolding edited
edited-IsShown typed [] b h = h
edited-IsShown typed (none ∷ input) b h = h
edited-IsShown typed (some c ∷ input) (l, b) h = elim (Bool-cases (ends_line c)) [
  | inl y ↦ rw y h
  | inr n ↦ rw n (edited-IsShown (edit typed c) input b (edit-IsShown typed c l h))
]

-- `readline` is the line editor: it waits as long as the input has no end of a line, and returns
-- NULL at a read error in front of one. Else the buffer holds the text that the keys made, of at
-- most 1023 characters, and a 0 behind it, the input behind the end of the line is left, and nothing
-- behind the buffer is written. The input consists of bytes, so no character of the text is a control
-- character, and that 0 is the first.
pub readline-Outcome :
    (echoing : Bool) (b : Bytes) (input : List (Option ℕ))
    → All IsByte input
    → Outcome b [] input (readline echoing b input) × All (λ x. 32 ≤ x) (edited [] input)
unfolding readline
readline-Outcome echoing b input h =
    (readline_from-Outcome echoing b 0 [] input refl (omega arith) tt, edited-IsShown [] input h tt)
