-- ===== src/Libc/Strings/Bounded.antt =====
-- jos/lib/string.c: the lengths, and the routines that a size bounds.
use sisotp.Base.{
  ℕ, zero, suc, ◌+◌, ◌-◌, ◌≤◌, ◌<◌, ◌≡◌, ◌≢◌, ◌⊎◌, ◌↔◌, inl, inr, refl, ◌∙◌, ap, ◌&&◌, not, some,
  arith, Bool-cases, leb, ◌==◌, if◌then◌else◌, update, pos, int_difference,
}
use sisotp.Libc.Strings.{
  Bytes, strlen_from, strlen, strnlen_from, strnlen, strlcpy_loop, strlcpy, strncmp,
}
use sisotp.Libc.Strings.Move.{moved}

-- The string at `s` has `n` bytes before its byte 0.
pub record IsString (m : Bytes) (s n : ℕ) : Type 0 where
  pub end : m (s + n) ≡ 0
  pub inside : (i : ℕ) → i < n → m (s + i) ≢ 0

IsString-tail : (m : Bytes) (s n : ℕ) → IsString m s (suc n) → IsString m (s + 1) n
IsString-tail m s n h = record {
  end = ground (arith, h.end);
  inside = λ i l. ground (arith, h.inside (i + 1));
}

strlen_from_lem :
    (fuel : ℕ) (m : Bytes) (s n done : ℕ)
    → IsString m s n
    → n < fuel
    → strlen_from fuel m s done ≡ some (done + n)
unfolding strlen_from
strlen_from_lem zero m s n done h l = absurd (omega arith)
strlen_from_lem (suc fuel) m s zero done h l = ground (arith, h.end)
strlen_from_lem (suc fuel) m s (suc n) done h l =
    ground (arith, h.inside 0, strlen_from_lem fuel m (s + 1) n (done + 1) (IsString-tail m s n h))

strnlen_from_lem :
    (size : ℕ) (m : Bytes) (s n done : ℕ)
    → IsString m s n
    → strnlen_from size m s done ≡ (if leb size n then done + size else done + n)
unfolding strnlen_from
strnlen_from_lem zero m s n done h = ground arith
strnlen_from_lem (suc size) m s zero done h = ground (arith, h.end)
strnlen_from_lem (suc size) m s (suc n) done h =
    ground (arith, h.inside 0, strnlen_from_lem size m (s + 1) n (done + 1) (IsString-tail m s n h))

-- For a string of `n` bytes before its byte 0, `strlen` ends within `n + 1` bytes and returns `n`,
-- and `strnlen` returns the smaller of `n` and the size.
strlen-IsString :
    (m : Bytes) (s n fuel size : ℕ)
    → IsString m s n
    → n < fuel
    → (strlen fuel m s ≡ some n) × (strnlen size m s ≡ (if leb size n then size else n))
unfolding strlen strnlen
strlen-IsString m s n fuel size h l = (
  strlen_from_lem fuel m s n 0 h l ∙ ap some (omega arith),
  strnlen_from_lem size m s n 0 h ∙ ground arith,
)

strnlen_from-agree :
    (size : ℕ) (m m' : Bytes) (s done : ℕ)
    → ((i : ℕ) → i < size → m (s + i) ≡ m' (s + i))
    → strnlen_from size m s done ≡ strnlen_from size m' s done
unfolding strnlen_from
strnlen_from-agree zero m m' s done h = refl
strnlen_from-agree (suc size) m m' s done h =
    ground (
      arith,
      h 0,
      strnlen_from-agree size m m' (s + 1) (done + 1) (λ i l. ground (arith, h (i + 1))),
    )

strnlen_from-add :
    (size : ℕ) (m : Bytes) (s done : ℕ)
    → strnlen_from size m s done ≡ done + strnlen_from size m s 0
unfolding strnlen_from
strnlen_from-add zero m s done = omega arith
strnlen_from-add (suc size) m s done =
    ground (arith, strnlen_from-add size m (s + 1) (done + 1), strnlen_from-add size m (s + 1) 1)

strnlen_from-le : (size : ℕ) (m : Bytes) (s done : ℕ) → strnlen_from size m s done ≤ done + size
unfolding strnlen_from
strnlen_from-le zero m s done = omega arith
strnlen_from-le (suc size) m s done = ground (arith, strnlen_from-le size m (s + 1) (done + 1))

strlcpy_loop_lem :
    (room : ℕ) (m : Bytes) (dst src : ℕ)
    → (dst ≤ src) ⊎ (src + room ≤ dst)
    → ((strlcpy_loop room m dst src).1 ≡ dst + strnlen_from room m src 0)
      × ((x : ℕ)
          → (strlcpy_loop room m dst src).0 x ≡ moved m dst src (strnlen_from room m src 0) x)
unfolding strlcpy_loop strnlen_from
strlcpy_loop_lem zero m dst src h = (omega arith, λ x. ground arith)
strlcpy_loop_lem (suc room) m dst src h = elim (Bool-cases (m src == 0)) [
  | inl e ↦ rw e (omega arith, λ x. ground arith)
  | inr e ↦
      (let rest = strlcpy_loop_lem room (update m dst (m src)) (dst + 1) (src + 1) (ground arith) in
        let agree =
          strnlen_from-agree room (update m dst (m src)) m (src + 1) 0 (λ i l. ground arith) in
        let more = strnlen_from-add room m (src + 1) 1 in
        rw (e, more)
          (
            rest.0 ∙ rw agree (omega arith),
            λ x. rest.1 x ∙ rw agree (ground (arith, strnlen_from-le room m (src + 1) 0)),
          ))
]

-- `strlcpy` into a buffer that the bytes it reads do not overlap from below writes nothing if the
-- size is 0, and otherwise copies the bytes of the string, at most `size` of them for a buffer of
-- `size + 1`, ends them with a byte 0, changes nothing else, and returns how many it copied.
strlcpy-moved :
    (size : ℕ) (m : Bytes) (dst src : ℕ)
    → (dst ≤ src) ⊎ (src + size ≤ dst)
    → (strlcpy 0 m dst src ≡ (m, 0))
      × ((strlcpy (suc size) m dst src).1 ≡ strnlen size m src)
      × ((strlcpy (suc size) m dst src).0 (dst + strnlen size m src) ≡ 0)
      × ((x : ℕ)
          → x ≢ dst + strnlen size m src
          → (strlcpy (suc size) m dst src).0 x ≡ moved m dst src (strnlen size m src) x)
unfolding strlcpy strnlen
strlcpy-moved size m dst src h =
    let l = strlcpy_loop_lem size m dst src h in
    (refl, ground (arith, l.0), ground (arith, l.0), λ x n. ground (arith, l.0, l.1 x))

int_difference-zero : (a b : ℕ) → int_difference a b ≡ pos 0 → a ≡ b
int_difference-zero a b e = ground arith

int_difference-eq : (a b : ℕ) → a ≡ b → int_difference a b ≡ pos 0
int_difference-eq a b e = ground arith

Agrees : (n : ℕ) → Bytes → (p q : ℕ) → Type 0
Agrees n m p q = (i : ℕ) → i < n → ((j : ℕ) → j < i → m (p + j) ≢ 0) → m (p + i) ≡ m (q + i)

Agrees-tail :
    (n : ℕ) (m : Bytes) (p q : ℕ) → m p ≢ 0 → Agrees (suc n) m p q → Agrees n m (p + 1) (q + 1)
unfolding Agrees
Agrees-tail n m p q z h i l f =
    let start : (j : ℕ) → j < i + 1 → m (p + j) ≢ 0 = λ j k e. elim (Bool-cases (j == 0)) [
      | inl o ↦ z (ground (arith, e))
      | inr o ↦ f (j - 1) (ground arith) (ground (arith, e))
    ] in
    ground (arith, h (i + 1) (omega arith) start)

strncmp-Agrees : (n : ℕ) (m : Bytes) (p q : ℕ) → strncmp n m p q ≡ pos 0 → Agrees n m p q
unfolding strncmp Agrees
strncmp-Agrees zero m p q e i l f = absurd (omega arith)
strncmp-Agrees (suc n) m p q e i l f = elim (Bool-cases (not (m p == 0) && m p == m q)) [
  | inl t ↦ elim (Bool-cases (i == 0)) [
    | inl o ↦ ground arith
    | inr o ↦ ground (
      arith,
      strncmp-Agrees n m (p + 1) (q + 1) (ground (arith, e)) (i - 1) (ground arith)
          (λ j k w. f (j + 1) (ground arith) (ground (arith, w))),
    )
  ]
  | inr t ↦ elim (Bool-cases (i == 0)) [
    | inl o ↦ ground (arith, int_difference-zero (m p) (m q) (ground (arith, e)))
    | inr o ↦ absurd (ground (arith, f 0, int_difference-zero (m p) (m q) (ground (arith, e))))
  ]
]

Agrees-strncmp : (n : ℕ) (m : Bytes) (p q : ℕ) → Agrees n m p q → strncmp n m p q ≡ pos 0
unfolding strncmp Agrees
Agrees-strncmp zero m p q h = refl
Agrees-strncmp (suc n) m p q h =
    let first : m p ≡ m q = ground (arith, h 0 (omega arith) (λ j k. absurd (omega arith))) in
    elim (Bool-cases (m p == 0)) [
      | inl o ↦ ground (arith, int_difference-eq (m p) (m q) first)
      | inr o ↦
          ground (arith, Agrees-strncmp n m (p + 1) (q + 1) (Agrees-tail n m p q (ground arith) h))
    ]

-- `strncmp` returns 0 exactly if the first `n` bytes agree, up to the end of the first string.
strncmp-zero :
    (n : ℕ) (m : Bytes) (p q : ℕ)
    → (strncmp n m p q ≡ pos 0)
      ↔ ((i : ℕ) → i < n → ((j : ℕ) → j < i → m (p + j) ≢ 0) → m (p + i) ≡ m (q + i))
unfolding Agrees
strncmp-zero n m p q = (strncmp-Agrees n m p q, Agrees-strncmp n m p q)
