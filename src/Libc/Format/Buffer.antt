-- ===== src/Libc/Format/Buffer.antt =====
-- jos/lib/printfmt.c: what `vsnprintf` leaves in its buffer.
use sisotp.Base.{
  ℕ, zero, suc, ◌+◌, ◌-◌, ◌%◌, ◌≤◌, ◌<◌, ◌≡◌, ◌≢◌, ◌⊎◌, inl, inr, refl, min, List, [], ◌∷◌, false,
  ◌||◌, some, arith, Bool-cases, ltb, ◌==◌, update, length, get_or,
}
use sisotp.Libc.Strings.{Bytes}
use sisotp.Libc.Format.Args.{done}
use sisotp.Libc.Format.{vprintfmt, Sprintbuf, sprintputch, sprint_all, vsnprintf}

-- `t` is `s` with the first characters of `out` put, as many as there is room for.
record Printed (out : List ℕ) (s t : Sprintbuf) : Type 0 where
  cnt : t.cnt ≡ s.cnt + length out
  buf : t.buf ≡ s.buf + min (length out) (s.ebuf - s.buf)
  ebuf : t.ebuf ≡ s.ebuf
  outside : (a : ℕ) → (a < s.buf) ⊎ (s.ebuf ≤ a) → t.mem a ≡ s.mem a
  inside : (i : ℕ) → i < length out → s.buf + i < s.ebuf → t.mem (s.buf + i) ≡ get_or out i 0 % 256

-- The first character goes to `buf`, or nowhere.
Printed-put :
    (ch : ℕ) (out : List ℕ) (b t : Sprintbuf)
    → b.buf < b.ebuf
    → Printed out
        (record b { cnt = b.cnt + 1; mem = update b.mem b.buf (ch % 256); buf = b.buf + 1 })
        t
    → Printed (ch ∷ out) b t
Printed-put ch out b t l p = record {
  cnt = omega (arith, p.cnt);
  buf = ground (arith, p.buf);
  ebuf = p.ebuf;
  outside = λ a h. ground (arith, p.outside a);
  inside = λ i.
      elim i
        as (λ k.
          k < length (ch ∷ out)
          → b.buf + k < b.ebuf
          → t.mem (b.buf + k) ≡ get_or (ch ∷ out) k 0 % 256) [
            | zero ↦ (λ g r. ground (arith, p.outside b.buf))
            | suc i ↦ (λ g r. ground (arith, p.inside i))
          ];
}

Printed-full :
    (ch : ℕ) (out : List ℕ) (b t : Sprintbuf)
    → b.ebuf ≤ b.buf
    → Printed out (record b { cnt = b.cnt + 1 }) t
    → Printed (ch ∷ out) b t
Printed-full ch out b t l p = record {
  cnt = omega (arith, p.cnt);
  buf = ground (arith, p.buf);
  ebuf = p.ebuf;
  outside = p.outside;
  inside = λ i g r. absurd (omega arith);
}

sprint_all-Printed : (out : List ℕ) (b : Sprintbuf) → Printed out b (sprint_all out b)
unfolding sprint_all sprintputch
sprint_all-Printed [] b = record {
  cnt = omega arith;
  buf = ground arith;
  ebuf = refl;
  outside = λ a h. refl;
  inside = λ i l r. absurd (omega arith);
}
sprint_all-Printed (ch ∷ out) b = elim (Bool-cases (ltb b.buf b.ebuf)) [
  | inl e ↦ rw e (Printed-put ch out b _ (ground arith) (sprint_all-Printed out _))
  | inr e ↦ rw e (Printed-full ch out b _ (ground arith) (sprint_all-Printed out _))
]

-- With a buffer of `n` bytes, one at least, and a format that `vprintfmt` prints as `out`, `vsnprintf`
-- returns the length of `out`. No byte outside of the buffer changes. The buffer holds the first
-- `n - 1` characters of `out`, or all of them if there are fewer, and behind them the byte 0.
pub vsnprintf-IsBounded :
    (fuel : ℕ) (m : Bytes) (buf n fmt : ℕ) (ap out : List ℕ)
    → buf ≢ 0
    → 1 ≤ n
    → vprintfmt fuel m fmt ap ≡ done out
    → (m' : Bytes) × (vsnprintf fuel m buf n fmt ap ≡ done (some (m', length out)))
      × ((a : ℕ) → (a < buf) ⊎ (buf + n ≤ a) → m' a ≡ m a)
      × ((i : ℕ) → i < length out → i < n - 1 → m' (buf + i) ≡ get_or out i 0 % 256)
      × (m' (buf + min (length out) (n - 1)) ≡ 0)
unfolding vsnprintf
vsnprintf-IsBounded fuel m buf n fmt ap out h l e =
    let p = sprint_all-Printed out (record { mem = m; buf = buf; ebuf = buf + n - 1; cnt = 0 }) in
    let bad : ((buf == 0) || ltb n 1) ≡ false = ground arith in
    let b = sprint_all out (record { mem = m; buf = buf; ebuf = buf + n - 1; cnt = 0 }) in
    (
      update b.mem b.buf 0,
      let c : b.cnt ≡ length out = omega (arith, p.cnt) in rw (bad, e, c) refl,
      (λ a o. ground (arith, p.buf, p.outside a)),
      (λ i g r. ground (arith, p.buf, p.inside i)),
      ground (arith, p.buf),
    )
