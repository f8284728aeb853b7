-- ===== src/Libc/Format.antt =====
-- jos/lib/printfmt.c: `vprintfmt`, as the list of the arguments of its calls of `putch`, in their
-- order, and `vsnprintf`.
pub mod Args
pub mod Scan
pub mod Convert
pub mod Scanning
pub mod Ends
pub mod Buffer
use sisotp.Base.{
  codes, ℕ, zero, suc, ◌+◌, ◌-◌, ◌*◌, ◌/◌, ◌%◌, ◌^◌, List, [], ◌∷◌, ◌++◌, Bool, true, false, not,
  ◌&&◌, ◌||◌, Option, none, some, ltb, leb, ◌==◌, if◌then◌else◌, update, length, ℤ, pos, negsuc,
}
use sisotp.Libc.Strings.{Bytes}
use sisotp.Libc.Numbers.{printnum}
use sisotp.Libc.Format.Args.{Run, done, no_argument, no_fuel, ◌>>=◌}
use sisotp.Libc.Format.Scan.{Spec, no_spec, process_precision, digits_field, Scanned, scan}
use sisotp.Libc.Format.Convert.{convert}

-- One round of the loop: what was put, where the format goes on, and the arguments left.
pub record Round : Type 0 where
  pub put : List ℕ
  pub fmt : ℕ
  pub ap : List ℕ

-- The escape sequence behind a '%' in front of `fmt`. At a character that is no conversion the
-- '%' is put, and what stands behind it is text.
unfoldable pub escape : (fuel : ℕ) → Bytes → (fmt : ℕ) → List ℕ → Run Round
escape fuel m fmt ap = scan fuel m fmt ap no_spec >>= λ c. elim (convert fuel m c) [
  | none ↦ done (record { put = 37 ∷ []; fmt = fmt; ap = c.ap })
  | some r ↦ (r >>= λ o. done (record { put = o.0; fmt = c.fmt; ap = o.1 }))
]

unfoldable pub vprintfmt : (fuel : ℕ) → Bytes → (fmt : ℕ) → List ℕ → Run (List ℕ)
vprintfmt zero m fmt ap = no_fuel
vprintfmt (suc fuel) m fmt ap =
    let text = vprintfmt fuel m (fmt + 1) ap >>= λ out. done (m fmt ∷ out) in
    let sequence = escape fuel m (fmt + 1) ap >>= λ r.
    vprintfmt fuel m r.fmt r.ap >>= λ out. done (r.put ++ out) in
    if m fmt == 37 then sequence else (if m fmt == 0 then done [] else text)

pub record Sprintbuf : Type 0 where
  pub mem : Bytes
  pub buf : ℕ
  pub ebuf : ℕ
  pub cnt : ℕ

unfoldable pub sprintputch : (ch : ℕ) → Sprintbuf → Sprintbuf
sprintputch ch b =
    if ltb b.buf b.ebuf
    then record b { cnt = b.cnt + 1; mem = update b.mem b.buf (ch % 256); buf = b.buf + 1 }
    else record b { cnt = b.cnt + 1 }

unfoldable pub sprint_all : List ℕ → Sprintbuf → Sprintbuf
sprint_all [] b = b
sprint_all (ch ∷ out) b = sprint_all out (sprintputch ch b)

-- The result of a call on a buffer that is not NULL: the memory and the count; none is -E_INVAL.
-- The format and its strings lie outside of the buffer, so that they are read from `m`, and the int
-- `n` is not negative.
unfoldable pub vsnprintf : (fuel : ℕ) → Bytes → (buf n fmt : ℕ) → List ℕ → Run (Option (Bytes × ℕ))
vsnprintf fuel m buf n fmt ap =
    if (buf == 0) || ltb n 1
    then done none
    else vprintfmt fuel m fmt ap >>= λ out.
        let b = sprint_all out (record { mem = m; buf = buf; ebuf = buf + n - 1; cnt = 0 }) in
        done (some (update b.mem b.buf 0, b.cnt))
