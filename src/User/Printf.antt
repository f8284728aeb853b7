-- ===== src/User/Printf.antt =====
-- jos/lib/printf.c: the output of a user program is collected and printed in pieces.
pub mod Buffer
use sisotp.Base.{
  ℕ, zero, suc, ◌+◌, ◌-◌, ◌%◌, List, [], ◌∷◌, ◌++◌, Bool, true, false, ltb, ◌==◌, if◌then◌else◌,
  update,
}
use sisotp.Libc.Strings.{Bytes}
use sisotp.Libc.Format.Args.{Run, done, no_argument, no_fuel, ◌>>=◌}
use sisotp.Libc.Format.{vprintfmt}

pub record Printbuf : Type 0 where
  pub idx : ℕ
  pub cnt : ℕ
  pub buf : Bytes

-- What `sys_cputs` prints of `len` bytes from `s` on: the kernel prints them by "%.*s", which stops at the
-- byte 0.
unfoldable pub printed : Bytes → (s len : ℕ) → List ℕ
printed m s zero = []
printed m s (suc len) = let rest = printed m (s + 1) len in if m s == 0 then [] else m s ∷ rest

-- The buffer, and what is printed.
unfoldable pub putch : (ch : ℕ) → Printbuf → Printbuf × List ℕ
putch ch b =
    let m = update b.buf b.idx (ch % 256) in
    if b.idx + 1 == 256 - 1
    then (record b { buf = m; idx = 0; cnt = b.cnt + 1 }, printed m 0 (b.idx + 1))
    else (record b { buf = m; idx = b.idx + 1; cnt = b.cnt + 1 }, [])

-- The calls of `putch`, one after the other, and the pieces that they print.
unfoldable pub putch_all : List ℕ → Printbuf → Printbuf × List (List ℕ)
putch_all [] b = (b, [])
putch_all (ch ∷ out) b =
    let (b', piece) = putch ch b in let (b'', pieces) = putch_all out b' in (b'', piece ∷ pieces)

-- The result, and the pieces printed; `m` is what the buffer holds before.
unfoldable pub vcprintf : (fuel : ℕ) → Bytes → (fmt : ℕ) → List ℕ → Bytes → Run (ℕ × List (List ℕ))
vcprintf fuel memory fmt ap m = vprintfmt fuel memory fmt ap >>= λ out.
    let (b, pieces) = putch_all out (record { idx = 0; cnt = 0; buf = m }) in
    done (b.cnt, pieces ++ (printed b.buf 0 b.idx ∷ []))
