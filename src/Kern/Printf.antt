-- ===== src/Kern/Printf.antt =====
-- jos/kern/printf.c: the output of the kernel, to the devices of the console.
use sisotp.Base.{ℕ, List, [], ◌∷◌}
use sisotp.Libc.Strings.{Bytes}
use sisotp.Libc.Format.Args.{Run, done, ◌>>=◌}
use sisotp.Libc.Format.{vprintfmt}
use sisotp.Kern.Console.Screen.{Screen, cputchar}

-- `*cnt++` moves the pointer on: the count that it points to stays as it is.
unfoldable pub putch : (ch : ℕ) → Screen × ℕ → Screen × ℕ
putch ch (s, cnt) = (cputchar ch s, cnt)

unfoldable pub putch_all : List ℕ → Screen × ℕ → Screen × ℕ
putch_all [] p = p
putch_all (ch ∷ out) p = putch_all out (putch ch p)

unfoldable pub vcprintf : (fuel : ℕ) → Bytes → (fmt : ℕ) → List ℕ → Screen → Run (Screen × ℕ)
vcprintf fuel m fmt ap s = vprintfmt fuel m fmt ap >>= λ out. done (putch_all out (s, 0))
