-- ===== src/Libc/Readline.antt =====
-- jos/lib/readline.c: a line is read from the console. The input is what the calls of `getchar` return,
-- none for a negative number.
pub mod Edited
use sisotp.Base.{
  ℕ, ◌+◌, ◌-◌, ◌%◌, List, [], ◌∷◌, Bool, true, false, ◌&&◌, ◌||◌, Option, none, some, ltb, leb,
  ◌==◌, if◌then◌else◌, update,
}
use sisotp.Libc.Strings.{Bytes}

abbrev pub buflen : ℕ
buflen = 1024

pub data Read : Type 0 where
  -- the buffer, what was echoed and the input left
  line : Bytes → List ℕ → List (Option ℕ) → Read
  -- "read error", with NULL
  failed : List ℕ → List (Option ℕ) → Read
  -- the input has no end of a line
  waiting : Read

abbrev pub echo_first : Bool → ℕ → Read → Read
echo_first true c (line b out rest) = line b (c ∷ out) rest
echo_first true c (failed out rest) = failed (c ∷ out) rest
echo_first true c waiting = waiting
echo_first false c r = r

-- The loop of `readline`, with `i` characters in the buffer.
unfoldable pub readline_from : (echoing : Bool) → (b : Bytes) → (i : ℕ) → List (Option ℕ) → Read
readline_from echoing b i [] = waiting
readline_from echoing b i (none ∷ input) = failed [] input
readline_from echoing b i (some c ∷ input) =
    let erased = readline_from echoing b (i - 1) input in
    let added = readline_from echoing (update b i (c % 256)) (i + 1) input in
    let ignored = readline_from echoing b i input in
    if (c == 8 || c == 127) && ltb 0 i
    then echo_first echoing 8 erased
    else (if leb 32 c && ltb i (buflen - 1)
        then echo_first echoing c added
        else (if c == 10 || c == 13
            then echo_first echoing 10 (line (update b i 0) [] input)
            else ignored))

-- Behind the prompt.
unfoldable pub readline : (echoing : Bool) → (b : Bytes) → List (Option ℕ) → Read
readline echoing b input = readline_from echoing b 0 input
