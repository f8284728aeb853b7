-- ===== src/Kern/Monitor.antt =====
-- jos/kern/monitor.c: the command line of the monitor. Loops run on fuel, the bytes that they may read,
-- and return none if it is used up.
pub mod Backtrace
pub mod Runcmd
pub mod Words
use sisotp.Base.{
  codes, ℕ, zero, suc, ◌+◌, ◌-◌, List, [], ◌∷◌, ◌++◌, Bool, not, ◌&&◌, ◌||◌, Option, none, some,
  ◌==◌, if◌then◌else◌, update, length,
}
use sisotp.Libc.Strings.{Bytes}

abbrev pub maxargs : ℕ
maxargs = 16

-- A character of WHITESPACE.
abbrev pub is_whitespace : ℕ → Bool
is_whitespace c = c == 9 || c == 13 || c == 10 || c == 32

-- "gobble whitespace": it becomes the end of the argument in front of it.
unfoldable pub gobble : (fuel : ℕ) → Bytes → (buf : ℕ) → Option (Bytes × ℕ)
gobble zero m buf = none
gobble (suc fuel) m buf =
    let rest = gobble fuel (update m buf 0) (buf + 1) in
    if not (m buf == 0) && is_whitespace (m buf) then rest else some (m, buf)

-- "scan past next arg".
unfoldable pub scan_past : (fuel : ℕ) → Bytes → (buf : ℕ) → Option ℕ
scan_past zero m buf = none
scan_past (suc fuel) m buf =
    let rest = scan_past fuel m (buf + 1) in
    if not (m buf == 0) && not (is_whitespace (m buf)) then rest else some buf

pub data Parsed : Type 0 where
  arguments : Bytes → (argv : List ℕ) → Parsed
  too_many : Bytes → Parsed

-- The loop of `runcmd`, with the arguments found before; `rounds` is fuel, too.
unfoldable pub parse : (rounds fuel : ℕ) → Bytes → (buf : ℕ) → (argv : List ℕ) → Option Parsed
parse zero fuel m buf argv = none
parse (suc rounds) fuel m buf argv = elim (gobble fuel m buf) [
  | none ↦ none
  | some (m₁, start) ↦ elim (scan_past fuel m₁ start) [
    | none ↦ none
    | some end ↦
        (let rest = parse rounds fuel m₁ end (argv ++ (start ∷ [])) in
          if m₁ start == 0
          then some (arguments m₁ argv)
          else (if length argv == maxargs - 1 then some (too_many m₁) else rest))
  ]
]

-- `strcmp` with a name is 0.
abbrev pub is_text : Bytes → ℕ → List ℕ → Bool
is_text m p [] = m p == 0
is_text m p (c ∷ text) = m p == c && is_text m (p + 1) text

-- What the command line does: each of the three functions returns 0.
pub data Command : Type 0 where
  mon_help mon_kerninfo mon_backtrace no_command unknown_command too_many_arguments : Command

unfoldable pub find_command : Bytes → (argv : List ℕ) → Command
find_command m [] = no_command
find_command m (name ∷ argv) =
    if is_text m name (codes "help")
    then mon_help
    else (if is_text m name (codes "kerninfo")
        then mon_kerninfo
        else (if is_text m name (codes "backtrace") then mon_backtrace else unknown_command))

abbrev pub command_of : Parsed → Command × List ℕ
command_of (arguments m argv) = (find_command m argv, argv)
command_of (too_many m) = (too_many_arguments, [])

-- The command and its arguments.
unfoldable pub runcmd : (fuel : ℕ) → Bytes → (buf : ℕ) → Option (Command × List ℕ)
runcmd fuel m buf = elim (parse fuel fuel m buf []) [ none ↦ none | some p ↦ some (command_of p) ]
